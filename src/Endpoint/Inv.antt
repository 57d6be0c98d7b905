-- ===== src/Endpoint/Inv.antt =====
-- The representation invariant of a ring of message slots, and what the code keeps of it.
use optimsoc.Prelude.{
  ℕ, suc, ◌+◌, ◌-◌, ◌*◌, ◌≡◌, ◌≤◌, ◌<◌, ◌^◌, ◌≢◌, inl, inr, ◌↔◌, if◌then◌else◌, true, Bool-cases,
  some, List, [], ◌∷◌, ◌++◌, arith, leb, ◌==◌, length, get_elem?, done, blocked,
}
use native.Mathlib.Decide.{ℕ_discrete}
use optimsoc.Sync.{Cas}
use optimsoc.Endpoint.{
  Buffer, advance, push, pop, alone, full, channel_get_credit, channel_get_fillstate,
}

-- The pointers index the ring, the arrays have one entry for each slot, and slot `i` is the `i`-th
-- run of `words` words of the area.
pub record IsValid (words : ℕ) (b : Buffer) : Type 0 where
  pub small : b.size < 2 ^ 32
  pub read_in : b.read_ptr < b.size
  pub write_in : b.write_ptr < b.size
  pub sizes : length b.data_size ≡ b.size
  pub slots : (i : ℕ) → i < b.size → get_elem? b.slots i ≡ some (i * words)
  pub room : b.size * words ≤ length b.field
  pub area_small : 4 * (b.size * words) < 2 ^ 32

-- How many slots are in use, from the read to the write pointer.
abbrev pub used : Buffer → ℕ
used b =
    if leb b.read_ptr b.write_ptr
    then b.write_ptr - b.read_ptr
    else b.size - b.read_ptr + b.write_ptr

pub advance-lt : (size ptr : ℕ) → size < 2 ^ 32 → ptr < size → advance size ptr < size
unfolding advance
advance-lt size ptr s h = ground arith

pub advance_lem :
    (size ptr : ℕ)
    → size < 2 ^ 32
    → ptr < size
    → advance size ptr ≡ (if suc ptr == size then 0 else suc ptr)
unfolding advance
advance_lem size ptr s h = ground arith

module _ {words : ℕ} {b : Buffer} (v : IsValid words b) where
  -- One slot always stays free: the credit that a receiver grants and the slots in use make up the
  -- ring but for that slot.
  pub credit-add-used : suc (channel_get_credit b + used b) ≡ b.size
  unfolding channel_get_credit
  credit-add-used = ground arith

  pub fillstate-eq-used : channel_get_fillstate b ≡ used b
  unfolding channel_get_fillstate
  fillstate-eq-used = omega (arith, credit-add-used)

  -- `endpoint_full` holds exactly when the credit is spent.
  pub full_iff : (full b ≡ true) ↔ (channel_get_credit b ≡ 0)
  unfolding full channel_get_credit
  full_iff = (λ h. ground arith, λ h. ground arith)

  pub full-used : full b ≡ (suc (used b) == b.size)
  unfolding full
  full-used = ground arith

module _ ⦃cpu : Cas⦄ where
  pub push-alone :
      (b : Buffer)
      → push alone b ≡ done (b.write_ptr, record b { write_ptr = advance b.size b.write_ptr })
  unfolding push
  push-alone b = rw (cpu.cas_hit b.write_ptr (advance b.size b.write_ptr)) (ground arith)

  pub pop-alone :
      (b : Buffer)
      → pop alone b ≡ done (b.read_ptr, record b { read_ptr = advance b.size b.read_ptr })
  unfolding pop
  pop-alone b = rw (cpu.cas_hit b.read_ptr (advance b.size b.read_ptr)) (ground arith)

  push-step :
      (others : ℕ → ℕ) (rounds : List (ℕ → ℕ)) (b : Buffer)
      → push (others ∷ rounds) b ≡ (
          if others b.write_ptr == b.write_ptr
          then done (b.write_ptr, record b { write_ptr = advance b.size b.write_ptr })
          else push rounds (record b { write_ptr = others b.write_ptr }))
  unfolding push
  push-step others rounds b = elim (ℕ_discrete (others b.write_ptr) b.write_ptr) [
    | yes e ↦ rw (e, cpu.cas_hit b.write_ptr (advance b.size b.write_ptr)) (ground arith)
    | no n ↦
        rw (cpu.cas_miss (others b.write_ptr) b.write_ptr (advance b.size b.write_ptr) n)
          (ground arith)
  ]

  -- Whatever the other cores do in between, a push that returns has moved its pointer on by one from
  -- the slot it returns, and has changed nothing else.
  pub push-done :
      (rounds : List (ℕ → ℕ)) (b : Buffer) {ptr : ℕ} {b' : Buffer}
      → push rounds b ≡ done (ptr, b')
      → b' ≡ record b { write_ptr = advance b.size ptr }
  push-done [] b h = absurd (unfold push in cc)
  push-done (others ∷ rounds) b {ptr} {b'} h =
      elim (Bool-cases (others b.write_ptr == b.write_ptr)) [
        | inl hit ↦ ground (arith, push-step others rounds b)
        | inr miss ↦
            push-done rounds (record b { write_ptr = others b.write_ptr })
              (ground (arith, push-step others rounds b))
      ]

  -- The loop ends at the latest in the first round in which no other core moves the pointer.
  pub push-returns :
      (before after : List (ℕ → ℕ)) (b : Buffer) → push (before ++ ((λ w. w) ∷ after)) b ≢ blocked
  push-returns [] after b = rw (push-step (λ w. w) after b) (ground arith)
  push-returns (others ∷ before) after b =
      rw (push-step others (before ++ ((λ w. w) ∷ after)) b)
        (elim (Bool-cases (others b.write_ptr == b.write_ptr)) [
          | inl hit ↦ rw hit (ground arith)
          | inr miss ↦
              rw miss (push-returns before after (record b { write_ptr = others b.write_ptr }))
        ])

  pop-step :
      (others : ℕ → ℕ) (rounds : List (ℕ → ℕ)) (b : Buffer)
      → pop (others ∷ rounds) b ≡ (
          if others b.read_ptr == b.read_ptr
          then done (b.read_ptr, record b { read_ptr = advance b.size b.read_ptr })
          else pop rounds (record b { read_ptr = others b.read_ptr }))
  unfolding pop
  pop-step others rounds b = elim (ℕ_discrete (others b.read_ptr) b.read_ptr) [
    | yes e ↦ rw (e, cpu.cas_hit b.read_ptr (advance b.size b.read_ptr)) (ground arith)
    | no n ↦
        rw (cpu.cas_miss (others b.read_ptr) b.read_ptr (advance b.size b.read_ptr) n)
          (ground arith)
  ]

  -- Whatever the other cores do in between, a pop that returns has moved its pointer on by one from
  -- the slot it returns, and has changed nothing else.
  pub pop-done :
      (rounds : List (ℕ → ℕ)) (b : Buffer) {ptr : ℕ} {b' : Buffer}
      → pop rounds b ≡ done (ptr, b')
      → b' ≡ record b { read_ptr = advance b.size ptr }
  pop-done [] b h = absurd (unfold pop in cc)
  pop-done (others ∷ rounds) b {ptr} {b'} h = elim (Bool-cases (others b.read_ptr == b.read_ptr)) [
    | inl hit ↦ ground (arith, pop-step others rounds b)
    | inr miss ↦
        pop-done rounds (record b { read_ptr = others b.read_ptr })
          (ground (arith, pop-step others rounds b))
  ]

  -- The loop ends at the latest in the first round in which no other core moves the pointer.
  pub pop-returns :
      (before after : List (ℕ → ℕ)) (b : Buffer) → pop (before ++ ((λ w. w) ∷ after)) b ≢ blocked
  pop-returns [] after b = rw (pop-step (λ w. w) after b) (ground arith)
  pop-returns (others ∷ before) after b =
      rw (pop-step others (before ++ ((λ w. w) ∷ after)) b)
        (elim (Bool-cases (others b.read_ptr == b.read_ptr)) [
          | inl hit ↦ rw hit (ground arith)
          | inr miss ↦
              rw miss (pop-returns before after (record b { read_ptr = others b.read_ptr }))
        ])
