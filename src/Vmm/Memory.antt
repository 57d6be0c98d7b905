-- ===== src/Vmm/Memory.antt =====
-- Reading a word after another was written.
use optimsoc.Prelude.{
  ℕ, ◌≡◌, ◌≢◌, Option, ◌<◌, ◌&&◌, false, some, List, arith, ◌==◌, if◌then◌else◌, length, set,
  get_elem?, get_elem?-set, lt_of_get_elem?, done, lt→ltb,
}
use native.Mathlib.Decide.{ℕ_discrete}
use optimsoc.Registry.{load, update}
use optimsoc.Vmm.{Blocks, peek, poke}

-- `mem'` is `mem` with `w` at word `i` of `block`.
pub record Poked (block i w : ℕ) (mem mem' : Blocks) : Type 0 where
  pub word : (b k : ℕ) → peek b k mem' ≡ (if (b == block) && (k == i) then done w else peek b k mem)

module _ (block i : ℕ) (mem : Blocks) where
  -- A word that can be read lies in a block.
  pub block-of_peek :
      {v : ℕ}
      → peek block i mem ≡ done v
      → ((block == 0) ≡ false)
        × (words : List ℕ) × (mem block ≡ some words)
        × (get_elem? words i ≡ some v)
  unfolding peek load
  block-of_peek h = ground arith

  poke-run :
      (words : List ℕ) (w : ℕ)
      → (block == 0) ≡ false
      → mem block ≡ some words
      → i < length words
      → poke block i w mem ≡ done (update mem block (some (set words i w)))
  unfolding poke load
  poke-run words w nonzero at h = rw (nonzero, at, lt→ltb i (length words) h)

  Poked-update :
      (words : List ℕ) (w : ℕ)
      → (block == 0) ≡ false
      → mem block ≡ some words
      → i < length words
      → Poked block i w mem (update mem block (some (set words i w)))
  unfolding peek load update
  Poked-update words w nonzero at h = record {
    word = λ b k. elim (ℕ_discrete b block) [
      | yes e ↦ rw e (ground (arith, get_elem?-set words i k w))
      | no ne ↦ ground arith
    ];
  }

  -- A word that can be read can be written.
  pub poke_lem :
      {v : ℕ} (w : ℕ)
      → peek block i mem ≡ done v
      → (mem' : Blocks) × (poke block i w mem ≡ done mem') × Poked block i w mem mem'
  poke_lem w h =
      let (nonzero, words, at, here) = block-of_peek h in
      let inside = lt_of_get_elem? words i here in
      (
        update mem block (some (set words i w)),
        poke-run words w nonzero at inside,
        Poked-update words w nonzero at inside,
      )

-- A word of a block that was just put in place.
pub peek-update :
    (block k : ℕ) (mem : Blocks) (words : List ℕ) {v : ℕ}
    → block ≢ 0
    → get_elem? words k ≡ some v
    → peek block k (update mem block (some words)) ≡ done v
unfolding peek load update
peek-update block k mem words ne h = ground (arith, h)

pub peek-update_other :
    (block b k : ℕ) (mem : Blocks) (v : Option (List ℕ))
    → b ≢ block
    → peek b k (update mem block v) ≡ peek b k mem
unfolding peek load update
peek-update_other block b k mem v ne = ground arith
