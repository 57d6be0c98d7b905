-- ===== src/Endpoint/Copy.antt =====
-- The copy loops of `endpoint_write` and `endpoint_msg_recv`: what ends up where, and that they
-- stay inside both areas.
use optimsoc.Prelude.{
  ℕ, zero, suc, ◌+◌, ◌-◌, ◌≡◌, ◌≤◌, ◌<◌, refl, ap, ◌∙◌, ◌&&◌, List, some, arith, ltb, leb,
  if◌then◌else◌, length, set, get_elem?, length-set, get_elem?-set, get_elem?_of_lt, done, lt→ltb,
}
use optimsoc.Endpoint.{copy_loop}

-- `out` is `dst` with the words `src[s + i .. s + i + n)` at `d + i`.
pub record Copied (src : List ℕ) (s : ℕ) (dst : List ℕ) (d i n : ℕ) (out : List ℕ) : Type 0 where
  pub same_length : length out ≡ length dst
  pub word_at :
      (k : ℕ)
      → get_elem? out k ≡ (
          if leb (d + i) k && ltb k (d + i + n)
          then get_elem? src (s + (k - d))
          else get_elem? dst k)

Copied-cons :
    {src : List ℕ} {s : ℕ} {dst : List ℕ} {d i n : ℕ} {out : List ℕ} (w p : ℕ)
    → get_elem? src (s + i) ≡ some w
    → p ≡ d + i
    → p < length dst
    → Copied src s (set dst p w) d (suc i) n out
    → Copied src s dst d i (suc n) out
Copied-cons {src} {s} {dst} {d} {i} {n} w p hw hp room c = record {
  same_length = omega (arith, c.same_length, length-set dst p w);
  word_at = λ k. ground (arith, c.word_at k, get_elem?-set dst p k w, here k);
}
  where
    here : (k : ℕ) → k ≡ p → get_elem? src (s + (k - d)) ≡ some w
    here k e = let t : s + (k - d) ≡ s + i = omega arith in rw t hw

copy_loop-suc :
    (src : List ℕ) (from : ℕ → ℕ) (dst : List ℕ) (to : ℕ → ℕ) (i n w : ℕ)
    → get_elem? src (from i) ≡ some w
    → to i < length dst
    → copy_loop src from dst to i (suc n) ≡ copy_loop src from (set dst (to i) w) to (suc i) n
unfolding copy_loop
copy_loop-suc src from dst to i n w hw h = rw (hw, lt→ltb (to i) (length dst) h)

module _ (src : List ℕ) (from : ℕ → ℕ) (to : ℕ → ℕ) (s d : ℕ) where
  pub copy_loop-Copied :
      (dst : List ℕ) (i n : ℕ)
      → ((j : ℕ) → j < i + n → from j ≡ s + j)
      → ((j : ℕ) → j < i + n → to j ≡ d + j)
      → s + (i + n) ≤ length src
      → d + (i + n) ≤ length dst
      → (out : List ℕ) × (copy_loop src from dst to i n ≡ done out) × Copied src s dst d i n out
  copy_loop-Copied dst i zero hf ht hs hd =
      (dst, unfold copy_loop in refl, record { same_length = refl; word_at = λ k. ground arith })
  copy_loop-Copied dst i (suc n) hf ht hs hd =
      let f : from i ≡ s + i = hf i (omega arith) in
      let t : to i ≡ d + i = ht i (omega arith) in
      let (w, hw) = get_elem?_of_lt src (s + i) (omega arith) in
      let (out, run, c) =
        copy_loop-Copied (set dst (to i) w) (suc i) n (λ j h. hf j (omega arith))
          (λ j h. ht j (omega arith)) (omega arith) (omega (arith, length-set dst (to i) w)) in
      (
        out,
        copy_loop-suc src from dst to i n w (ap (get_elem? src) f ∙ hw) (omega arith) ∙ run,
        Copied-cons w (to i) hw t (omega arith) c,
      )
