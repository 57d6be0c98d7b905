-- ===== src/MpSimple/Rank.antt =====
-- Ranks and tiles.
use optimsoc.Prelude.{
  ℕ, zero, suc, ◌+◌, ◌≡◌, ◌≢◌, ◌<◌, false, ap, some, List, [], ◌∷◌, arith, ◌==◌, get_elem?, done,
  ◌>>=◌,
}
use optimsoc.MpSimple.{rank_loop, tilerank, ranktile}

rank_loop_lem :
    (ts : List ℕ) (tile i k : ℕ)
    → get_elem? ts k ≡ some tile
    → ((j : ℕ) → j < k → get_elem? ts j ≢ some tile)
    → rank_loop tile i ts ≡ i + k
unfolding rank_loop
rank_loop_lem [] tile i k here first = absurd (cc)
rank_loop_lem (t ∷ ts) tile i zero here first = ground (arith, here)
rank_loop_lem (t ∷ ts) tile i (suc k) here first =
    let other : t ≢ tile = λ e. first 0 (omega arith) (ap some e) in
    let off : (t == tile) ≡ false = ground arith in
    rw (off, rank_loop_lem ts tile (suc i) k here (λ j h. first (suc j) (omega arith)))
      (omega arith)

-- The rank of the tile with a rank is that rank, where no smaller rank has the same tile.
pub tilerank-ranktile :
    (ctlist : List ℕ) (rank tile : ℕ)
    → get_elem? ctlist rank ≡ some tile
    → ((j : ℕ) → j < rank → get_elem? ctlist j ≢ some tile)
    → (ranktile ctlist rank >>= λ t. done (tilerank ctlist t)) ≡ done rank
unfolding tilerank ranktile
tilerank-ranktile ctlist rank tile here first =
    rw (here, rank_loop_lem ctlist tile 0 rank here first) (ap done (omega arith))
