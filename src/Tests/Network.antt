-- ===== src/Tests/Network.antt =====
-- Packets of the classes 2 and 3 in the receive register of the one endpoint.
use optimsoc.Prelude.{
  ℕ, zero, suc, ◌*◌, ◌+◌, ◌^◌, ◌≡◌, ◌≢◌, ◌<◌, refl, some, List, [], ◌∷◌, map, arith, ltb, replicate,
  take, get_elem?, done, ◌>>=◌,
}
use optimsoc.MpSimple.{Driver, Call, irq_handler, tilerank, ranktile}
use optimsoc.MpSimple.Rank.{tilerank-ranktile}
use optimsoc.MpSimple.Receive.{framed, handed, irq_handler_lem, irq_handler-too_large}

abbrev flit : ℕ
flit = 2 * 2 ^ 24 + 5

abbrev other_flit : ℕ
other_flit = 3 * 2 ^ 24 + 5

abbrev packets : List (List ℕ)
packets = (flit ∷ 8 ∷ []) ∷ (other_flit ∷ []) ∷ []

abbrev driver : List (List ℕ) → Driver
driver fifos = record {
  packet = flit ∷ replicate 31 0;
  registered = λ c. ltb c 4;
  domains_ready = 0 ∷ 0 ∷ [];
  fifos = fifos;
  ctlist = 4 ∷ 9 ∷ [];
}

irq_handler_lem_example :
    (d' : Driver) × (calls : List Call) × (irq_handler 3 1 (driver (framed packets ∷ []))
      ≡ done (d', calls))
    × (map handed calls ≡ packets)
    × (map (λ c. c.class) calls ≡ 2 ∷ 3 ∷ [])
    × (map (λ c. c.size) calls ≡ 2 ∷ 1 ∷ [])
    × (d'.fifos ≡ [] ∷ [])
irq_handler_lem_example =
    irq_handler_lem packets 3 (driver (framed packets ∷ [])) refl refl
      (
        (λ e. absurd (cc), omega arith, omega arith, refl),
        ((λ e. absurd (cc), omega arith, omega arith, refl), tt),
      )
      (omega arith)

abbrev large_packet : List ℕ
large_packet = replicate 33 1

irq_handler-too_large_example :
    (d' : Driver) × (packet : List ℕ) × (calls : List Call) × (irq_handler 4 1
        (driver (framed ((flit ∷ 8 ∷ []) ∷ large_packet ∷ (other_flit ∷ []) ∷ []) ∷ []))
      ≡ done (
        d',
        record { class = 2; buffer = packet; size = 2 }
            ∷ record { class = 2; buffer = packet; size = 33 }
            ∷ calls,
      ))
    × (take 2 packet ≡ flit ∷ 8 ∷ [])
    × (map handed calls ≡ (other_flit ∷ []) ∷ [])
    × (d'.fifos ≡ [] ∷ [])
irq_handler-too_large_example =
    irq_handler-too_large (flit ∷ 8 ∷ []) large_packet ((other_flit ∷ []) ∷ []) 4
      (driver (framed ((flit ∷ 8 ∷ []) ∷ large_packet ∷ (other_flit ∷ []) ∷ []) ∷ [])) refl refl
      (
        (λ e. absurd (cc), omega arith, omega arith, refl),
        ((λ e. absurd (cc), omega arith, omega arith, refl), tt),
      )
      (omega arith) (omega arith)

no_tile_before : (j : ℕ) → j < 1 → get_elem? {A = ℕ} (4 ∷ 9 ∷ []) j ≢ some 9
no_tile_before zero h e = absurd (cc)
no_tile_before (suc j) h e = absurd (omega arith)

tilerank-ranktile_example :
    (ranktile (4 ∷ 9 ∷ []) 1 >>= λ t. done (tilerank (4 ∷ 9 ∷ []) t)) ≡ done 1
tilerank-ranktile_example = tilerank-ranktile (4 ∷ 9 ∷ []) 1 9 refl no_tile_before
