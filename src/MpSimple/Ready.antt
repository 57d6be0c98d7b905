-- ===== src/MpSimple/Ready.antt =====
-- The request for a tile's ready state: `optimsoc_mp_simple_ctready` of libbaremetal/mp_simple.c.
use Prim.Native.Nat.{bit_or}
use optimsoc.Prelude.{ℕ, ◌+◌, ◌-◌, ◌*◌, ◌%◌, ◌^◌, ◌≡◌, ◌<◌, ap, ◌∙◌, arith, mul32, bit_or-disjoint}
use optimsoc.Control.{extract}
use optimsoc.MpSimple.{class_num, class_of, set_field, ready_request}

class_set :
    (tile : ℕ)
    → tile < 32
    → set_field (mul32 tile (2 ^ 27)) (class_num - 1) 26 24 ≡ tile * 2 ^ 27 + 7 * 2 ^ 24
class_set tile ht =
    let base : mul32 tile (2 ^ 27) - extract (mul32 tile (2 ^ 27)) 26 24 * 2 ^ 24 ≡ tile * 2 ^ 27 =
      omega arith in
    ap (λ x. bit_or x 117440512) base ∙ bit_or-disjoint 27 tile 117440512 (omega arith)

src_set :
    (tile tileid : ℕ)
    → tile < 32
    → tileid < 32
    → set_field (tile * 2 ^ 27 + 7 * 2 ^ 24) tileid 23 19
      ≡ tile * 2 ^ 27 + 7 * 2 ^ 24 + tileid * 2 ^ 19
src_set tile tileid ht hi =
    let base : tile * 2 ^ 27 + 7 * 2 ^ 24 - extract (tile * 2 ^ 27 + 7 * 2 ^ 24) 23 19 * 2 ^ 19
        ≡ (tile * 8 + 7) * 2 ^ 24 =
      omega arith in
    ap (λ x. bit_or x (tileid % 2 ^ 5 * 2 ^ 19)) base
    ∙ bit_or-disjoint 24 (tile * 8 + 7) (tileid % 2 ^ 5 * 2 ^ 19) (omega arith)
    ∙ omega arith

endpoint_set :
    (tile tileid endpoint : ℕ)
    → tile < 32
    → tileid < 32
    → endpoint < 256
    → set_field (tile * 2 ^ 27 + 7 * 2 ^ 24 + tileid * 2 ^ 19) (endpoint % 2 ^ 8) 9 2
      ≡ tile * 2 ^ 27 + 7 * 2 ^ 24 + tileid * 2 ^ 19 + endpoint * 2 ^ 2
endpoint_set tile tileid endpoint ht hi he =
    let x = tile * 2 ^ 27 + 7 * 2 ^ 24 + tileid * 2 ^ 19 in
    let base : x - extract x 9 2 * 2 ^ 2 ≡ (tile * 256 + 224 + tileid) * 2 ^ 19 = omega arith in
    ap (λ y. bit_or y (endpoint % 2 ^ 8 % 2 ^ 8 * 2 ^ 2)) base
    ∙ bit_or-disjoint 19 (tile * 256 + 224 + tileid) (endpoint % 2 ^ 8 % 2 ^ 8 * 2 ^ 2)
        (omega arith)
    ∙ omega arith

ready_request_lem :
    (tile tileid endpoint : ℕ)
    → tile < 32
    → tileid < 32
    → endpoint < 256
    → ready_request tile tileid endpoint
      ≡ tile * 2 ^ 27 + 7 * 2 ^ 24 + tileid * 2 ^ 19 + endpoint * 2 ^ 2
unfolding ready_request
ready_request_lem tile tileid endpoint ht hi he =
    ap (λ x. set_field (set_field x tileid 23 19) (endpoint % 2 ^ 8) 9 2) (class_set tile ht)
    ∙ ap (λ x. set_field x (endpoint % 2 ^ 8) 9 2) (src_set tile tileid ht hi)
    ∙ endpoint_set tile tileid endpoint ht hi he

-- A request for the ready state goes to the tile, has the last class, and says which tile asks and for
-- which endpoint, where tiles are below 32 and endpoints below 256.
pub ready_request_fields :
    (tile tileid endpoint : ℕ)
    → tile < 32
    → tileid < 32
    → endpoint < 256
    → (extract (ready_request tile tileid endpoint) 31 27 ≡ tile)
      × (class_of (ready_request tile tileid endpoint) ≡ class_num - 1)
      × (extract (ready_request tile tileid endpoint) 23 19 ≡ tileid)
      × (extract (ready_request tile tileid endpoint) 9 2 ≡ endpoint)
ready_request_fields tile tileid endpoint ht hi he =
    omega (arith, ready_request_lem tile tileid endpoint ht hi he)
