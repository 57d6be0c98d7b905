-- ===== src/Control/Header.antt =====
-- The header flit: the four fields do not overlap, and the receiver reads back what was sent.
use optimsoc.Prelude.{ℕ, ◌+◌, ◌*◌, ◌^◌, ◌≡◌, ◌<◌, arith, bit_or-disjoint}
use optimsoc.Control.{header, noc_class_mp, extract, src_of, request_of}

-- The destination, which routes the packet, and the class, which selects the handler.
abbrev pub dest_of : ℕ → ℕ
dest_of flit = extract flit 31 27

abbrev pub class_of : ℕ → ℕ
class_of flit = extract flit 26 24

pub header_lem :
    (dest src request : ℕ)
    → dest < 32
    → src < 32
    → request < 16
    → header dest src request ≡ dest * 2 ^ 27 + 2 * 2 ^ 24 + src * 2 ^ 19 + request * 2 ^ 15
unfolding header
header_lem dest src request hd hs hr = ground (
  arith,
  bit_or-disjoint 27 dest (2 * 2 ^ 24),
  bit_or-disjoint 24 (dest * 8 + 2) (src * 2 ^ 19),
  bit_or-disjoint 19 (dest * 256 + 64 + src) (request * 2 ^ 15),
)

-- Any tile number below 32 and any request below 16 survive the trip: the network routes the packet
-- to the destination, hands it to the message passing class, and the handler reads the sender and
-- the request.
pub header_fields :
    (dest src request : ℕ)
    → dest < 32
    → src < 32
    → request < 16
    → (dest_of (header dest src request) ≡ dest)
      × (class_of (header dest src request) ≡ noc_class_mp)
      × (src_of (header dest src request) ≡ src)
      × (request_of (header dest src request) ≡ request)
header_fields dest src request hd hs hr = omega (arith, header_lem dest src request hd hs hr)
