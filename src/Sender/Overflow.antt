-- ===== src/Sender/Overflow.antt =====
-- Messages with more words than the request buffer of libmp/control.h has room for.
use optimsoc.Prelude.{
  ℕ, zero, suc, ◌+◌, ◌%◌, ◌≡◌, ◌≤◌, ◌<◌, refl, ap, true, List, [], ◌∷◌, arith, ltb, ◌==◌, length,
  set, length-set, get_elem?_of_lt, fault, Bool-cases, inl, inr, ltb→lt,
}
use optimsoc.Endpoint.{copy_loop, words_of}
use optimsoc.Registry.{Handle}
use optimsoc.Control.{Tile, header, msg_data}
use optimsoc.Sender.{chunk, data_loop, data_packet, send_msg_data}
use optimsoc.Sender.Packets.{fill-front}

-- The copy writes behind the end of the buffer.
copy_loop-overflow :
    (memory : List ℕ) (i j n : ℕ) (buffer : List ℕ)
    → i + j + n ≤ length memory
    → 4 + j ≤ length buffer
    → length buffer < 4 + j + n
    → copy_loop memory (λ d. i + d) buffer (λ d. 4 + d) j n ≡ fault
unfolding copy_loop
copy_loop-overflow memory i j zero buffer a b c = absurd (omega arith)
copy_loop-overflow memory i j (suc n) buffer a b c =
    let (w, here) = get_elem?_of_lt memory (i + j) (omega arith) in
    elim (Bool-cases (ltb (4 + j) (length buffer))) [
      | inl room ↦
          rw
            (
              here,
              room,
              copy_loop-overflow memory i (suc j) n (set buffer (4 + j) w) (omega arith)
                  (omega (arith, ltb→lt (4 + j) (length buffer) room, length-set buffer (4 + j) w))
                  (omega (arith, length-set buffer (4 + j) w)),
            )
            refl
      | inr out ↦ rw (here, out) refl
    ]

data_packet-overflow :
    (a b c d : ℕ) (memory : List ℕ) (i sz x y z w : ℕ) (rest : List ℕ) (t : Tile)
    → t.request ≡ x ∷ y ∷ z ∷ w ∷ rest
    → i + sz ≤ length memory
    → length rest < sz
    → data_packet (a ∷ b ∷ c ∷ d ∷ []) memory i sz t ≡ fault
unfolding data_packet
data_packet-overflow a b c d memory i sz x y z w rest t e inside over =
    rw
      (
        e,
        fill-front a b c d x y z w rest,
        copy_loop-overflow memory i 0 sz (a ∷ b ∷ c ∷ d ∷ rest) (omega arith) (omega arith)
            (omega arith),
      )
      refl

from_front :
    (ep : Handle) (address : ℕ) (memory : List ℕ) (size : ℕ) (t : Tile) (x y z w : ℕ)
    (rest : List ℕ)
    → t.request ≡ x ∷ y ∷ z ∷ w ∷ rest
    → length t.request ≡ 16
    → size % 4 ≡ 0
    → 12 < words_of size
    → words_of size ≤ length memory
    → send_msg_data ep address memory size t ≡ fault
unfolding send_msg_data data_loop
from_front ep address memory size t x y z w rest e long aligned many inside =
    let even : (size % 4 == 0) ≡ true = ground arith in
    let go : ltb 0 (words_of size) ≡ true = ground arith in
    rw
      (
        even,
        go,
        data_packet-overflow (header ep.domain t.tileid msg_data) ep.ep address 0 memory 0
            (chunk (words_of size) 0) x y z w rest t e (ground (arith, inside))
            (ground (arith, ap (length {A = ℕ}) e, long, many)),
      )
      refl

-- Sending a message of more than 12 words (and whole words, all of them in the memory) writes behind
-- the end of the request buffer, which has 16 words, four of them for the header.
pub send_msg_data-overflow :
    (ep : Handle) (address : ℕ) (memory : List ℕ) (size : ℕ) (t : Tile)
    → length t.request ≡ 16
    → size % 4 ≡ 0
    → 12 < words_of size
    → words_of size ≤ length memory
    → send_msg_data ep address memory size t ≡ fault
send_msg_data-overflow ep address memory size t = go t.request refl
  where
    go :
        (xs : List ℕ)
        → t.request ≡ xs
        → length t.request ≡ 16
        → size % 4 ≡ 0
        → 12 < words_of size
        → words_of size ≤ length memory
        → send_msg_data ep address memory size t ≡ fault
    go (x ∷ y ∷ z ∷ w ∷ rest) e long = from_front ep address memory size t x y z w rest e long
    go [] e long = absurd (omega (arith, ap (length {A = ℕ}) e))
    go (x ∷ []) e long = absurd (omega (arith, ap (length {A = ℕ}) e))
    go (x ∷ y ∷ []) e long = absurd (omega (arith, ap (length {A = ℕ}) e))
    go (x ∷ y ∷ z ∷ []) e long = absurd (omega (arith, ap (length {A = ℕ}) e))
