-- ===== src/MpSimple/Receive.antt =====
-- The receive loop of `_irq_handler` on the words that `optimsoc_mp_simple_send` writes.
use optimsoc.Prelude.{
  get_elem?, some, ℕ, zero, suc, ◌+◌, ◌-◌, ◌/◌, ◌%◌, ◌^◌, ◌≡◌, ◌≢◌, ◌≤◌, ◌<◌, refl, ap, ◌∙◌, Bool,
  true, false, List, [], ◌∷◌, ◌++◌, map, arith, ltb, ◌==◌, length, set, length-set, take, done,
}
use optimsoc.Sender.{maxpacketsize}
use optimsoc.MpSimple.{
  Call, Driver, class_num, class_of, fill_packet, drain, dispatch_packet, receive, receive_all,
  irq_handler,
}

-- The words in a receive register: each packet behind its size.
abbrev pub framed : List (List ℕ) → List ℕ
framed [] = []
framed (p ∷ ps) = length p ∷ p ++ framed ps

-- What a call hands over: the first words of the buffer.
abbrev pub handed : Call → List ℕ
handed c = take c.size c.buffer

-- The class of a packet: bits 26 to 24 of its first word.
abbrev pub class_in : List ℕ → ℕ
class_in [] = 0
class_in (w ∷ ws) = w / 2 ^ 24 % 2 ^ 3

-- A packet that is not empty, fits the buffer, and has a handler. Class 7 is the driver's own.
abbrev pub Accepted : (registered : ℕ → Bool) → List ℕ → Type 0
Accepted registered p =
    (p ≢ []) × (length p ≤ maxpacketsize) × (class_in p ≢ 7) × (registered (class_in p) ≡ true)

abbrev pub AllAccepted : (registered : ℕ → Bool) → List (List ℕ) → Type 0
AllAccepted registered [] = Unit
AllAccepted registered (p ∷ ps) = Accepted registered p × AllAccepted registered ps

-- The buffer with the words of a packet from index `i` on.
abbrev overwrite : (i : ℕ) (words buffer : List ℕ) → List ℕ
overwrite i [] buffer = buffer
overwrite i (w ∷ ws) buffer = overwrite (suc i) ws (set buffer i w)

overwrite-suc :
    (i : ℕ) (ws : List ℕ) (x : ℕ) (xs : List ℕ)
    → overwrite (suc i) ws (x ∷ xs) ≡ x ∷ overwrite i ws xs
overwrite-suc i [] x xs = refl
overwrite-suc i (w ∷ ws) x xs = overwrite-suc (suc i) ws x (set xs i w)

length-overwrite : (i : ℕ) (ws buffer : List ℕ) → length (overwrite i ws buffer) ≡ length buffer
length-overwrite i [] buffer = refl
length-overwrite i (w ∷ ws) buffer =
    length-overwrite (suc i) ws (set buffer i w) ∙ length-set buffer i w

take-overwrite :
    (ws buffer : List ℕ) → length ws ≤ length buffer → take (length ws) (overwrite 0 ws buffer) ≡ ws
take-overwrite [] buffer h = refl
take-overwrite (w ∷ ws) [] h = absurd (omega arith)
take-overwrite (w ∷ ws) (x ∷ xs) h =
    rw (overwrite-suc 0 ws w xs) (ap (λ (t : List ℕ). w ∷ t) (take-overwrite ws xs (omega arith)))

fill_packet_lem :
    (i : ℕ) (ws rest buffer : List ℕ)
    → i + length ws ≤ length buffer
    → fill_packet i (length ws) (ws ++ rest) buffer ≡ done (overwrite i ws buffer, rest)
unfolding fill_packet
fill_packet_lem i [] rest buffer h = refl
fill_packet_lem i (w ∷ ws) rest buffer h =
    let room : ltb i (length buffer) ≡ true = ground arith in
    rw (room)
      (fill_packet_lem (suc i) ws rest (set buffer i w) (omega (arith, length-set buffer i w)))

take-head :
    (xs : List ℕ) (n w : ℕ) (ws : List ℕ) → take (suc n) xs ≡ w ∷ ws → get_elem? xs 0 ≡ some w
take-head [] n w ws e = absurd (cc)
take-head (x ∷ xs) n w ws e = cc

receive-empty : (d : Driver) → d.fifos ≡ [] ∷ [] → receive 0 d ≡ done (true, d, [])
unfolding receive
receive-empty d e = rw e refl

-- One packet: the handler is called with it, and it is gone from the register.
receive_lem :
    (d : Driver) (w : ℕ) (ws : List ℕ) (ps : List (List ℕ))
    → d.fifos ≡ framed ((w ∷ ws) ∷ ps) ∷ []
    → length d.packet ≡ maxpacketsize
    → length (w ∷ ws) ≤ maxpacketsize
    → class_of w ≢ class_num - 1
    → d.registered (class_of w) ≡ true
    → (packet : List ℕ) × (receive 0 d
        ≡ done (
          false,
          record d { packet = packet; fifos = framed ps ∷ [] },
          record { class = class_of w; buffer = packet; size = length (w ∷ ws) } ∷ [],
        ))
      × (length packet ≡ maxpacketsize)
      × (take (length (w ∷ ws)) packet ≡ w ∷ ws)
unfolding receive dispatch_packet
receive_lem d w ws ps e long short other known =
    let packet = overwrite 0 (w ∷ ws) d.packet in
    let front = take-overwrite (w ∷ ws) d.packet (omega arith) in
    let some_words : (suc (length ws) == 0) ≡ false = ground arith in
    let fits : ltb maxpacketsize (suc (length ws)) ≡ false = ground arith in
    let usual : (class_of w == class_num - 1) ≡ false = ground arith in
    (
      packet,
      rw
          (
            e,
            some_words,
            fits,
            fill_packet_lem 0 (w ∷ ws) (framed ps) d.packet (omega arith),
            take-head packet (length ws) w ws front,
            usual,
            known,
          )
          refl,
      length-overwrite 0 (w ∷ ws) d.packet ∙ long,
      front,
    )

-- With one endpoint, whose register holds packets that are not empty, fit the buffer and have a
-- handler for their class, which is not 7, the interrupt handler calls for each packet, in their
-- order, the handler of its class with its words and their number, and ends with the register empty.
-- It makes one round for each packet and a last one.
pub irq_handler_lem :
    (ps : List (List ℕ)) (fuel : ℕ) (d : Driver)
    → d.fifos ≡ framed ps ∷ []
    → length d.packet ≡ maxpacketsize
    → AllAccepted d.registered ps
    → length ps < fuel
    → (d' : Driver) × (calls : List Call) × (irq_handler fuel 1 d ≡ done (d', calls))
      × (map handed calls ≡ ps)
      × (map (λ c. c.class) calls ≡ map class_in ps)
      × (map (λ c. c.size) calls ≡ map (length {A = ℕ}) ps)
      × (d'.fifos ≡ [] ∷ [])
unfolding irq_handler receive_all
irq_handler_lem ps zero d e long accepted enough = absurd (omega arith)
irq_handler_lem [] (suc fuel) d e long accepted enough =
    (d, [], rw (receive-empty d e) refl, refl, refl, refl, e)
irq_handler_lem ([] ∷ ps) (suc fuel) d e long ((some_words, _, _, _), accepted) enough =
    absurd (some_words refl)
irq_handler_lem ((w ∷ ws) ∷ ps) (suc fuel) d e long ((_, short, other, known), accepted) enough =
    let (packet, run, same, front) = receive_lem d w ws ps e long short other known in
    let d1 = record d { packet = packet; fifos = framed ps ∷ [] } in
    let (d', calls, more, delivered, classes, sizes, empty) =
      irq_handler_lem ps fuel d1 refl same accepted (omega arith) in
    (
      d',
      record { class = class_of w; buffer = packet; size = length (w ∷ ws) } ∷ calls,
      rw (run, more) refl,
      ap (λ (q : List ℕ). q ∷ map handed calls) front
          ∙ ap (λ (qs : List (List ℕ)). (w ∷ ws) ∷ qs) delivered,
      ap (λ (cs : List ℕ). class_in (w ∷ ws) ∷ cs) classes,
      ap (λ (ns : List ℕ). length (w ∷ ws) ∷ ns) sizes,
      empty,
    )

drain_lem : (ws rest : List ℕ) → drain (length ws) (ws ++ rest) ≡ rest
unfolding drain
drain_lem [] rest = refl
drain_lem (w ∷ ws) rest = drain_lem ws rest

-- A packet that does not fit the buffer: it is gone from the register, and the old content of the
-- buffer goes to its handler.
receive-too_large :
    (d : Driver) (big : List ℕ) (w : ℕ) (rest : List ℕ)
    → d.fifos ≡ (length big ∷ big ++ rest) ∷ []
    → maxpacketsize < length big
    → get_elem? d.packet 0 ≡ some w
    → class_of w ≢ class_num - 1
    → d.registered (class_of w) ≡ true
    → receive 0 d
      ≡ done (
        false,
        record d { fifos = rest ∷ [] },
        record { class = class_of w; buffer = d.packet; size = length big } ∷ [],
      )
unfolding receive dispatch_packet
receive-too_large d big w rest e large first other known =
    let some_words : (length big == 0) ≡ false = ground arith in
    let over : ltb maxpacketsize (length big) ≡ true = ground arith in
    let usual : (class_of w == class_num - 1) ≡ false = ground arith in
    rw (e, some_words, over, drain_lem big rest, first, usual, known) refl

-- With one endpoint, a packet of more than 32 words behind one that is accepted is not dropped: the
-- handler of the accepted packet is called for it once more, with the same buffer, which starts with the words of
-- the accepted packet, and the size of the large one. The accepted packets behind it are handed over
-- in order, and the register is empty at the end. The buffer has 32 words, and there is one round for each
-- packet and a last one. An accepted packet is not empty, fits the buffer and has a handler for its class, which
-- is not 7.
pub irq_handler-too_large :
    (p big : List ℕ) (ps : List (List ℕ)) (fuel : ℕ) (d : Driver)
    → d.fifos ≡ framed (p ∷ big ∷ ps) ∷ []
    → length d.packet ≡ 32
    → AllAccepted d.registered (p ∷ ps)
    → 32 < length big
    → length ps + 2 < fuel
    → (d' : Driver) × (packet : List ℕ) × (calls : List Call) × (irq_handler fuel 1 d
        ≡ done (
          d',
          record { class = class_in p; buffer = packet; size = length p }
              ∷ record { class = class_in p; buffer = packet; size = length big }
              ∷ calls,
        ))
      × (take (length p) packet ≡ p)
      × (map handed calls ≡ ps)
      × (d'.fifos ≡ [] ∷ [])
unfolding irq_handler receive_all
irq_handler-too_large p big ps zero d e long accepted large enough = absurd (omega arith)
irq_handler-too_large p big ps (suc zero) d e long accepted large enough = absurd (omega arith)
irq_handler-too_large [] big ps (suc (suc fuel)) d e long ((some_words, _, _, _), accepted) large
      enough =
    absurd (some_words refl)
irq_handler-too_large (w ∷ ws) big ps (suc (suc fuel)) d e long ((_, short, other, known), accepted)
      large enough =
    let (packet, run, same, front) = receive_lem d w ws (big ∷ ps) e long short other known in
    let d1 = record d { packet = packet; fifos = framed (big ∷ ps) ∷ [] } in
    let d2 = record d1 { fifos = framed ps ∷ [] } in
    let stale =
      receive-too_large d1 big w (framed ps) refl large (take-head packet (length ws) w ws front)
        other known in
    let (d', calls, more, delivered, classes, sizes, empty) =
      irq_handler_lem ps fuel d2 refl same accepted (omega arith) in
    (d', packet, calls, rw (run, stale, more) refl, front, delivered, empty)
