-- ===== src/Sender/Packets.antt =====
-- What a data packet of libmp/control.c carries: its four header words, then a run of the message.
use optimsoc.Prelude.{
  ℕ, suc, ◌+◌, true, false, ◌≡◌, ◌≤◌, ◌<◌, refl, ap, ◌∙◌, List, [], ◌∷◌, some, arith, ltb, length,
  take, drop, get_elem?, length-take, length-drop, get_elem?-take, get_elem?-drop, done,
}
use optimsoc.Endpoint.Copy.{Copied, copy_loop-Copied}
use optimsoc.Control.{Tile, Packet, send, fill}
use optimsoc.Sender.{wordsperpacket, chunk, data_loop, data_packet}

front :
    (xs : List ℕ) {a b c d : ℕ}
    → get_elem? xs 0 ≡ some a
    → get_elem? xs 1 ≡ some b
    → get_elem? xs 2 ≡ some c
    → get_elem? xs 3 ≡ some d
    → xs ≡ a ∷ b ∷ c ∷ d ∷ drop 4 xs
front [] p q r s = absurd (cc)
front (x ∷ []) p q r s = absurd (cc)
front (x ∷ y ∷ []) p q r s = absurd (cc)
front (x ∷ y ∷ z ∷ []) p q r s = absurd (cc)
front (x ∷ y ∷ z ∷ w ∷ rest) p q r s = cc

-- The words of the memory from word `i` on.
pub record Payload (memory : List ℕ) (i sz : ℕ) (payload : List ℕ) : Type 0 where
  pub count : length payload ≡ sz
  pub word : (k : ℕ) → k < sz → get_elem? payload k ≡ get_elem? memory (i + k)

module _ (a b c d : ℕ) where
  pub fill-front :
      (x y z w : ℕ) (rest : List ℕ)
      → fill 0 (a ∷ b ∷ c ∷ d ∷ []) (x ∷ y ∷ z ∷ w ∷ rest) ≡ done (a ∷ b ∷ c ∷ d ∷ rest)
  unfolding fill
  fill-front x y z w rest = ground arith

  pub send-front :
      (fifo sz : ℕ) (rest : List ℕ)
      → sz ≤ length rest
      → send fifo (4 + sz) (a ∷ b ∷ c ∷ d ∷ rest)
        ≡ done (record { fifo = fifo; flits = a ∷ b ∷ c ∷ d ∷ take sz rest })
  unfolding send
  send-front fifo sz rest h =
      let four : 4 + sz ≡ suc (suc (suc (suc sz))) = omega arith in
      let fits : ltb (suc (suc (suc (suc (length rest))))) (suc (suc (suc (suc sz)))) ≡ false =
        ground arith in
      rw (four, fits)

  -- Behind the four header words of the copied buffer stands the run of the memory.
  Copied-front :
      (memory : List ℕ) (i sz : ℕ) (rest out : List ℕ)
      → sz ≤ length rest
      → Copied memory i (a ∷ b ∷ c ∷ d ∷ rest) 4 0 sz out
      → (out ≡ a ∷ b ∷ c ∷ d ∷ drop 4 out)
        × (length (drop 4 out) ≡ length rest)
        × Payload memory i sz (take sz (drop 4 out))
  Copied-front memory i sz rest out h c =
      let long : length (drop 4 out) ≡ length rest =
        omega (arith, length-drop 4 out, c.same_length) in
      (
        front out (ground (arith, c.word_at 0)) (ground (arith, c.word_at 1))
            (ground (arith, c.word_at 2)) (ground (arith, c.word_at 3)),
        long,
        record {
          count = length-take sz (drop 4 out) (omega arith);
          word = λ k hk.
              ground (
                arith,
                get_elem?-take sz (drop 4 out) k,
                get_elem?-drop 4 out k,
                c.word_at (4 + k),
              );
        },
      )

  module _ (memory : List ℕ) (i sz : ℕ) (room : i + sz ≤ length memory) where
    data_packet_from :
        (x y z w : ℕ) (rest : List ℕ) (t : Tile)
        → t.request ≡ x ∷ y ∷ z ∷ w ∷ rest
        → sz ≤ length rest
        → (out : List ℕ) × (payload : List ℕ) × (data_packet (a ∷ b ∷ c ∷ d ∷ []) memory i sz t
            ≡ done
                (record t { request = out }, record { fifo = 0; flits = a ∷ b ∷ c ∷ d ∷ payload }))
          × (length out ≡ length t.request)
          × Payload memory i sz payload
    unfolding data_packet
    data_packet_from x y z w rest t e h =
        let (out, run, same) =
          copy_loop-Copied memory (λ j. i + j) (λ j. 4 + j) i 4 (a ∷ b ∷ c ∷ d ∷ rest) 0 sz
            (λ j h. refl) (λ j h. refl) (omega arith) (omega arith) in
        let (shape, long, payload) = Copied-front memory i sz rest out h same in
        let sent = ap (send 0 (4 + sz)) shape ∙ send-front 0 sz (drop 4 out) (omega arith) in
        (
          out,
          take sz (drop 4 out),
          rw (e, fill-front x y z w rest, run, sent),
          omega (arith, same.same_length, ap (length {A = ℕ}) e),
          payload,
        )

    -- A data packet is its header words and the run of the memory, if the request buffer has room.
    pub data_packet_lem :
        (t : Tile)
        → 4 + sz ≤ length t.request
        → (out : List ℕ) × (payload : List ℕ) × (data_packet (a ∷ b ∷ c ∷ d ∷ []) memory i sz t
            ≡ done
                (record t { request = out }, record { fifo = 0; flits = a ∷ b ∷ c ∷ d ∷ payload }))
          × (length out ≡ length t.request)
          × Payload memory i sz payload
    data_packet_lem t h = go t.request refl
      where
        go :
            (xs : List ℕ)
            → t.request ≡ xs
            → (out : List ℕ) × (payload : List ℕ) × (data_packet (a ∷ b ∷ c ∷ d ∷ []) memory i sz t
                ≡ done (
                  record t { request = out },
                  record { fifo = 0; flits = a ∷ b ∷ c ∷ d ∷ payload },
                ))
              × (length out ≡ length t.request)
              × Payload memory i sz payload
        go [] e = absurd (omega (arith, ap (length {A = ℕ}) e))
        go (x ∷ []) e = absurd (omega (arith, ap (length {A = ℕ}) e))
        go (x ∷ y ∷ []) e = absurd (omega (arith, ap (length {A = ℕ}) e))
        go (x ∷ y ∷ z ∷ []) e = absurd (omega (arith, ap (length {A = ℕ}) e))
        go (x ∷ y ∷ z ∷ w ∷ rest) e =
            data_packet_from x y z w rest t e (omega (arith, ap (length {A = ℕ}) e))

module _ (head : ℕ → List ℕ) (memory : List ℕ) (words : ℕ) where
  pub data_loop-stop :
      (rounds i : ℕ) (t : Tile)
      → words ≤ i
      → data_loop head memory words (suc rounds) i t ≡ done (t, [])
  unfolding data_loop
  data_loop-stop rounds i t h = let stop : ltb i words ≡ false = ground arith in rw stop

  pub data_loop-step :
      (rounds i : ℕ) (t : Tile) {t' t'' : Tile} {packet : Packet} {packets : List Packet}
      → i < words
      → data_packet (head i) memory i (chunk words i) t ≡ done (t', packet)
      → data_loop head memory words rounds (i + wordsperpacket) t' ≡ done (t'', packets)
      → data_loop head memory words (suc rounds) i t ≡ done (t'', packet ∷ packets)
  unfolding data_loop
  data_loop-step rounds i t h one more =
      let go : ltb i words ≡ true = ground arith in rw (go, one, more)
