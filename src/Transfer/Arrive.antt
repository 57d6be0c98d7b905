-- ===== src/Transfer/Arrive.antt =====
-- The data of a message and its completion (control_msg_data) on their way to the receiving endpoint.
use optimsoc.Prelude.{
  ℕ, suc, ◌+◌, ◌-◌, ◌*◌, ◌%◌, ◌^◌, ◌≡◌, ◌≢◌, ◌≤◌, ◌<◌, refl, ap, ◌∙◌, false, true, some, List, [],
  ◌∷◌, ◌++◌, arith, ltb, leb, ◌==◌, ◌&&◌, length, drop, set, get_elem?, length-set, get_elem?-set,
  done, min,
}
use optimsoc.Sync.{Cas}
use optimsoc.Endpoint.{Endpoint, Buffer, advance, words_of}
use optimsoc.Endpoint.Inv.{IsValid, advance-lt}
use optimsoc.Endpoint.Copy.{Copied}
use optimsoc.Endpoint.Message.{slot-room, slot-apart}
use optimsoc.Endpoint.Fifo.{Appended}
use optimsoc.Registry.{Handle}
use optimsoc.Control.{Tile, Packet, header, put_endpoint, msg_data, msg_complete}
use optimsoc.Control.Header.{header_fields}
use optimsoc.Sender.{wordsperpacket, request, send_msg_data, data_loop}
use optimsoc.Sender.Packets.{fill-front, send-front}
use optimsoc.Transfer.{deliver}
use optimsoc.Transfer.Data.{deliver-nil, deliver-quiet, msg_complete_lem}
use optimsoc.Transfer.Message.{
  Filled, Filled-start, Sent-loop, update_self, update_other, filled-IsValid,
}

pub granted-IsValid :
    {words : ℕ} {b : Buffer}
    → IsValid words b
    → IsValid words (record b {
      data_size = set b.data_size b.write_ptr 0;
      write_ptr = advance b.size b.write_ptr;
    })
granted-IsValid {b} v = record {
  small = v.small;
  read_in = v.read_in;
  write_in = advance-lt b.size b.write_ptr v.small v.write_in;
  sizes = length-set b.data_size b.write_ptr 0 ∙ v.sizes;
  slots = v.slots;
  room = v.room;
  area_small = v.area_small;
}

outside :
    (w j words k len : ℕ)
    → j ≢ w
    → k < words
    → len ≤ words
    → (leb (w * words + 0) (j * words + k) && ltb (j * words + k) (w * words + 0 + len)) ≡ false
outside w j words k len ne hk h =
    ground (arith, slot-apart j w words k (j * words + k - w * words) ne hk)

inside : (d k : ℕ) → 0 + (d + k - d) ≡ k
inside d k = omega arith

-- The allocation, the data and the completion together append the message.
pub filled-Appended :
    {words : ℕ} {b : Buffer} {m area : List ℕ}
    → IsValid words b
    → length m ≤ words
    → Copied m 0 b.field (b.write_ptr * words) 0 (length m) area
    → Appended words b m (record b {
      field = area;
      data_size = set (set b.data_size b.write_ptr 0) b.write_ptr (4 * length m);
      write_ptr = advance b.size b.write_ptr;
    })
filled-Appended {words} {b} {m} {area} v fits c = record {
  same_slots = refl;
  same_type = refl;
  same_size = refl;
  same_read = refl;
  moved = refl;
  same_count =
      length-set (set b.data_size b.write_ptr 0) b.write_ptr (4 * length m)
      ∙ length-set b.data_size b.write_ptr 0;
  same_room = c.same_length;
  size_at = λ j. ground (
    arith,
    get_elem?-set (set b.data_size b.write_ptr 0) b.write_ptr j (4 * length m),
    get_elem?-set b.data_size b.write_ptr j 0,
    length-set b.data_size b.write_ptr 0,
    v.sizes,
    v.write_in,
  );
  kept = λ j k ne hk.
      ground
        (arith, c.word_at (j * words + k), outside b.write_ptr j words k (length m) ne hk fits);
  holds = λ k hk. ground (
    arith,
    c.word_at (b.write_ptr * words + k),
    ap (get_elem? m) (inside (b.write_ptr * words) k),
  );
}

-- The four words of the completing packet.
request_from :
    (a b c d : ℕ) (t : Tile) (r : List ℕ)
    → t.request ≡ r
    → 4 ≤ length r
    → request (a ∷ b ∷ c ∷ d ∷ []) 4 t
      ≡ done (
        record t { request = a ∷ b ∷ c ∷ d ∷ drop 4 r },
        record { fifo = 0; flits = a ∷ b ∷ c ∷ d ∷ [] },
      )
unfolding request
request_from a b c d t [] e h = absurd (omega arith)
request_from a b c d t (x ∷ []) e h = absurd (omega arith)
request_from a b c d t (x ∷ y ∷ []) e h = absurd (omega arith)
request_from a b c d t (x ∷ y ∷ z ∷ []) e h = absurd (omega arith)
request_from a b c d t (x ∷ y ∷ z ∷ w ∷ r) e h =
    rw (e, fill-front a b c d x y z w r, send-front a b c d 0 0 r (omega arith))

send-run :
    (to : Handle) (ptr : ℕ) (m : List ℕ) (s s' s'' : Tile) (packets : List Packet) (last : Packet)
    → length m < 2 ^ 30
    → data_loop
        (λ i. header to.domain s.tileid msg_data ∷ to.ep ∷ ptr ∷ i ∷ [])
        m
        (length m)
        (suc (length m))
        0
        s
      ≡ done (s', packets)
    → request (header to.domain s.tileid msg_complete ∷ to.ep ∷ ptr ∷ (4 * length m) ∷ []) 4 s'
      ≡ done (s'', last)
    → send_msg_data to ptr m (4 * length m) s ≡ done (s'', packets ++ (last ∷ []))
unfolding send_msg_data
send-run to ptr m s s' s'' packets last small loop final =
    let whole : (4 * length m % 4 == 0) ≡ true = ground arith in
    let count : words_of (4 * length m) ≡ length m = omega arith in rw (whole, count, loop, final)

module _ ⦃cpu : Cas⦄ (fuel : ℕ) (stale : List ℕ) (words : ℕ) (m : List ℕ) (to : Handle) (t0 : Tile)
    (ep : Endpoint) (ptr : ℕ) where
  -- `control_msg_data` ran at the sender `s`, and its packets went to the receiver.
  pub record Arrived (s : Tile) : Type 0 where
    pub s' : Tile
    pub packets : List Packet
    pub t' : Tile
    pub area : List ℕ
    pub sent : send_msg_data to ptr m (4 * length m) s ≡ done (s', packets)
    pub delivered : deliver fuel stale packets t0 ≡ done (t', [])
    pub at :
        t'.endpoints to.ep
        ≡ some (record ep {
          buffer = record ep.buffer {
            field = area;
            data_size = set ep.buffer.data_size ptr (4 * length m);
          };
        })
    pub copied : Copied m 0 ep.buffer.field (ptr * words) 0 (length m) area
    pub others : (q : ℕ) → q ≢ to.ep → t'.endpoints q ≡ t0.endpoints q

  module _ (v : IsValid words ep.buffer) (some_ep : to.ep ≢ 0) (slot : ptr < ep.buffer.size)
      (fits : length m ≤ words) (at : t0.endpoints to.ep ≡ some ep) where
    small : length m < 2 ^ 30
    small = omega (arith, slot-room ptr ep.buffer.size words slot, v.area_small)

    -- The completing packet, after the data.
    complete :
        (s : Tile) (out : List ℕ) (packets : List Packet) (t : Tile)
        → to.domain < 32
        → s.tileid < 32
        → 4 ≤ length out
        → data_loop
            (λ i. header to.domain s.tileid msg_data ∷ to.ep ∷ ptr ∷ i ∷ [])
            m
            (length m)
            (suc (length m))
            0
            s
          ≡ done (record s { request = out }, packets)
        → ((rest : List Packet)
            → deliver fuel stale (packets ++ rest) t0 ≡ deliver fuel stale rest t)
        → Filled to.ep ptr words t0 ep m (length m) t
        → Arrived s
    complete s out packets t hd hs room loop arrive f =
        let flit = header to.domain s.tileid msg_complete in
        let last : Packet = record { fifo = 0; flits = flit ∷ to.ep ∷ ptr ∷ (4 * length m) ∷ [] } in
        let ep' = record ep {
          buffer = record ep.buffer {
            field = f.area;
            data_size = set ep.buffer.data_size ptr (4 * length m);
          };
        } in
        let run =
          msg_complete_lem fuel to.ep ptr t some_ep f.at
            (filled-IsValid f.area v f.written.same_length) slot flit (4 * length m) stale
            (header_fields to.domain s.tileid msg_complete hd hs (omega arith)).3 in
        record {
          s' = record s { request = flit ∷ to.ep ∷ ptr ∷ (4 * length m) ∷ drop 4 out };
          packets = packets ++ (last ∷ []);
          t' = put_endpoint t to.ep ep';
          area = f.area;
          sent =
              send-run to ptr m s (record s { request = out }) _ packets last small loop
                (request_from flit to.ep ptr (4 * length m) (record s { request = out }) out refl
                  room);
          delivered =
              arrive (last ∷ [])
              ∙ deliver-quiet fuel stale last [] t (put_endpoint t to.ep ep') run
              ∙ deliver-nil fuel stale (put_endpoint t to.ep ep');
          at = update_self t.endpoints to.ep (some ep');
          copied = f.written;
          others = λ q ne. update_other t.endpoints to.ep q (some ep') ne ∙ f.others q ne;
        }

    pub data-arrives :
        (s : Tile)
        → to.domain < 32
        → s.tileid < 32
        → 4 + min wordsperpacket (length m) ≤ length s.request
        → Arrived s
    data-arrives s hd hs cap_le =
        let flit = header to.domain s.tileid msg_data in
        let sent =
          Sent-loop fuel stale to.ep ptr words t0 ep m flit v some_ep slot fits
            (header_fields to.domain s.tileid msg_data hd hs (omega arith)).3 (length m) 0 s t0
            (omega arith) cap_le (Filled-start to.ep ptr words t0 ep m at) in
        complete s sent.out sent.packets sent.t' hd hs (omega (arith, sent.long)) sent.loop
          sent.arrive sent.whole
