-- ===== src/Transfer/Queue.antt =====
-- `optimsoc_mp_msg_send` from one tile to another: the message queues behind those that wait at the
-- receiving endpoint.
use optimsoc.Prelude.{
  ℕ, ◌+◌, ◌*◌, ◌≡◌, ◌≢◌, ◌≤◌, ◌<◌, ◌∙◌, false, some, List, [], ◌∷◌, ◌++◌, arith, length,
  length-drop, done, min,
}
use optimsoc.Sync.{Cas}
use optimsoc.Endpoint.{Endpoint, full, max_size}
use optimsoc.Endpoint.Inv.{IsValid}
use optimsoc.Endpoint.Fifo.{Queued, Appended-IsValid, Queued-append}
use optimsoc.Registry.{Handle}
use optimsoc.Control.{
  Tile, Packet, header, src_of, put_endpoint, msg_alloc_req, msg_alloc_resp, ack,
}
use optimsoc.Control.Header.{header_fields}
use optimsoc.Sender.{wordsperpacket, msg_alloc, send_msg_data}
use optimsoc.Mp.{msg_send}
use optimsoc.Transfer.{deliver}
use optimsoc.Transfer.Data.{deliver-one}
use optimsoc.Transfer.Alloc.{answered, ask_lem, granted, grant_lem}
use optimsoc.Transfer.Message.{update_self, update_other}
use optimsoc.Transfer.Arrive.{granted-IsValid, filled-Appended, data-arrives}

-- The tile has an endpoint at `p` that holds the messages `ms`, and every other endpoint of `t0`.
pub record Holding (words p : ℕ) (t0 t : Tile) (ms : List (List ℕ)) : Type 0 where
  pub ep : Endpoint
  pub at : t.endpoints p ≡ some ep
  pub valid : IsValid words ep.buffer
  pub queued : Queued words ep.buffer ms
  pub others : (q : ℕ) → q ≢ p → t.endpoints q ≡ t0.endpoints q

-- The sender's side of the allocation, answered at once by a grant.
msg_alloc-granted :
    (to : Handle) (size flit ptr d e : ℕ) (rest : List ℕ) (more : List (List ℕ)) (s : Tile)
    → 5 ≤ length s.request
    → msg_alloc to size ((flit ∷ ack ∷ ptr ∷ d ∷ e ∷ rest) ∷ more) s
      ≡ done (
        ptr,
        answered s flit ack ptr d e,
        record { fifo = 0; flits = header to.domain s.tileid msg_alloc_req ∷ to.ep ∷ size ∷ [] }
            ∷ [],
      )
unfolding msg_alloc
msg_alloc-granted to size flit ptr d e rest more s h =
    rw (ask_lem (header to.domain s.tileid msg_alloc_req) to.ep size flit ack ptr d e rest s h)

msg_send-run :
    (to : Handle) (memory : List ℕ) (size : ℕ) (answers : List (List ℕ)) (ptr : ℕ) (s s1 s' : Tile)
    (asked packets : List Packet)
    → msg_alloc to size answers s ≡ done (ptr, s1, asked)
    → send_msg_data to ptr memory size s1 ≡ done (s', packets)
    → msg_send to memory size answers s ≡ done (s', asked ++ packets)
unfolding msg_send
msg_send-run to memory size answers ptr s s1 s' asked packets h k = rw (h, k)

module _ ⦃cpu : Cas⦄ (fuel : ℕ) (stale : List ℕ) (words : ℕ) (m : List ℕ) (ms : List (List ℕ))
    (to : Handle) (s t : Tile) (d e : ℕ) (behind : List ℕ) where
  -- `optimsoc_mp_msg_send` at `s` and the handler at `t`, packet by packet: the request `first`, its
  -- answer `reply`, which `s` finds in its receive buffer in front of `d`, `e` and `behind`, and
  -- the packets of the message.
  pub record Exchanged : Type 0 where
    pub first : Packet
    pub reply : List ℕ
    pub packets : List Packet
    pub s' : Tile
    pub t1 : Tile
    pub t2 : Tile
    pub asked :
        deliver fuel stale (first ∷ []) t ≡ done (t1, record { fifo = 1; flits = reply } ∷ [])
    pub sent :
        msg_send to m (4 * length m) ((reply ++ (d ∷ e ∷ behind)) ∷ []) s
        ≡ done (s', first ∷ packets)
    pub delivered : deliver fuel stale packets t1 ≡ done (t2, [])
    pub holding : Holding words to.ep t t2 (ms ++ (m ∷ []))

  -- A message of one word or more that fits a slot, the size limit and the request buffer is sent
  -- to an endpoint that is not full: it ends up there complete, behind the messages that waited,
  -- which are unharmed, and no other endpoint changes.
  pub msg_send-queues :
      {ep : Endpoint}
      → to.ep ≢ 0
      → to.domain < 32
      → s.tileid < 32
      → 5 ≤ length s.request
      → 4 + min wordsperpacket (length m) ≤ length s.request
      → t.endpoints to.ep ≡ some ep
      → IsValid words ep.buffer
      → Queued words ep.buffer ms
      → full ep.buffer ≡ false
      → 0 < length m
      → length m ≤ words
      → 4 * length m ≤ max_size ep.buffer.buffer_type
      → Exchanged
  msg_send-queues {ep} some_ep hd hs five cap_le at v q room pos fits short =
      let flit = header to.domain s.tileid msg_alloc_req in
      let b = ep.buffer in
      let ep1 : Endpoint = record ep { buffer = granted fuel to.ep t some_ep at v } in
      let t1 = put_endpoint t to.ep ep1 in
      let answer = header (src_of flit) t.tileid msg_alloc_resp in
      let s1 = answered s answer ack b.write_ptr d e in
      let a =
        data-arrives fuel stale words m to t1 ep1 b.write_ptr (granted-IsValid v) some_ep v.write_in
          fits (update_self t.endpoints to.ep (some ep1)) s1 hd hs
          (omega (arith, length-drop 5 s.request)) in
      let appended = filled-Appended v fits a.copied in
      record {
        first = record { fifo = 0; flits = flit ∷ to.ep ∷ (4 * length m) ∷ [] };
        reply = answer ∷ ack ∷ b.write_ptr ∷ [];
        packets = a.packets;
        s' = a.s';
        t1 = t1;
        t2 = a.t';
        asked = deliver-one fuel stale _ t t1 _ (
            grant_lem fuel to.ep t some_ep at v flit (4 * length m) stale
              (header_fields to.domain s.tileid msg_alloc_req hd hs (omega arith)).3 short room);
        sent =
            msg_send-run to m (4 * length m) _ b.write_ptr s s1 _ _ _
              (msg_alloc-granted to (4 * length m) answer b.write_ptr d e behind [] s five) a.sent;
        delivered = a.delivered;
        holding = record {
          ep = _;
          at = a.at;
          valid = Appended-IsValid v appended;
          queued = Queued-append v appended ms pos fits room q;
          others = λ p ne. a.others p ne ∙ update_other t.endpoints to.ep p (some ep1) ne;
        };
      }
