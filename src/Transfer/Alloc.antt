-- ===== src/Transfer/Alloc.antt =====
-- The allocation of a slot: the request, the handler's answer, and what the sender makes of it.
use optimsoc.Prelude.{
  ℕ, ◌≡◌, ◌≢◌, ◌≤◌, refl, false, some, List, [], ◌∷◌, arith, ltb, length, drop, set, done,
}
use optimsoc.Sync.{Cas}
use optimsoc.Endpoint.{Endpoint, Buffer, advance, full, max_size}
use optimsoc.Endpoint.Inv.{IsValid}
use optimsoc.Endpoint.Message.{alloc_lem}
use optimsoc.Control.{
  Tile, header, request_of, src_of, send, fill, msg_handler, dispatch, handle_msg_alloc,
  handle_response, put_endpoint, msg_alloc_req, msg_alloc_resp, ack,
}
use optimsoc.Sender.{request, ask}
use optimsoc.Transfer.Data.{load-some}

-- The tile after an answer of five words.
abbrev pub answered : Tile → (a b c d e : ℕ) → Tile
answered t a b c d e = record t { request = a ∷ b ∷ c ∷ d ∷ e ∷ drop 5 t.request; request_done = 1 }

module _ (x y z a b c d e : ℕ) (rest : List ℕ) (t : Tile) where
  ask_from :
      (r : List ℕ)
      → t.request ≡ r
      → 5 ≤ length r
      → ask (x ∷ y ∷ z ∷ []) 3 (a ∷ b ∷ c ∷ d ∷ e ∷ rest) t
        ≡ done (answered t a b c d e, record { fifo = 0; flits = x ∷ y ∷ z ∷ [] })
  unfolding ask request fill send handle_response
  ask_from [] eq h = absurd (omega arith)
  ask_from (r1 ∷ []) eq h = absurd (omega arith)
  ask_from (r1 ∷ r2 ∷ []) eq h = absurd (omega arith)
  ask_from (r1 ∷ r2 ∷ r3 ∷ []) eq h = absurd (omega arith)
  ask_from (r1 ∷ r2 ∷ r3 ∷ r4 ∷ []) eq h = absurd (omega arith)
  ask_from (r1 ∷ r2 ∷ r3 ∷ r4 ∷ r5 ∷ r) eq h = rw eq (ground arith)

  pub ask_lem :
      5 ≤ length t.request
      → ask (x ∷ y ∷ z ∷ []) 3 (a ∷ b ∷ c ∷ d ∷ e ∷ rest) t
        ≡ done (answered t a b c d e, record { fifo = 0; flits = x ∷ y ∷ z ∷ [] })
  ask_lem h = ask_from t.request refl h

-- A slot is granted: the receiver's ring, and its answer.
module _ ⦃cpu : Cas⦄ (fuel p : ℕ) (t : Tile) {ep : Endpoint} {words : ℕ} (some_ep : p ≢ 0)
    (at : t.endpoints p ≡ some ep) (v : IsValid words ep.buffer) where
  abbrev pub granted : Buffer
  granted = record ep.buffer {
    data_size = set ep.buffer.data_size ep.buffer.write_ptr 0;
    write_ptr = advance ep.buffer.size ep.buffer.write_ptr;
  }

  pub grant_lem :
      (flit size : ℕ) (stale : List ℕ)
      → request_of flit ≡ msg_alloc_req
      → size ≤ max_size ep.buffer.buffer_type
      → full ep.buffer ≡ false
      → msg_handler fuel (flit ∷ p ∷ size ∷ stale) 3 t
        ≡ done (
          put_endpoint t p (record ep { buffer = granted }),
          record {
            fifo = 1;
            flits = header (src_of flit) t.tileid msg_alloc_resp ∷ ack ∷ ep.buffer.write_ptr ∷ [];
          }
              ∷ [],
        )
  unfolding msg_handler dispatch handle_msg_alloc send
  grant_lem flit size stale req short room =
      let fits : ltb (max_size ep.buffer.buffer_type) size ≡ false = ground arith in
      rw (req, load-some t.endpoints p some_ep at, alloc_lem v size, fits, room)
