-- ===== src/Transfer/Data.antt =====
-- The handler at a data packet and at the packet that completes a message.
use optimsoc.Prelude.{
  ℕ, suc, ◌+◌, ◌*◌, ◌^◌, ◌≡◌, ◌≢◌, ◌≤◌, ◌<◌, refl, false, some, List, [], ◌∷◌, ◌++◌, arith, ◌==◌,
  length, set, length-append, sub32, Run, done, blocked, fault, ◌>>=◌, Option,
}
use optimsoc.Sync.{Cas}
use optimsoc.Endpoint.{Endpoint, Buffer, write}
use optimsoc.Endpoint.Inv.{IsValid}
use optimsoc.Endpoint.Copy.{Copied}
use optimsoc.Endpoint.Message.{slot-room, write_lem, write_complete_lem}
use optimsoc.Registry.{load}
use optimsoc.Control.{
  Tile, Packet, request_of, msg_handler, dispatch, handle_msg_data, handle_msg_complete,
  put_endpoint, msg_data, msg_complete,
}
use optimsoc.Transfer.{deliver}

pub load-some {ℓ} :
    {A : Type ℓ} (memory : ℕ → Option A) (p : ℕ) {a : A}
    → p ≢ 0
    → memory p ≡ some a
    → load memory p ≡ done a
unfolding load
load-some memory p ne e = let n : (p == 0) ≡ false = ground arith in rw (n, e)

module _ ⦃cpu : Cas⦄ (fuel : ℕ) (stale : List ℕ) where
  quiet : (m : Run (Tile × List Packet)) → (m >>= λ (t, later). done (t, later)) ≡ m
  quiet (done (t, later)) = refl
  quiet blocked = refl
  quiet fault = refl

  pub deliver-nil : (t : Tile) → deliver fuel stale [] t ≡ done (t, [])
  unfolding deliver
  deliver-nil t = refl

  pub deliver-one :
      (packet : Packet) (t t' : Tile) (reply : Packet)
      → msg_handler fuel (packet.flits ++ stale) (length packet.flits) t ≡ done (t', reply ∷ [])
      → deliver fuel stale (packet ∷ []) t ≡ done (t', reply ∷ [])
  unfolding deliver
  deliver-one packet t t' reply h = rw h

  -- A packet that is answered by none.
  pub deliver-quiet :
      (packet : Packet) (packets : List Packet) (t t' : Tile)
      → msg_handler fuel (packet.flits ++ stale) (length packet.flits) t ≡ done (t', [])
      → deliver fuel stale (packet ∷ packets) t ≡ deliver fuel stale packets t'
  unfolding deliver
  deliver-quiet packet packets t t' h = rw h (quiet (deliver fuel stale packets t'))

module _ ⦃cpu : Cas⦄ (fuel p ptr : ℕ) (t : Tile) {ep : Endpoint} (some_ep : p ≢ 0)
    (at : t.endpoints p ≡ some ep) where
  msg_data-run :
      (flit off : ℕ) (payload stale : List ℕ) (b : Buffer)
      → request_of flit ≡ msg_data
      → length payload < 2 ^ 30
      → write ptr off (payload ++ stale) (length payload) ep.buffer ≡ done b
      → msg_handler fuel
          (flit ∷ p ∷ ptr ∷ off ∷ payload ++ stale)
          (length (flit ∷ p ∷ ptr ∷ off ∷ payload))
          t
        ≡ done (put_endpoint t p (record ep { buffer = b }), [])
  unfolding msg_handler dispatch handle_msg_data
  msg_data-run flit off payload stale b req small run =
      let behind : sub32 (suc (suc (suc (suc (length payload))))) 4 ≡ length payload =
        omega arith in
      rw (req, load-some t.endpoints p some_ep at, behind, run)

  module _ {words : ℕ} (v : IsValid words ep.buffer) (slot : ptr < ep.buffer.size) where
    pub msg_data_lem :
        (flit off : ℕ) (payload stale : List ℕ)
        → request_of flit ≡ msg_data
        → off + length payload ≤ words
        → (area : List ℕ) × (msg_handler fuel
              (flit ∷ p ∷ ptr ∷ off ∷ payload ++ stale)
              (length (flit ∷ p ∷ ptr ∷ off ∷ payload))
              t
            ≡ done
                (put_endpoint t p (record ep { buffer = record ep.buffer { field = area } }), []))
          × Copied (payload ++ stale) 0 ep.buffer.field (ptr * words + off) 0 (length payload) area
    msg_data_lem flit off payload stale req fits =
        let row = slot-room ptr ep.buffer.size words slot in
        let (area, run, c) =
          write_lem v ptr off (payload ++ stale) (length payload) slot fits
            (omega (arith, length-append payload stale)) in
        (
          area,
          msg_data-run flit off payload stale (record ep.buffer { field = area }) req
              (omega (arith, row, v.area_small)) run,
          c,
        )

    pub msg_complete_lem :
        (flit size : ℕ) (stale : List ℕ)
        → request_of flit ≡ msg_complete
        → msg_handler fuel (flit ∷ p ∷ ptr ∷ size ∷ stale) 4 t
          ≡ done (
            put_endpoint t p (record ep {
              buffer = record ep.buffer { data_size = set ep.buffer.data_size ptr size };
            }),
            [],
          )
    unfolding msg_handler dispatch handle_msg_complete
    msg_complete_lem flit size stale req =
        rw (req, load-some t.endpoints p some_ep at, write_complete_lem v ptr size slot)
