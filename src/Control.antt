-- ===== src/Control.antt =====
-- The control protocol of libmp (libmp/control.h and libmp/control.c): the header flit, the handler
-- that the message interrupt calls, and the senders, each over the state of one tile.
pub mod Header
use Prim.Native.Nat.{bit_or}
use optimsoc.Prelude.{
  ℕ, zero, suc, ◌+◌, ◌-◌, ◌*◌, ◌/◌, ◌%◌, ◌^◌, Bool, true, false, not, Option, none, some, List, [],
  ◌∷◌, ltb, leb, ◌==◌, if◌then◌else◌, length, set, take, drop, add32, sub32, mul32, Run, done,
  blocked, fault, ◌>>=◌, or_fault, read, store, assert,
}
use optimsoc.Sync.{Cas}
use optimsoc.Endpoint
use optimsoc.Endpoint.{Endpoint, Buffer, alone, words_of, copy_loop}
use optimsoc.Registry
use optimsoc.Registry.{Registry, load, update}

-- A packet that `optimsoc_mp_simple_send` hands to the network interface: its port, and the flits.
pub record Packet : Type 0 where
  pub fifo : ℕ
  pub flits : List ℕ

-- What one tile keeps: its number, the list of handles, the endpoints by address, the
-- `ctrl_request` structure, and the length of the next busy wait.
pub record Tile : Type 0 where
  pub tileid : ℕ
  pub registry : Registry
  pub endpoints : ℕ → Option Endpoint
  pub request : List ℕ
  pub request_done : ℕ
  pub timeout_insns : ℕ

abbrev pub noc_class_mp : ℕ
noc_class_mp = 2

abbrev pub getep_req : ℕ
getep_req = 0

abbrev pub getep_resp : ℕ
getep_resp = 1

abbrev pub msg_alloc_req : ℕ
msg_alloc_req = 2

abbrev pub msg_alloc_resp : ℕ
msg_alloc_resp = 3

abbrev pub msg_data : ℕ
msg_data = 4

abbrev pub msg_complete : ℕ
msg_complete = 5

abbrev pub chan_connect_req : ℕ
chan_connect_req = 6

abbrev pub chan_connect_resp : ℕ
chan_connect_resp = 7

abbrev pub chan_data : ℕ
chan_data = 8

abbrev pub chan_credit : ℕ
chan_credit = 9

abbrev pub ack : ℕ
ack = 1

abbrev pub nack : ℕ
nack = 0

-- `(dest << 27) | (NOC_CLASS_MP << 24) | (src << 19) | (request << 15)`
unfoldable pub header : (dest src request : ℕ) → ℕ
header dest src request =
    bit_or
      (bit_or (bit_or (mul32 dest (2 ^ 27)) (mul32 noc_class_mp (2 ^ 24))) (mul32 src (2 ^ 19)))
      (mul32 request (2 ^ 15))

-- `EXTRACT(x, msb, lsb)`: shift right, then mask `msb - lsb + 1` bits.
abbrev pub extract : (x msb lsb : ℕ) → ℕ
extract x msb lsb = x / 2 ^ lsb % 2 ^ (msb - lsb + 1)

abbrev pub src_of : ℕ → ℕ
src_of flit = extract flit 23 19

abbrev pub request_of : ℕ → ℕ
request_of flit = extract flit 18 15

-- `optimsoc_mp_simple_send(fifo, size, buf)` reads `size` words behind `buf`.
unfoldable pub send : (fifo size : ℕ) → List ℕ → Run Packet
send fifo size buf =
    if ltb (length buf) size then fault else done (record { fifo = fifo; flits = take size buf })

-- `ep->...` on the endpoint at an address that came in a flit
abbrev pub put_endpoint : Tile → ℕ → Endpoint → Tile
put_endpoint t p e = record t { endpoints = update t.endpoints p (some e) }

-- A request of this tile, in the words of `ctrl_request.buffer`, written one by one.
unfoldable pub fill : (i : ℕ) → List ℕ → List ℕ → Run (List ℕ)
fill i [] buffer = done buffer
fill i (w ∷ ws) buffer = do buffer' ← store buffer i w; fill (suc i) ws buffer'

-- CTRL_REQUEST_GETEP_REQ. `control_msg_handler` asks `endpoint_get` for an endpoint of its own
-- tile, so the network and the two addresses for a new handle are never used.
unfoldable pub handle_getep : (fuel src : ℕ) → List ℕ → Tile → Run (Tile × List Packet)
handle_getep fuel src buffer t = do
  node ← read buffer 1
  port ← read buffer 2
  (eph, registry) ← Registry.get fuel t.tileid fault 0 0 t.tileid node port t.registry
  answer ← elim eph [
    | some h ↦ (do handle ← load registry.handles h; done handle.ep)
    | none ↦ done (2 ^ 32 - 1)
  ]
  reply ← send 1 2 (header src t.tileid getep_resp ∷ answer ∷ [])
  done (record t { registry = registry }, reply ∷ [])

module _ ⦃cpu : Cas⦄ where
  -- CTRL_REQUEST_MSG_ALLOC_REQ
  unfoldable pub handle_msg_alloc : (src : ℕ) → List ℕ → Tile → Run (Tile × List Packet)
  handle_msg_alloc src buffer t = do
    p ← read buffer 1
    size ← read buffer 2
    ep ← load t.endpoints p
    (rv, b) ← Endpoint.alloc size ep.buffer
    let t' = put_endpoint t p (record ep { buffer = b })
    let flit = header src t.tileid msg_alloc_resp
    reply ← elim rv [
      | some ptr ↦ send 1 3 (flit ∷ ack ∷ ptr ∷ [])
      | none ↦ send 1 2 (flit ∷ nack ∷ [])
    ]
    done (t', reply ∷ [])

  -- CTRL_REQUEST_CHAN_DATA. The trace of the fill state changes nothing.
  unfoldable pub handle_chan_data : (len : ℕ) → List ℕ → Tile → Run (Tile × List Packet)
  handle_chan_data len buffer t = do
    p ← read buffer 1
    offset ← read buffer 2
    eom ← read buffer 3
    ep ← load t.endpoints p
    b ← Endpoint.write ep.buffer.write_ptr offset (drop 4 buffer) (sub32 len 4) ep.buffer
    if eom == 0 then done (put_endpoint t p (record ep { buffer = b }), []) else do
      sizes ← store b.data_size b.write_ptr (add32 (mul32 offset 4) eom)
      (ptr, b') ← Endpoint.push alone (record b { data_size = sizes })
      done (put_endpoint t p (record ep { buffer = b' }), [])

-- CTRL_REQUEST_MSG_DATA
unfoldable pub handle_msg_data : (len : ℕ) → List ℕ → Tile → Run (Tile × List Packet)
handle_msg_data len buffer t = do
  p ← read buffer 1
  ptr ← read buffer 2
  offset ← read buffer 3
  ep ← load t.endpoints p
  b ← Endpoint.write ptr offset (drop 4 buffer) (sub32 len 4) ep.buffer
  done (put_endpoint t p (record ep { buffer = b }), [])

-- CTRL_REQUEST_MSG_COMPLETE
unfoldable pub handle_msg_complete : List ℕ → Tile → Run (Tile × List Packet)
handle_msg_complete buffer t = do
  p ← read buffer 1
  ptr ← read buffer 2
  size ← read buffer 3
  ep ← load t.endpoints p
  b ← Endpoint.write_complete ptr size ep.buffer
  done (put_endpoint t p (record ep { buffer = b }), [])

-- CTRL_REQUEST_CHAN_CONNECT_REQ
unfoldable pub handle_chan_connect : (src : ℕ) → List ℕ → Tile → Run (Tile × List Packet)
handle_chan_connect src buffer t = do
  p ← read buffer 1
  domain ← read buffer 2
  remote ← read buffer 3
  ep ← load t.endpoints p
  let credit = Endpoint.channel_get_credit ep.buffer
  reply ← send 1 2 (header src t.tileid chan_connect_resp ∷ credit ∷ [])
  done (put_endpoint t p (record ep { remotedomain = domain; remote = remote }), reply ∷ [])

-- CTRL_REQUEST_CHAN_CREDIT
unfoldable pub handle_chan_credit : List ℕ → Tile → Run (Tile × List Packet)
handle_chan_credit buffer t = do
  p ← read buffer 1
  credit ← read buffer 2
  ep ← load t.endpoints p
  let remotecredit = if credit == 0 then 0 else add32 ep.remotecredit credit
  done (put_endpoint t p (record ep { remotecredit = remotecredit }), [])

-- The responses: the first five words go to `ctrl_request`.
unfoldable pub handle_response : List ℕ → Tile → Run (Tile × List Packet)
handle_response buffer t = do
  w0 ← read buffer 0
  w1 ← read buffer 1
  w2 ← read buffer 2
  w3 ← read buffer 3
  w4 ← read buffer 4
  request ← fill 0 (w0 ∷ w1 ∷ w2 ∷ w3 ∷ w4 ∷ []) t.request
  done (record t { request = request; request_done = 1 }, [])

-- The `switch` of `control_msg_handler`
unfoldable pub dispatch :
    ⦃cpu : Cas⦄ → (fuel req src : ℕ) (buffer : List ℕ) (len : ℕ) → Tile → Run (Tile × List Packet)
dispatch fuel req src buffer len t =
    if req == getep_req
    then handle_getep fuel src buffer t
    else if req == msg_alloc_req
    then handle_msg_alloc src buffer t
    else if req == msg_data
    then handle_msg_data len buffer t
    else if req == msg_complete
    then handle_msg_complete buffer t
    else if req == chan_connect_req
    then handle_chan_connect src buffer t
    else if req == chan_data
    then handle_chan_data len buffer t
    else if req == chan_credit
    then handle_chan_credit buffer t
    else if req == getep_resp
    then handle_response buffer t
    else if req == msg_alloc_resp
    then handle_response buffer t
    else if req == chan_connect_resp
    then handle_response buffer t
    else done (t, [])

-- `control_msg_handler(buffer, len)`: the tile afterwards and the packets it sends.
unfoldable pub msg_handler :
    ⦃cpu : Cas⦄ → (fuel : ℕ) (buffer : List ℕ) (len : ℕ) → Tile → Run (Tile × List Packet)
msg_handler fuel buffer len t = do
  flit ← read buffer 0
  dispatch fuel (request_of flit) (src_of flit) buffer len t
