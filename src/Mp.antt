-- ===== src/Mp.antt =====
-- The message and channel operations of libmp/mp.c over the endpoints and the control protocol.
pub mod Credit
use optimsoc.Prelude.{
  ℕ, ◌+◌, ◌-◌, ◌*◌, ◌/◌, ◌%◌, ◌^◌, Bool, true, false, List, [], ◌∷◌, ◌++◌, ltb, ◌==◌, if◌then◌else◌,
  sub32, add32, Run, done, blocked, fault, ◌>>=◌, read, store, min,
}
use optimsoc.Sync.{Cas}
use optimsoc.Endpoint
use optimsoc.Endpoint.{Endpoint, alone, words_of, copy_loop}
use optimsoc.Registry.{Handle, load}
use optimsoc.Control.{Tile, Packet, put_endpoint}
use optimsoc.Sender.{msg_alloc, send_msg_data, channel_connect, channel_send, channel_sendcredit}

-- `optimsoc_mp_msg_send`: the answers are those to the allocation requests.
unfoldable pub msg_send :
    (to : Handle) (memory : List ℕ) (size : ℕ) (answers : List (List ℕ))
    → Tile
    → Run (Tile × List Packet)
msg_send to memory size answers t = do
  (addr, t', asked) ← msg_alloc to size answers t
  (t'', packets) ← send_msg_data to addr memory size t'
  done (t'', asked ++ packets)

-- `optimsoc_mp_msg_recv`, outside of RUNTIME: it spins while the endpoint is empty.
unfoldable pub msg_recv :
    ⦃cpu : Cas⦄
    → (eph : Handle) (buffer : List ℕ) (buffer_size : ℕ) → Tile
    → Run (ℕ × List ℕ × Tile)
msg_recv eph buffer buffer_size t = do
  ep ← load t.endpoints eph.ep
  none_there ← Endpoint.empty ep.buffer
  if none_there then blocked else do
    (received, memory, b) ← Endpoint.msg_recv buffer buffer_size ep.buffer
    done (received, memory, put_endpoint t eph.ep (record ep { buffer = b }))

-- `endpoint_channel_add_credit`
unfoldable pub channel_add_credit : (credit : ℕ) → Endpoint → Endpoint
channel_add_credit credit ep = record ep { remotecredit = add32 ep.remotecredit credit }

-- `optimsoc_mp_channel_connect`, called by the sender.
unfoldable pub channel_connect_to :
    (from to : Handle) (answer : List ℕ) → Tile → Run (Tile × List Packet)
channel_connect_to from to answer t = do
  (credit, t', packets) ← channel_connect from to answer t
  ep ← load t'.endpoints from.ep
  done (put_endpoint t' from.ep (channel_add_credit credit ep), packets)

-- The loop of compare-and-swaps on `remotecredit`, as in `Endpoint.push`.
unfoldable pub take_credit : ⦃cpu : Cas⦄ → List (ℕ → ℕ) → Endpoint → Run Endpoint
take_credit [] ep = blocked
take_credit ⦃cpu⦄ (others ∷ rounds) ep =
    let oldcredit = ep.remotecredit in
    let (old, now) = cpu.cas (others oldcredit) oldcredit (sub32 oldcredit 1) in
    let ep' = record ep { remotecredit = now } in
    let retry = take_credit rounds ep' in if old == oldcredit then done ep' else retry

-- `optimsoc_mp_channel_send`: without credit it spins, and stops by `assert(0==1)` if its own ring
-- is full besides.
unfoldable pub channel_send_to :
    ⦃cpu : Cas⦄ → (from to : Handle) (memory : List ℕ) (size : ℕ) → Tile → Run (Tile × List Packet)
channel_send_to from to memory size t = do
  ep ← load t.endpoints from.ep
  if ep.remotecredit == 0
      then (if Endpoint.full ep.buffer then fault else blocked)
      else (do ep' ← take_credit alone ep; channel_send to memory size (put_endpoint t from.ep ep'))

-- `optimsoc_mp_channel_send_i`: the return value -1 is `false`.
unfoldable pub channel_send_i :
    (from to : Handle) (memory : List ℕ) (size : ℕ) → Tile → Run (Bool × Tile × List Packet)
channel_send_i from to memory size t = do
  ep ← load t.endpoints from.ep
  if ep.remotecredit == 0 then done (false, t, []) else (do
    (t', packets) ← channel_send to memory size t
    ep' ← load t'.endpoints from.ep
    done (
      true,
      put_endpoint t' from.ep (record ep' { remotecredit = sub32 ep'.remotecredit 1 }),
      packets,
    ))

-- The first `bytes` bytes of the word `w` over the word `old`, on a big-endian machine.
unfoldable pub blend : (bytes w old : ℕ) → ℕ
blend bytes w old = let low = 2 ^ (8 * (4 - bytes)) in w / low * low + old % low

-- `memcpy` of `count` bytes from word `from` of an area to the front of a memory: whole words, and
-- then the bytes that are left.
unfoldable pub memcpy : (src : List ℕ) (from : ℕ) (dst : List ℕ) (count : ℕ) → Run (List ℕ)
memcpy src from dst count = do
  memory ← copy_loop src (λ i. from + i) dst (λ i. i) 0 (count / 4)
  if count % 4 == 0 then done memory else (do
    w ← read src (from + count / 4)
    old ← read memory (count / 4)
    store memory (count / 4) (blend (count % 4) w old))

-- `optimsoc_mp_channel_recv`: what it returns (`true` for a buffer overflow), the received size,
-- the caller's memory, and the credit packet.
unfoldable pub channel_recv :
    ⦃cpu : Cas⦄
    → (eph : Handle) (buffer : List ℕ) (buffer_size : ℕ) → Tile
    → Run (Bool × ℕ × List ℕ × Tile × Packet)
channel_recv eph buffer buffer_size t = do
  ep ← load t.endpoints eph.ep
  none_there ← Endpoint.empty ep.buffer
  if none_there then blocked else (do
    (ptr, b) ← Endpoint.pop alone ep.buffer
    received ← read b.data_size ptr
    slot ← read b.slots ptr
    let count = min received buffer_size
    memory ← memcpy b.field slot buffer count
    (t', credit) ← channel_sendcredit eph 1 (put_endpoint t eph.ep (record ep { buffer = b }))
    done (ltb buffer_size received, count, memory, t', credit))

-- `optimsoc_mp_channel_pause` sends a credit of -1.
unfoldable pub channel_pause : (ep : Handle) → Tile → Run (Tile × Packet)
channel_pause ep t = channel_sendcredit ep (sub32 0 1) t

-- `optimsoc_mp_channel_continue`
unfoldable pub channel_continue : (ep : Handle) → Tile → Run (Tile × Packet)
channel_continue ep t = do
  local ← load t.endpoints ep.ep
  channel_sendcredit ep (sub32 local.buffer.size 1) t
