-- ===== src/Sender.antt =====
-- The requests of libmp/control.c: what a tile puts into `ctrl_request.buffer`, what it sends, and
-- how it waits for the answer. `answers` are the buffers of the responses that arrive while it
-- waits; the interrupt handler stores each.
pub mod Packets
pub mod Overflow
use optimsoc.Prelude.{
  ℕ, zero, suc, ◌+◌, ◌-◌, ◌%◌, ◌^◌, Bool, true, false, List, [], ◌∷◌, ◌++◌, ltb, leb, ◌==◌,
  if◌then◌else◌, add32, sub32, mul32, Run, done, blocked, fault, ◌>>=◌, read, assert,
}
use optimsoc.Endpoint.{Endpoint, words_of, copy_loop}
use optimsoc.Registry.{Handle, load}
use optimsoc.Control.{
  Tile, Packet, header, send, fill, handle_response, getep_req, msg_alloc_req, msg_data,
  msg_complete, chan_connect_req, chan_data, chan_credit, nack,
}

-- `optimsoc_noc_maxpacketsize()`
abbrev pub maxpacketsize : ℕ
maxpacketsize = 32

abbrev pub wordsperpacket : ℕ
wordsperpacket = maxpacketsize - 4

-- Fill the first words of the request buffer and send them.
unfoldable pub request : (words : List ℕ) (size : ℕ) → Tile → Run (Tile × Packet)
request words size t = do
  buffer ← fill 0 words t.request
  packet ← send 0 size buffer
  done (record t { request = buffer }, packet)

-- `ctrl_request.done = 0`, the request, and `control_wait_response` until an answer is in.
unfoldable pub ask : (words : List ℕ) (size : ℕ) (answer : List ℕ) → Tile → Run (Tile × Packet)
ask words size answer t = do
  (t', packet) ← request words size (record t { request_done = 0 })
  (t'', _) ← handle_response answer t'
  done (t'', packet)

-- `timeout_insns = timeout_insns * 10`, after the busy wait
unfoldable pub back_off : Tile → Tile
back_off t = record t { timeout_insns = mul32 t.timeout_insns 10 }

-- `control_get_endpoint`, from where the remote tile is ready: ask again while the answer is -1.
unfoldable pub get_endpoint :
    (domain node port : ℕ) (answers : List (List ℕ)) → Tile → Run (ℕ × Tile × List Packet)
get_endpoint domain node port [] t = blocked
get_endpoint domain node port (answer ∷ answers) t = do
  (t', packet) ← ask (header domain t.tileid getep_req ∷ node ∷ port ∷ []) 3 answer t
  ep ← read t'.request 1
  let again = get_endpoint domain node port answers (back_off t') in
      if ep == 2 ^ 32 - 1
      then (do (found, t'', packets) ← again; done (found, t'', packet ∷ packets))
      else done (ep, t', packet ∷ [])

-- `control_msg_alloc`: ask again while the answer is a refusal.
unfoldable pub msg_alloc :
    (to_ep : Handle) (size : ℕ) (answers : List (List ℕ)) → Tile → Run (ℕ × Tile × List Packet)
msg_alloc to_ep size [] t = blocked
msg_alloc to_ep size (answer ∷ answers) t = do
  (t', packet) ← ask (header to_ep.domain t.tileid msg_alloc_req ∷ to_ep.ep ∷ size ∷ []) 3 answer t
  rv ← read t'.request 1
  ptr ← read t'.request 2
  let again = msg_alloc to_ep size answers (back_off t') in
      if rv == nack
      then (do (slot, t'', packets) ← again; done (slot, t'', packet ∷ packets))
      else done (ptr, t', packet ∷ [])

-- One packet of a message or of a channel: four header words, then `data[i .. i + sz)`.
unfoldable pub data_packet :
    (words : List ℕ) (memory : List ℕ) (i sz : ℕ) → Tile → Run (Tile × Packet)
data_packet words memory i sz t = do
  buffer ← fill 0 words t.request
  buffer' ← copy_loop memory (λ d. i + d) buffer (λ d. 4 + d) 0 sz
  packet ← send 0 (4 + sz) buffer'
  done (record t { request = buffer' }, packet)

-- `sz = words - i; if (sz > wordsperpacket) sz = wordsperpacket;`
abbrev pub chunk : (words i : ℕ) → ℕ
chunk words i = if ltb wordsperpacket (words - i) then wordsperpacket else words - i

-- `for (int i = 0; i < words; i = i + wordsperpacket)` with `head i` as the four header words of the
-- packet that starts at word `i`.
unfoldable pub data_loop :
    (head : ℕ → List ℕ) (memory : List ℕ) (words fuel i : ℕ) → Tile → Run (Tile × List Packet)
data_loop head memory words zero i t = blocked
data_loop head memory words (suc fuel) i t =
    let more = data_packet (head i) memory i (chunk words i) t >>= λ (t', packet).
    data_loop head memory words fuel (i + wordsperpacket) t' >>= λ (t'', packets).
    done (t'', packet ∷ packets) in
    if ltb i words then more else done (t, [])

-- `control_msg_data`. The loop makes at most one round for each word.
unfoldable pub send_msg_data :
    (ep : Handle) (address : ℕ) (memory : List ℕ) (size : ℕ) → Tile → Run (Tile × List Packet)
send_msg_data ep address memory size t =
    let words = words_of size in
    let head = λ (i : ℕ). header ep.domain t.tileid msg_data ∷ ep.ep ∷ address ∷ i ∷ [] in
    assert (size % 4 == 0) (do
      (t', packets) ← data_loop head memory words (suc words) 0 t
      (t'', last) ←
          request (header ep.domain t.tileid msg_complete ∷ ep.ep ∷ address ∷ size ∷ []) 4 t'
      done (t'', packets ++ (last ∷ [])))

-- `control_channel_connect`: the credit that the receiver grants.
unfoldable pub channel_connect :
    (from to : Handle) (answer : List ℕ) → Tile → Run (ℕ × Tile × List Packet)
channel_connect from to answer t = do
  (t', packet) ←
      ask (header to.domain t.tileid chan_connect_req ∷ to.ep ∷ from.domain ∷ from.ep ∷ []) 4 answer
        t
  credit ← read t'.request 1
  done (credit, t', packet ∷ [])

-- The fourth word of a channel packet: the end of the message in its last packet, else 0.
unfoldable pub end_of_message : (size words i : ℕ) → ℕ
end_of_message size words i =
    if leb words (i + wordsperpacket) then sub32 size (mul32 i wordsperpacket) else 0

-- `control_channel_send`
unfoldable pub channel_send :
    (ep : Handle) (memory : List ℕ) (size : ℕ) → Tile → Run (Tile × List Packet)
channel_send ep memory size t =
    let words = words_of size in
    let head = λ (i : ℕ).
      header ep.domain t.tileid chan_data ∷ ep.ep ∷ i ∷ end_of_message size words i ∷ [] in
    data_loop head memory words (suc words) 0 t

-- `control_channel_sendcredit`, on the endpoint behind the handle
unfoldable pub channel_sendcredit : (ep : Handle) (credit : ℕ) → Tile → Run (Tile × Packet)
channel_sendcredit ep credit t = do
  local ← load t.endpoints ep.ep
  request (header local.remotedomain t.tileid chan_credit ∷ local.remote ∷ credit ∷ []) 3 t
