-- ===== src/MpSimple.antt =====
-- The driver of the network interface: libbaremetal/mp_simple.c, and the tables of tiles of
-- libbaremetal/util.c. The receive register of an endpoint is the list of words that reading it
-- gives, and an empty one reads as 0. A handler is the list of calls that are made of it.
pub mod Receive
pub mod Rank
pub mod Ready
use Prim.Native.Nat.{bit_or}
use optimsoc.Prelude.{
  ℕ, zero, suc, ◌+◌, ◌-◌, ◌*◌, ◌/◌, ◌%◌, ◌^◌, Bool, true, false, not, List, [], ◌∷◌, ◌++◌, ltb,
  ◌==◌, if◌then◌else◌, length, set, take, drop, replicate, mul32, Run, done, blocked, fault, ◌>>=◌,
  read, store, assert,
}
use optimsoc.Control.{extract}
use optimsoc.Sender.{maxpacketsize}

abbrev pub class_num : ℕ
class_num = 8

abbrev pub class_of : ℕ → ℕ
class_of flit = extract flit 26 24

-- A call `cls_handlers[class](_buffer, size)`.
pub record Call : Type 0 where
  pub class : ℕ
  pub buffer : List ℕ
  pub size : ℕ

-- `fifos` are the receive registers, `ctlist` the tiles by rank.
pub record Driver : Type 0 where
  pub packet : List ℕ
  pub registered : ℕ → Bool
  pub domains_ready : List ℕ
  pub fifos : List (List ℕ)
  pub ctlist : List ℕ

-- The loop of `optimsoc_get_tilerank`: -1 for a tile that is not a compute tile.
unfoldable pub rank_loop : (tile i : ℕ) → List ℕ → ℕ
rank_loop tile i [] = 2 ^ 32 - 1
rank_loop tile i (t ∷ ts) = if t == tile then i else rank_loop tile (suc i) ts

-- `optimsoc_get_tilerank`
unfoldable pub tilerank : (ctlist : List ℕ) (tile : ℕ) → ℕ
tilerank ctlist tile = rank_loop tile 0 ctlist

-- `optimsoc_get_ranktile`
unfoldable pub ranktile : (ctlist : List ℕ) (rank : ℕ) → Run ℕ
ranktile ctlist rank = read ctlist rank

-- `RECV(ep)`: the word and the register after it.
abbrev pub recv : List ℕ → ℕ × List ℕ
recv [] = (0, [])
recv (w ∷ ws) = (w, ws)

-- `for (int i = 0; i < n; i++) _buffer[i] = RECV(ep);` from index `i` on
unfoldable pub fill_packet : (i n : ℕ) → List ℕ → List ℕ → Run (List ℕ × List ℕ)
fill_packet i zero fifo packet = done (packet, fifo)
fill_packet i (suc n) fifo packet =
    let (w, fifo') = recv fifo in do packet' ← store packet i w; fill_packet (suc i) n fifo' packet'

-- `for (int i = 0; i < n; i++) RECV(ep);`
unfoldable pub drain : (n : ℕ) → List ℕ → List ℕ
drain zero fifo = fifo
drain (suc n) fifo = drain n (recv fifo).1

-- `_domains_ready[domain] |= 1 << endpoint;` for a packet of the last class that says so. The shift is
-- undefined in C for an endpoint of 32 or more.
unfoldable pub note_ready : (header : ℕ) → Driver → Run Driver
note_ready header d = if header / 2 % 2 == 0 then done d else (do
  let domain = tilerank d.ctlist (extract header 23 19)
  ready ← read d.domains_ready domain
  let endpoint = extract header 9 2
  domains ← assert (ltb endpoint 32) (store d.domains_ready domain (bit_or ready (2 ^ endpoint)))
  done (record d { domains_ready = domains }))

-- What `_irq_handler` does after the packet is in the buffer. A packet that no handler takes is
-- lost.
unfoldable pub dispatch_packet : (size : ℕ) → Driver → Run (Driver × List Call)
dispatch_packet size d = do
  header ← read d.packet 0
  d' ← if class_of header == class_num - 1 then note_ready header d else done d
  done (
    d',
    if d.registered (class_of header)
        then record { class = class_of header; buffer = d.packet; size = size } ∷ []
        else [],
  )

-- One round of the inner loop, for endpoint `ep`: whether its register was empty. A packet that is
-- too large is read to its end, and what is in the buffer goes to the handler.
unfoldable pub receive : (ep : ℕ) → Driver → Run (Bool × Driver × List Call)
receive ep d = do
  fifo ← read d.fifos ep
  let (size, fifo') = recv fifo
  if size == 0 then done (true, d, []) else do
    (packet, fifo'') ←
        if ltb maxpacketsize size
        then done (d.packet, drain size fifo')
        else fill_packet 0 size fifo' d.packet
    (d', calls) ← dispatch_packet size (record d { packet = packet; fifos = set d.fifos ep fifo'' })
    done (false, d', calls)

-- The inner loop, over `n` endpoints from `ep`: how many registers were empty.
unfoldable pub receive_all : (ep n empty : ℕ) → Driver → Run (ℕ × Driver × List Call)
receive_all ep zero empty d = done (empty, d, [])
receive_all ep (suc n) empty d = do
  (none_there, d', calls) ← receive ep d
  (count, d'', more) ← receive_all (suc ep) n (if none_there then suc empty else empty) d'
  done (count, d'', calls ++ more)

-- `_irq_handler`, over at most `fuel` rounds of the outer loop.
unfoldable pub irq_handler : (fuel num_endpoints : ℕ) → Driver → Run (Driver × List Call)
irq_handler zero num_endpoints d = blocked
irq_handler (suc fuel) num_endpoints d = do
  (count, d', calls) ← receive_all 0 num_endpoints 0 d
  let again = irq_handler fuel num_endpoints d' in
      if count == num_endpoints
      then done (d', calls)
      else (do (d'', more) ← again; done (d'', calls ++ more))

-- `optimsoc_mp_simple_send`: what is written to the send register.
unfoldable pub simple_send : (size : ℕ) → List ℕ → Run (List ℕ)
simple_send size buf = if ltb (length buf) size then fault else done (size ∷ take size buf)

-- `SET(x, v, msb, lsb)`: the field is cleared, and then the bits of `v` are put there.
abbrev pub set_field : (x v msb lsb : ℕ) → ℕ
set_field x v msb lsb = bit_or (x - extract x msb lsb * 2 ^ lsb) (v % 2 ^ (msb - lsb + 1) * 2 ^ lsb)

-- The request of `optimsoc_mp_simple_ctready` to a tile.
unfoldable pub ready_request : (tile tileid endpoint : ℕ) → ℕ
ready_request tile tileid endpoint =
    set_field (set_field (set_field (mul32 tile (2 ^ 27)) (class_num - 1) 26 24) tileid 23 19)
      (endpoint % 2 ^ 8) 9 2

-- `optimsoc_mp_simple_ctready`: whether the tile is known to be ready, and what is written to the send
-- register of the endpoint.
unfoldable pub ctready : (tileid rank endpoint : ℕ) → Driver → Run (Bool × List ℕ)
ctready tileid rank endpoint d = do
  ready ← read d.domains_ready rank
  assert (ltb endpoint 32) (
      if ready / 2 ^ endpoint % 2 == 1 then done (true, []) else do
        tile ← ranktile d.ctlist rank
        done (false, 1 ∷ ready_request tile tileid endpoint ∷ []))

-- `optimsoc_mp_simple_init`, without the registration of the interrupt: the driver and the number of
-- endpoints, which is read from the register REG_NUMEP. `raw` is the new buffer as `malloc` returns it.
unfoldable pub simple_init : (numep numct : ℕ) → (raw : List ℕ) → Driver → Driver × ℕ
simple_init numep numct raw d = (
  record d { registered = λ _. false; domains_ready = replicate numct 0; packet = raw },
  numep % 2 ^ 16,
)

-- `optimsoc_mp_simple_addhandler`, for a handler or none
unfoldable pub addhandler : (class handler : ℕ) → Driver → Run Driver
addhandler class handler d =
    if ltb class class_num
    then done
        (record d { registered = λ k. if k == class then not (handler == 0) else d.registered k })
    else fault

-- `optimsoc_mp_simple_enable`: the address and the value of the write to ENABLE(endpoint).
unfoldable pub simple_enable : (ep_base ep_offset endpoint : ℕ) → ℕ × ℕ
simple_enable ep_base ep_offset endpoint = (ep_base + endpoint * ep_offset + 4, 1)
