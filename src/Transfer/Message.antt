-- ===== src/Transfer/Message.antt =====
-- A whole message: the packets of `control_msg_data`, handed to the handler of the receiving tile,
-- fill the allocated slot with the message and leave every other slot alone.
use optimsoc.Prelude.{
  ℕ, zero, suc, ◌+◌, ◌-◌, ◌*◌, ◌≡◌, ◌≢◌, ◌≤◌, ◌<◌, refl, ap, ◌∙◌, some, List, [], ◌∷◌, ◌++◌, arith,
  leb, if◌then◌else◌, length, get_elem?, get_elem?-append, done, Option, min,
}
use mathlib.Core.Path.{subst}
use native.Mathlib.Decide.{dec_lt}
use optimsoc.Sync.{Cas}
use optimsoc.Endpoint.{Endpoint, Buffer}
use optimsoc.Endpoint.Inv.{IsValid}
use optimsoc.Endpoint.Copy.{Copied}
use optimsoc.Registry.{update}
use optimsoc.Control.{Tile, Packet, request_of, put_endpoint, msg_data}
use optimsoc.Sender.{wordsperpacket, chunk, data_loop, data_packet}
use optimsoc.Sender.Packets.{Payload, data_packet_lem, data_loop-stop, data_loop-step}
use optimsoc.Transfer.{deliver}
use optimsoc.Transfer.Data.{deliver-quiet, msg_data_lem}

-- Two adjoining runs make one.
Copied-join :
    {m : List ℕ} {field : List ℕ} {d i n : ℕ} {area : List ℕ} (payload stale : List ℕ)
    {area' : List ℕ}
    → Copied m 0 field d 0 i area
    → Payload m i n payload
    → Copied (payload ++ stale) 0 area (d + i) 0 (length payload) area'
    → Copied m 0 field d 0 (i + n) area'
Copied-join {m} {field} {d} {i} {n} {area} payload stale {area'} c p c' = record {
  same_length = c'.same_length ∙ c.same_length;
  word_at = λ k. ground (
    arith,
    c'.word_at k,
    c.word_at k,
    p.count,
    p.word (k - (d + i)),
    get_elem?-append payload stale (k - (d + i)),
    ap (get_elem? m) (same k),
  );
}
  where
    same :
        (k : ℕ)
        → (if leb (d + i) k then i + (k - (d + i)) else 0) ≡ (if leb (d + i) k then k - d else 0)
    same k = ground arith

-- The receiver `t` of `t0` after the first `i` words of `m` have come in at slot `ptr` of the
-- endpoint at `p`.
pub record Filled (p ptr words : ℕ) (t0 : Tile) (ep : Endpoint) (m : List ℕ) (i : ℕ) (t : Tile)
    : Type 0 where
  pub area : List ℕ
  pub at : t.endpoints p ≡ some (record ep { buffer = record ep.buffer { field = area } })
  pub written : Copied m 0 ep.buffer.field (ptr * words) 0 i area
  pub others : (q : ℕ) → q ≢ p → t.endpoints q ≡ t0.endpoints q

pub update_self {ℓ} :
    {A : Type ℓ} (memory : ℕ → Option A) (p : ℕ) (c : Option A) → update memory p c p ≡ c
unfolding update
update_self memory p c = ground arith

pub update_other {ℓ} :
    {A : Type ℓ} (memory : ℕ → Option A) (p q : ℕ) (c : Option A)
    → q ≢ p
    → update memory p c q ≡ memory q
unfolding update
update_other memory p q c ne = ground arith

-- What `Filled` needs of a tile does not depend on its area.
pub filled-IsValid :
    {words : ℕ} {b : Buffer} (area : List ℕ)
    → IsValid words b
    → length area ≡ length b.field
    → IsValid words (record b { field = area })
filled-IsValid area v e = record {
  small = v.small;
  read_in = v.read_in;
  write_in = v.write_in;
  sizes = v.sizes;
  slots = v.slots;
  room = rw e v.room;
  area_small = v.area_small;
}

-- Nothing has come in yet.
pub Filled-start :
    (p ptr words : ℕ) (t0 : Tile) (ep : Endpoint) (m : List ℕ)
    → t0.endpoints p ≡ some ep
    → Filled p ptr words t0 ep m (min 0 (length m)) t0
Filled-start p ptr words t0 ep m e =
    let none_yet : 0 ≡ min 0 (length m) = omega arith in
    subst (λ n. Filled p ptr words t0 ep m n t0) none_yet
      (record {
        area = ep.buffer.field;
        at = e;
        written = record { same_length = refl; word_at = λ k. ground arith };
        others = λ q ne. refl;
      })

module _ ⦃cpu : Cas⦄ (fuel : ℕ) (stale : List ℕ) (p ptr words : ℕ) (t0 : Tile) (ep : Endpoint)
    (m : List ℕ) (flit : ℕ) (v : IsValid words ep.buffer) (some_ep : p ≢ 0)
    (slot : ptr < ep.buffer.size) (fits : length m ≤ words) (req : request_of flit ≡ msg_data) where
  -- One data packet.
  Filled-packet :
      (i sz : ℕ) (payload : List ℕ) (t : Tile)
      → Filled p ptr words t0 ep m i t
      → Payload m i sz payload
      → i + sz ≤ length m
      → (t' : Tile) × ((rest : List Packet)
          → deliver fuel stale (record { fifo = 0; flits = flit ∷ p ∷ ptr ∷ i ∷ payload } ∷ rest) t
            ≡ deliver fuel stale rest t')
        × Filled p ptr words t0 ep m (i + sz) t'
  Filled-packet i sz payload t f pay room =
      let (area', run, c) =
        msg_data_lem fuel p ptr t some_ep f.at (filled-IsValid f.area v f.written.same_length) slot
          flit i payload stale req (omega (arith, pay.count)) in
      let ep' = record ep { buffer = record ep.buffer { field = area' } } in
      (
        put_endpoint t p ep',
        λ rest. deliver-quiet fuel stale _ rest t (put_endpoint t p ep') run,
        record {
          area = area';
          at = update_self t.endpoints p (some ep');
          written = Copied-join payload stale f.written pay c;
          others = λ q ne. update_other t.endpoints p q (some ep') ne ∙ f.others q ne;
        },
      )

  -- The loop from word `i` on ends with `out` in the request buffer, and its packets take the
  -- receiver from `t` to one that holds the whole message.
  pub record Sent (rounds i : ℕ) (s t : Tile) : Type 0 where
    pub out : List ℕ
    pub packets : List Packet
    pub t' : Tile
    pub loop :
        data_loop (λ j. flit ∷ p ∷ ptr ∷ j ∷ []) m (length m) (suc rounds) i s
        ≡ done (record s { request = out }, packets)
    pub long : length out ≡ length s.request
    pub arrive :
        (rest : List Packet) → deliver fuel stale (packets ++ rest) t ≡ deliver fuel stale rest t'
    pub whole : Filled p ptr words t0 ep m (length m) t'

  Sent-stop :
      (rounds i : ℕ) (s t : Tile)
      → length m ≤ i
      → Filled p ptr words t0 ep m (min i (length m)) t
      → Sent rounds i s t
  Sent-stop rounds i s t past f = record {
    out = s.request;
    packets = [];
    t' = t;
    loop = data_loop-stop (λ j. flit ∷ p ∷ ptr ∷ j ∷ []) m (length m) rounds i s past;
    long = refl;
    arrive = λ rest. refl;
    whole = subst (λ n. Filled p ptr words t0 ep m n t) (omega arith) f;
  }

  Sent-step :
      (rounds i : ℕ) (s t t' : Tile) (out : List ℕ) (packet : Packet)
      → i < length m
      → data_packet (flit ∷ p ∷ ptr ∷ i ∷ []) m i (chunk (length m) i) s
        ≡ done (record s { request = out }, packet)
      → length out ≡ length s.request
      → ((rest : List Packet) → deliver fuel stale (packet ∷ rest) t ≡ deliver fuel stale rest t')
      → Sent rounds (i + wordsperpacket) (record s { request = out }) t'
      → Sent (suc rounds) i s t
  Sent-step rounds i s t t' out packet more one long first later = record {
    out = later.out;
    packets = packet ∷ later.packets;
    t' = later.t';
    loop =
        data_loop-step (λ j. flit ∷ p ∷ ptr ∷ j ∷ []) m (length m) (suc rounds) i s more one
          later.loop;
    long = later.long ∙ long;
    arrive = λ rest. first (later.packets ++ rest) ∙ later.arrive rest;
    whole = later.whole;
  }

  -- All packets of the message from word `i` on.
  pub Sent-loop :
      (rounds i : ℕ) (s t : Tile)
      → length m ≤ i + rounds
      → 4 + min wordsperpacket (length m) ≤ length s.request
      → Filled p ptr words t0 ep m (min i (length m)) t
      → Sent rounds i s t
  Sent-loop zero i s t enough cap_le f = Sent-stop zero i s t (omega arith) f
  Sent-loop (suc rounds) i s t enough cap_le f = elim (dec_lt i (length m)) [
    | no past ↦ Sent-stop (suc rounds) i s t (omega arith) f
    | yes more ↦
        let sz = chunk (length m) i in
        let (out, payload, one, long, pay) =
          data_packet_lem flit p ptr i m i sz (ground arith) s (ground arith) in
        let (t', first, f') =
          Filled-packet i sz payload t (subst (λ n. Filled p ptr words t0 ep m n t) (omega arith) f)
            pay (ground arith) in
        Sent-step rounds i s t t' out _ more one long first (
          Sent-loop rounds (i + wordsperpacket) (record s { request = out }) t' (omega arith)
            (omega (arith, long)) (subst (λ n. Filled p ptr words t0 ep m n t') (ground arith) f'))
  ]
