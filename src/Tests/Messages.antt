-- ===== src/Tests/Messages.antt =====
-- Two tiles that exchange messages through a ring of three slots of sixteen words.
use optimsoc.Prelude.{
  ◌↔◌, inl, ◌<◌, ◌*◌, ◌%◌, ℕ, zero, suc, ◌+◌, ◌*◌, ◌≡◌, ◌≢◌, ◌<◌, refl, none, some, Option, List,
  [], ◌∷◌, ◌++◌, arith, ltb, ◌==◌, if◌then◌else◌, get_elem?, replicate, done, blocked, fault,
}
use optimsoc.Sync.{Cas}
use optimsoc.Endpoint.{
  message, channel, Buffer, Endpoint, advance, push, full, channel_get_credit, msg_recv, create,
}
use optimsoc.Endpoint.Inv.{IsValid, used, credit-add-used, push-done, push-returns}
use optimsoc.Endpoint.Fifo.{Queued, recv-Queued}
use optimsoc.Endpoint.Create.{create-IsValid}
use optimsoc.Registry.{Registry, Handle}
use optimsoc.Control.{Tile, header, noc_class_mp, src_of, request_of}
use optimsoc.Control.Header.{dest_of, class_of, header_fields}
use optimsoc.Sender.{send_msg_data}
use optimsoc.Sender.Overflow.{send_msg_data-overflow}
use optimsoc.Mp.{take_credit}
use optimsoc.Mp.Credit.{take_credit_lem}
use optimsoc.Transfer.Queue.{Exchanged, msg_send-queues}

-- A compare-and-swap that does what the documentation says.
abbrev pub plain_step : (word old new : ℕ) → ℕ × ℕ
plain_step word old new = if word == old then (word, new) else (word, word)

pub plain_hit : (word new : ℕ) → plain_step word word new ≡ (word, new)
plain_hit word new = ground arith

pub plain_miss : (word old new : ℕ) → word ≢ old → plain_step word old new ≡ (word, word)
plain_miss word old new ne = ground arith

instance abbrev pub plain_cas : Cas
plain_cas = record { cas = plain_step; cas_hit = plain_hit; cas_miss = plain_miss }

-- Slot 2 holds the message 7, 8, and slot 0 is the next to be written.
abbrev ring : Buffer
ring = record {
  slots = 0 ∷ 16 ∷ 32 ∷ [];
  field = replicate 32 0 ++ (7 ∷ 8 ∷ []) ++ replicate 14 0;
  data_size = 0 ∷ 0 ∷ 8 ∷ [];
  buffer_type = message;
  size = 3;
  read_ptr = 2;
  write_ptr = 0;
}

ring_slots : (i : ℕ) → i < 3 → get_elem? (0 ∷ 16 ∷ 32 ∷ []) i ≡ some (i * 16)
ring_slots zero h = refl
ring_slots (suc zero) h = refl
ring_slots (suc (suc zero)) h = refl
ring_slots (suc (suc (suc i))) h = absurd (omega arith)

ring-IsValid : IsValid 16 ring
ring-IsValid = record {
  small = omega arith;
  read_in = omega arith;
  write_in = omega arith;
  sizes = refl;
  slots = ring_slots;
  room = omega arith;
  area_small = omega arith;
}

ring_holds : (k : ℕ) → k < 2 → get_elem? (ring.field) (32 + k) ≡ get_elem? (7 ∷ 8 ∷ []) k
ring_holds zero h = refl
ring_holds (suc zero) h = refl
ring_holds (suc (suc k)) h = absurd (omega arith)

ring-Queued : Queued 16 ring ((7 ∷ 8 ∷ []) ∷ [])
unfolding advance
ring-Queued = (omega arith, refl, omega arith, omega arith, ring_holds, refl)

credit-add-used_example : suc (channel_get_credit ring + used ring) ≡ 3
credit-add-used_example = credit-add-used ring-IsValid

-- In the first round another core takes slot 0.
push-done_example : record ring { write_ptr = 2 } ≡ record ring { write_ptr = advance 3 1 }
unfolding push advance
push-done_example = push-done ((λ w. 1) ∷ (λ w. w) ∷ []) ring refl

push-returns_example : push ((λ w. 1) ∷ (λ w. w) ∷ []) ring ≢ blocked
push-returns_example = push-returns ((λ w. 1) ∷ []) [] ring

recv-Queued_example :
    (memory : List ℕ) × (b : Buffer) × (msg_recv (1 ∷ 2 ∷ 3 ∷ []) 12 ring ≡ done (8, memory, b))
    × ((k : ℕ)
        → get_elem? memory k
          ≡ (if ltb k 2 then get_elem? (7 ∷ 8 ∷ []) k else get_elem? (1 ∷ 2 ∷ 3 ∷ []) k))
    × Queued 16 b []
    × IsValid 16 b
recv-Queued_example =
    recv-Queued ring-IsValid (1 ∷ 2 ∷ 3 ∷ []) 12 (7 ∷ 8 ∷ []) [] ring-Queued (omega arith)
      (omega arith)

create-IsValid_example :
    (b : Buffer) × (create (λ i. 5) channel 4 8 ≡ done b)
    × (b.size ≡ 4)
    × Queued 2 b []
    × ((i : ℕ) → i < 4 → get_elem? b.slots i ≡ some (i * 2))
    × (IsValid 2 b ↔ (8 % 4 ≡ 0))
create-IsValid_example =
    create-IsValid (λ i. 5) channel 4 8 8 2 (omega arith) (omega arith)
      (inl (omega arith, omega arith, refl)) refl (omega arith)

header_fields_example :
    (dest_of (header 3 1 4) ≡ 3)
    × (class_of (header 3 1 4) ≡ noc_class_mp)
    × (src_of (header 3 1 4) ≡ 1)
    × (request_of (header 3 1 4) ≡ 4)
header_fields_example = header_fields 3 1 4 (omega arith) (omega arith) (omega arith)

abbrev no_registry : Registry
no_registry = record {
  elems = λ p. none;
  handles = λ p. none;
  eplist_first = 0;
  eplist_last = 0;
  eplist_localnum = 0;
  eplist_remotenum = 0;
}

abbrev tile : ℕ → (ℕ → Option Endpoint) → Tile
tile n endpoints = record {
  tileid = n;
  registry = no_registry;
  endpoints = endpoints;
  request = replicate 16 0;
  request_done = 0;
  timeout_insns = 1000;
}

abbrev local_end : Endpoint
local_end = record { buffer = ring; remotedomain = 0; remote = 0; remotecredit = 0 }

abbrev to_end : Handle
to_end = record { handle_type = 1; ep = 4096; domain = 3; node = 0; port = 0 }

abbrev receiver : Tile
receiver = tile 3 (λ p. if p == 4096 then some local_end else none)

msg_send-queues_example :
    Exchanged 9
      (0 ∷ 0 ∷ [])
      16
      (4 ∷ 5 ∷ 6 ∷ [])
      ((7 ∷ 8 ∷ []) ∷ [])
      to_end
      (tile 1 (λ p. none))
      receiver
      0
      0
      []
unfolding full
msg_send-queues_example =
    msg_send-queues 9 (0 ∷ 0 ∷ []) 16 (4 ∷ 5 ∷ 6 ∷ []) ((7 ∷ 8 ∷ []) ∷ []) to_end
      (tile 1 (λ p. none)) receiver 0 0 [] (omega arith) (omega arith) (omega arith) (omega arith)
      (omega arith) refl ring-IsValid ring-Queued refl (omega arith) (omega arith) (omega arith)

send_msg_data-overflow_example :
    send_msg_data to_end 0 (replicate 13 7) 52 (tile 1 (λ p. none)) ≡ fault
send_msg_data-overflow_example =
    send_msg_data-overflow to_end 0 (replicate 13 7) 52 (tile 1 (λ p. none)) refl refl (omega arith)
      (omega arith)

take_credit_lem_example :
    take_credit ((λ w. w + 4) ∷ (λ w. w) ∷ []) (record local_end { remotecredit = 2 })
    ≡ done (record local_end { remotecredit = 5 })
take_credit_lem_example =
    take_credit_lem ((λ w. w + 4) ∷ []) [] (record local_end { remotecredit = 2 }) (omega arith, tt)
