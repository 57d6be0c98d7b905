-- ===== src/Endpoint/Create.antt =====
-- What `endpoint_create` sets up: a valid ring with no message, if the slots are whole words.
use optimsoc.Prelude.{
  ℕ, ◌+◌, ◌*◌, ◌/◌, ◌%◌, ◌^◌, ◌≡◌, ◌≢◌, ◌≤◌, ◌<◌, ◌↔◌, ◌⊎◌, refl, ap, ◌∙◌, [], some, arith,
  tabulate, length-tabulate_from, get_elem?, get_elem?-tabulate_from, mul32, done, lt→ltb,
}
use native.Mathlib.Decide.{ℕ_discrete}
use optimsoc.Endpoint.{BufferType, message, channel, Buffer, create, element_bytes, words_of}
use optimsoc.Endpoint.Inv.{IsValid}
use optimsoc.Endpoint.Message.{slot-room}
use optimsoc.Endpoint.Fifo.{Queued}

-- The buffer that `create` returns.
abbrev created : (junk : ℕ → ℕ) (bytes buffer_size : ℕ) → Buffer
created junk bytes buffer_size = record {
  slots = tabulate (λ i. mul32 i (words_of bytes)) buffer_size;
  field = tabulate junk (mul32 bytes buffer_size / 4);
  data_size = tabulate junk buffer_size;
  buffer_type = message;
  size = buffer_size;
  read_ptr = 0;
  write_ptr = 0;
}

create_lem :
    (junk : ℕ → ℕ) (buffer_type : BufferType) (buffer_size overwrite_max_size : ℕ)
    → buffer_size < 2 ^ 30
    → create junk buffer_type buffer_size overwrite_max_size
      ≡ done (created junk (element_bytes buffer_type overwrite_max_size) buffer_size)
unfolding create
create_lem junk buffer_type buffer_size overwrite_max_size h =
    let small = lt→ltb buffer_size (2 ^ 30) h in rw small

whole_words : (bytes n : ℕ) → bytes % 4 ≡ 0 → bytes < 2 ^ 31 → bytes * n ≡ 4 * (n * words_of bytes)
whole_words bytes n e h =
    let four : bytes ≡ 4 * words_of bytes = omega arith in ap (λ (t : ℕ). t * n) four ∙ omega arith

mul_mono : (x y n : ℕ) → x ≤ y → x * n ≤ y * n
mul_mono x y n h = grind arith

part_word :
    (bytes n : ℕ) → bytes % 4 ≢ 0 → bytes < 2 ^ 31 → bytes * n + n ≤ 4 * (n * words_of bytes)
part_word bytes n ne h =
    let more : bytes + 1 ≤ 4 * words_of bytes = omega arith in mul_le n bytes (words_of bytes) more
  where
    mul_le : (n a b : ℕ) → a + 1 ≤ 4 * b → a * n + n ≤ 4 * (n * b)
    mul_le n a b h = omega (arith, mul_mono (a + 1) (4 * b) n h)

-- The slots fit the area that `malloc` gives exactly if a slot is a whole number of words.
pub slots_fit :
    (bytes n : ℕ)
    → 0 < n
    → bytes < 2 ^ 31
    → 4 * (n * words_of bytes) < 2 ^ 32
    → (n * words_of bytes ≤ mul32 bytes n / 4) ↔ (bytes % 4 ≡ 0)
slots_fit bytes n pos h area = (
  λ k. elim (ℕ_discrete (bytes % 4) 0) [
    | yes e ↦ e
    | no ne ↦ absurd (omega (arith, part_word bytes n ne h))
  ],
  λ e. omega (arith, whole_words bytes n e h),
)

-- How many bytes a slot is created for: the size that is given, where that is a positive `int`, and 64
-- for a message as for a packet of a channel otherwise.
abbrev pub IsSlotSize : (overwrite_max_size bytes : ℕ) → Type 0
IsSlotSize overwrite_max_size bytes =
    ((0 < overwrite_max_size) × (overwrite_max_size < 2 ^ 31) × (bytes ≡ overwrite_max_size))
    ⊎ (((overwrite_max_size ≡ 0) ⊎ (2 ^ 31 ≤ overwrite_max_size)) × (bytes ≡ 64))

slot_size :
    (buffer_type : BufferType) (overwrite_max_size bytes : ℕ)
    → IsSlotSize overwrite_max_size bytes
    → element_bytes buffer_type overwrite_max_size ≡ bytes
unfolding element_bytes
slot_size message overwrite_max_size bytes h = ground arith
slot_size channel overwrite_max_size bytes h = ground arith

-- The slots are apart by whole words.
created-slot :
    (junk : ℕ → ℕ) (bytes n i : ℕ)
    → i < n
    → 4 * (n * words_of bytes) < 2 ^ 32
    → get_elem? (created junk bytes n).slots i ≡ some (i * words_of bytes)
created-slot junk bytes n i h area =
    get_elem?-tabulate_from (λ j. mul32 j (words_of bytes)) 0 n i h
    ∙ ap some (omega (arith, slot-room i n (words_of bytes) h))

created-IsValid :
    (junk : ℕ → ℕ) (bytes n : ℕ)
    → 0 < n
    → n < 2 ^ 30
    → bytes < 2 ^ 31
    → 4 * (n * words_of bytes) < 2 ^ 32
    → IsValid (words_of bytes) (created junk bytes n) ↔ (bytes % 4 ≡ 0)
created-IsValid junk bytes n some_slots small h area =
    let length_field = length-tabulate_from junk 0 (mul32 bytes n / 4) in
    let fit = slots_fit bytes n some_slots h area in
    (
      λ v. fit.0 (rw (← length_field) v.room),
      λ whole. record {
        small = omega arith;
        read_in = some_slots;
        write_in = some_slots;
        sizes = length-tabulate_from junk 0 n;
        slots = λ i hi. created-slot junk bytes n i hi area;
        room = rw length_field (fit.1 whole);
        area_small = area;
      },
    )

-- A new endpoint has an empty ring of the slots that were asked for, each with its bytes
-- rounded up to whole words. It is a valid ring, whose slots lie in the allocated area, exactly if these
-- bytes are a multiple of four. A slot has as many bytes as is given, where that is a positive `int`,
-- and 64 otherwise; there are at least one slot and fewer than 2 ^ 30, and they fit the address space.
pub create-IsValid :
    (junk : ℕ → ℕ) (buffer_type : BufferType) (buffer_size overwrite_max_size bytes words : ℕ)
    → 0 < buffer_size
    → buffer_size < 2 ^ 30
    → IsSlotSize overwrite_max_size bytes
    → words ≡ (bytes + 3) / 4
    → 4 * (buffer_size * words) < 2 ^ 32
    → (b : Buffer) × (create junk buffer_type buffer_size overwrite_max_size ≡ done b)
      × (b.size ≡ buffer_size)
      × Queued words b []
      × ((i : ℕ) → i < buffer_size → get_elem? b.slots i ≡ some (i * words))
      × (IsValid words b ↔ (bytes % 4 ≡ 0))
create-IsValid junk buffer_type buffer_size overwrite_max_size bytes words some_slots small size
      round_up area =
    let h : bytes < 2 ^ 31 = ground arith in
    let same : words_of bytes ≡ words = omega arith in
    let area' : 4 * (buffer_size * words_of bytes) < 2 ^ 32 = rw same area in
    (
      created junk bytes buffer_size,
      create_lem junk buffer_type buffer_size overwrite_max_size small
          ∙ ap (λ (k : ℕ). done (created junk k buffer_size))
              (slot_size buffer_type overwrite_max_size bytes size),
      refl,
      refl,
      λ i hi. rw (← same) (created-slot junk bytes buffer_size i hi area'),
      rw (← same) (created-IsValid junk bytes buffer_size some_slots small h area'),
    )
