-- ===== src/LinkedList.antt =====
-- The doubly linked list of libruntime/list.c and libruntime/list.h. Entries lie in memory by their
-- address. `malloc` returns the address `fresh`, and `free` takes an entry out of memory.
pub mod Chain
pub mod Queue
pub mod Walk
pub mod Linked
pub mod Remove
pub mod Unused
pub mod Unlink
use optimsoc.Prelude.{
  ℕ, zero, suc, ◌+◌, Bool, true, false, ◌&&◌, Option, none, some, ◌==◌, if◌then◌else◌, add32, Run,
  done, blocked, fault, ◌>>=◌,
}
use optimsoc.Registry.{load, update}

pub record ListEntry : Type 0 where
  pub data_ptr : ℕ
  pub next : ℕ
  pub prev : ℕ

pub record OptimsocList : Type 0 where
  pub head : ℕ
  pub tail : ℕ

abbrev pub Entries : Type 0
Entries = ℕ → Option ListEntry

-- `p->next = n`
unfoldable pub set_next : (p n : ℕ) → Entries → Run Entries
set_next p n mem = do e ← load mem p; done (update mem p (some (record e { next = n })))

-- `p->prev = n`
unfoldable pub set_prev : (p n : ℕ) → Entries → Run Entries
set_prev p n mem = do e ← load mem p; done (update mem p (some (record e { prev = n })))

-- `optimsoc_list_init`
unfoldable pub list_init : (fresh d : ℕ) → Entries → OptimsocList × Entries
list_init fresh d mem = if d == 0 then (record { head = 0; tail = 0 }, mem) else (
  record { head = fresh; tail = fresh },
  update mem fresh (some (record { data_ptr = d; next = 0; prev = 0 })),
)

-- `optimsoc_list_add_tail`
unfoldable pub list_add_tail : (fresh d : ℕ) → OptimsocList → Entries → Run (OptimsocList × Entries)
list_add_tail fresh d l mem =
    let mem' = update mem fresh (some (record { data_ptr = d; next = 0; prev = l.tail })) in
    if l.tail == 0
    then done (record { head = fresh; tail = fresh }, mem')
    else do mem'' ← set_next l.tail fresh mem'; done (record l { tail = fresh }, mem'')

-- `optimsoc_list_add_head`
unfoldable pub list_add_head : (fresh d : ℕ) → OptimsocList → Entries → Run (OptimsocList × Entries)
list_add_head fresh d l mem =
    let mem' = update mem fresh (some (record { data_ptr = d; next = l.head; prev = 0 })) in
    if l.head == 0
    then done (record { head = fresh; tail = fresh }, mem')
    else do mem'' ← set_prev l.head fresh mem'; done (record l { head = fresh }, mem'')

-- `optimsoc_list_remove_tail`: 0 is the null pointer.
unfoldable pub list_remove_tail : OptimsocList → Entries → Run (ℕ × OptimsocList × Entries)
list_remove_tail l mem = if l.tail == 0 then done (0, l, mem) else do
  entry ← load mem l.tail
  let head = if entry.prev == 0 then 0 else l.head
  done (entry.data_ptr, record { head = head; tail = entry.prev }, update mem l.tail none)

-- `optimsoc_list_remove_head`
unfoldable pub list_remove_head : OptimsocList → Entries → Run (ℕ × OptimsocList × Entries)
list_remove_head l mem = if l.head == 0 then done (0, l, mem) else do
  entry ← load mem l.head
  let tail = if entry.next == 0 then 0 else l.tail
  done (entry.data_ptr, record { head = entry.next; tail = tail }, update mem l.head none)

-- The four cases of `optimsoc_list_remove`, for the entry `e` at `p`.
unfoldable pub unlink : (p : ℕ) → ListEntry → OptimsocList → Entries → Run (OptimsocList × Entries)
unlink p e l mem =
    if (p == l.head) && (p == l.tail)
    then done (record { head = 0; tail = 0 }, mem)
    else if e.prev == 0
    then (do mem' ← set_prev e.next 0 mem; done (record l { head = e.next }, mem'))
    else if e.next == 0
    then (do mem' ← set_next e.prev 0 mem; done (record l { tail = e.prev }, mem'))
    else (do
      mem' ← set_next e.prev e.next mem
      mem'' ← set_prev e.next e.prev mem'
      done (l, mem''))

-- The loop of `optimsoc_list_remove` from the entry at `p`: whether an entry was removed.
unfoldable pub list_remove_from :
    (fuel d p : ℕ) → OptimsocList → Entries → Run (Bool × OptimsocList × Entries)
list_remove_from zero d p l mem = blocked
list_remove_from (suc fuel) d p l mem =
    let rest = λ (n : ℕ). list_remove_from fuel d n l mem in
    if p == 0 then done (false, l, mem) else do
      e ← load mem p
      if e.data_ptr == d
          then (do (l', mem') ← unlink p e l mem; done (true, l', update mem' p none))
          else rest e.next

-- `optimsoc_list_remove`
unfoldable pub list_remove :
    (fuel d : ℕ) → OptimsocList → Entries → Run (Bool × OptimsocList × Entries)
list_remove fuel d l mem = list_remove_from fuel d l.head l mem

-- The loop of `optimsoc_list_contains`
unfoldable pub list_contains_from : (fuel d p : ℕ) → Entries → Run Bool
list_contains_from zero d p mem = blocked
list_contains_from (suc fuel) d p mem =
    let rest = λ (n : ℕ). list_contains_from fuel d n mem in
    if p == 0
    then done false
    else do e ← load mem p; if e.data_ptr == d then done true else rest e.next

-- `optimsoc_list_contains`
unfoldable pub list_contains : (fuel d : ℕ) → OptimsocList → Entries → Run Bool
list_contains fuel d l mem = list_contains_from fuel d l.head mem

-- The loop of `optimsoc_list_find_content_header`: `words` is the memory behind the data pointers.
unfoldable pub list_find_from : (fuel content p : ℕ) → (words : ℕ → Option ℕ) → Entries → Run ℕ
list_find_from zero content p words mem = blocked
list_find_from (suc fuel) content p words mem =
    let rest = λ (n : ℕ). list_find_from fuel content n words mem in
    if p == 0 then done 0 else do
      e ← load mem p
      word ← load words e.data_ptr
      if word == content then done e.data_ptr else rest e.next

-- `optimsoc_list_find_content_header`
unfoldable pub list_find_content_header :
    (fuel content : ℕ) → (words : ℕ → Option ℕ) → OptimsocList → Entries → Run ℕ
list_find_content_header fuel content words l mem = list_find_from fuel content l.head words mem

-- The loop of `optimsoc_list_length`
unfoldable pub list_length_from : (fuel count p : ℕ) → Entries → Run ℕ
list_length_from zero count p mem = blocked
list_length_from (suc fuel) count p mem =
    let rest = λ (n : ℕ). list_length_from fuel (add32 count 1) n mem in
    if p == 0 then done count else do e ← load mem p; rest e.next

-- `optimsoc_list_length`
unfoldable pub list_length : (fuel : ℕ) → OptimsocList → Entries → Run ℕ
list_length fuel l mem = list_length_from fuel 0 l.head mem

-- `optimsoc_list_first_element`: the data and the iterator.
unfoldable pub list_first_element : OptimsocList → Entries → Run (ℕ × ℕ)
list_first_element l mem =
    if l.head == 0 then done (0, 0) else do e ← load mem l.head; done (e.data_ptr, l.head)

-- `optimsoc_list_next_element`: the iterator stays at the last entry.
unfoldable pub list_next_element : (list_iter : ℕ) → Entries → Run (ℕ × ℕ)
list_next_element list_iter mem = do
  e ← load mem list_iter
  if e.next == 0 then done (0, list_iter) else do n ← load mem e.next; done (n.data_ptr, e.next)

-- The loop of `optimsoc_list_dma_copy` where `data_size` is 0: the DMA transfer reads the entry at
-- `remote_entry_next` of the other tile's memory `remote`, and `blocks` are the addresses that
-- `malloc` returns.
unfoldable pub list_dma_copy_from :
    (fuel remote_entry_next : ℕ)
    → Entries
    → (blocks : ℕ → ℕ) → OptimsocList
    → Entries
    → Run (OptimsocList × Entries)
list_dma_copy_from zero remote_entry_next remote blocks l mem = blocked
list_dma_copy_from (suc fuel) remote_entry_next remote blocks l mem =
    let rest = λ (n : ℕ) (l' : OptimsocList) (mem' : Entries).
      list_dma_copy_from fuel n remote (λ i. blocks (suc i)) l' mem' in
    if remote_entry_next == 0 then done (l, mem) else do
      e ← load remote remote_entry_next
      (l', mem') ← list_add_tail (blocks 0) e.data_ptr l mem
      rest e.next l' mem'

unfoldable pub list_dma_copy :
    (fuel : ℕ) → OptimsocList → Entries → (blocks : ℕ → ℕ) → Entries → Run (OptimsocList × Entries)
list_dma_copy fuel remote_list remote blocks mem =
    list_dma_copy_from fuel remote_list.head remote blocks (record { head = 0; tail = 0 }) mem
