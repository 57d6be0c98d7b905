-- ===== src/Vmm/DirCopy.antt =====
-- `optimsoc_vmm_dir_copy` of libruntime/vmm.c: the copy of a page directory of another tile, with its pages,
-- by DMA. `remote` has the blocks of the other tile, and `contents` the words of its pages, by their
-- addresses.
pub mod Frames
pub mod Tables
pub mod Copies
pub mod Directory
pub mod Words
use optimsoc.Prelude.{
  ℕ, zero, suc, ◌^◌, Option, some, List, ◌==◌, if◌then◌else◌, mul32, Run, done, ◌>>=◌, read,
}
use optimsoc.Registry.{load, update}
use optimsoc.Runtime.{Queue}
use optimsoc.Vmm.{
  Blocks, create_page_dir, create_page_table, poke, table_entry, page_entry, pte_present_get,
  pte_ppn_get, addr_pn_set, ptable,
}

-- What the copy changes: the tables of this tile, its pool of pages, and the words of its pages. The
-- tables and the pages are two memories: no page of the pool lies where a table is.
pub record CopyState : Type 0 where
  pub tables : Blocks
  pub pool : Queue
  pub pages : ℕ → Option (List ℕ)

-- One entry of a table: a new page, which `page_alloc_fnc` takes from the pool, is put into the local
-- table and gets the words of the remote one.
unfoldable pub copy_page :
    (page_alloc_fnc : Queue → Run (ℕ × Queue))
    → (contents : ℕ → Option (List ℕ)) (local_table table_index pte : ℕ) → CopyState
    → Run CopyState
copy_page page_alloc_fnc contents local_table table_index pte st = do
  (page, pool) ← page_alloc_fnc st.pool
  let local_page = mul32 page (2 ^ 13)
  tables ← poke local_table table_index (page_entry local_page) st.tables
  words ← load contents (addr_pn_set 0 (pte_ppn_get pte))
  done (record { tables = tables; pool = pool; pages = update st.pages local_page (some words) })

-- The inner loop, over `n` entries from `table_index`.
unfoldable pub copy_entries :
    (page_alloc_fnc : Queue → Run (ℕ × Queue))
    → (contents : ℕ → Option (List ℕ)) (local_table table_index n : ℕ) → (remote_table : List ℕ)
    → CopyState
    → Run CopyState
copy_entries page_alloc_fnc contents local_table table_index zero remote_table st = done st
copy_entries page_alloc_fnc contents local_table table_index (suc n) remote_table st =
    let rest = λ (st' : CopyState).
      copy_entries page_alloc_fnc contents local_table (suc table_index) n remote_table st' in
    do
      pte ← read remote_table table_index
      st' ←
          if pte_present_get pte == 0
          then done st
          else copy_page page_alloc_fnc contents local_table table_index pte st
      rest st'

-- One entry of the directory: a new table, at the address `fresh`.
unfoldable pub copy_table :
    (page_alloc_fnc : Queue → Run (ℕ × Queue))
    → (contents : ℕ → Option (List ℕ)) (remote : Blocks) (fresh local_dir dir_index dirpte : ℕ)
    → CopyState
    → Run CopyState
copy_table page_alloc_fnc contents remote fresh local_dir dir_index dirpte st = do
  tables ← poke local_dir dir_index (table_entry 0 fresh) (create_page_table fresh st.tables)
  remote_table ← load remote (ptable dirpte)
  copy_entries page_alloc_fnc contents fresh 0 2048 remote_table (record st { tables = tables })

-- The outer loop, over `n` entries from `dir_index`: the table for the entry `i` is at `blocks i`.
unfoldable pub copy_tables :
    (page_alloc_fnc : Queue → Run (ℕ × Queue))
    → (contents : ℕ → Option (List ℕ)) (remote : Blocks) (blocks : ℕ → ℕ)
    → (local_dir dir_index n : ℕ) → (remote_dir : List ℕ) → CopyState
    → Run CopyState
copy_tables page_alloc_fnc contents remote blocks local_dir dir_index zero remote_dir st = done st
copy_tables page_alloc_fnc contents remote blocks local_dir dir_index (suc n) remote_dir st =
    let rest = λ (st' : CopyState).
      copy_tables page_alloc_fnc contents remote blocks local_dir (suc dir_index) n remote_dir
        st' in
    do
      dirpte ← read remote_dir dir_index
      st' ←
          if pte_present_get dirpte == 1
          then copy_table page_alloc_fnc contents remote (blocks dir_index) local_dir dir_index
              dirpte st
          else done st
      rest st'

-- `optimsoc_vmm_dir_copy`: the new directory is at `local_dir`. The two buffers are freed again.
unfoldable pub dir_copy :
    (page_alloc_fnc : Queue → Run (ℕ × Queue))
    → (contents : ℕ → Option (List ℕ)) (remote : Blocks) (blocks : ℕ → ℕ)
    → (local_dir remote_addr : ℕ) → CopyState
    → Run (ℕ × CopyState)
dir_copy page_alloc_fnc contents remote blocks local_dir remote_addr st = do
  remote_dir ← load remote remote_addr
  st' ←
      copy_tables page_alloc_fnc contents remote blocks local_dir 0 256 remote_dir
        (record st { tables = create_page_dir local_dir st.tables })
  done (local_dir, st')
