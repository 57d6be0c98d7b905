-- ===== src/Taskdir.antt =====
-- The task directory of an application in the gzll kernel: gzll-kernel/src/taskdir.c and taskdir.h,
-- with the endpoint tables of gzll-kernel/src/mp.c and the mutex of libbaremetal/util.c.
pub mod View
pub mod Change
pub mod Register
pub mod Names
use optimsoc.Prelude.{
  ℕ, zero, suc, ◌+◌, ◌-◌, ◌^◌, ◌/◌, Bool, true, false, not, ◌&&◌, Option, none, some, List, [], ◌∷◌,
  ◌++◌, ltb, leb, ◌==◌, if◌then◌else◌, length, set, take, replicate, add32, mul32, Run, done,
  blocked, fault, ◌>>=◌, or_fault, read, store, assert,
}

-- `struct gzll_endpoint_table`: the handles of the ports, with 0 for none.
pub record EndpointTable : Type 0 where
  pub len : ℕ
  pub handles : List ℕ

-- `struct gzll_app_node`. A pointer that was never set is `none`.
pub record AppNode : Type 0 where
  pub identifier : Option (List ℕ)
  pub rank : ℕ
  pub nodeid : ℕ
  pub table : Option EndpointTable

pub record Taskdir : Type 0 where
  pub lock : ℕ
  pub size : ℕ
  pub tasks : List AppNode

abbrev pub invalid_nodeid : ℕ
invalid_nodeid = 0xffffffff

abbrev pub invalid_rank : ℕ
invalid_rank = 0xffff

-- `optimsoc_mutex_lock`: the test-and-set of the processor returns the old word and sets it. While
-- another holds the lock the loop spins.
unfoldable pub mutex_lock : ℕ → Run ℕ
mutex_lock mutex = if mutex == 0 then done 1 else blocked

-- `optimsoc_mutex_unlock`
abbrev pub mutex_unlock : ℕ
mutex_unlock = 0

-- `endpoint_table_init`
abbrev pub endpoint_table_init : EndpointTable
endpoint_table_init = record { len = 8; handles = replicate 8 0 }

-- `endpoint_table_add`
unfoldable pub endpoint_table_add : (port endpoint : ℕ) → EndpointTable → Run EndpointTable
endpoint_table_add port endpoint t =
    assert (ltb port t.len)
      (do handles ← store t.handles port endpoint; done (record t { handles = handles }))

-- `taskdir_initialize`
abbrev pub initialize : Taskdir
initialize = record { lock = 0; size = 0; tasks = [] }

-- The entry has a rank and a node.
abbrev pub mapped_entry : AppNode → Bool
mapped_entry e = not (e.rank == invalid_rank) && not (e.nodeid == invalid_nodeid)

-- The end of every function: the mutex is unlocked. `true` is the return value 0, `false` -1.
abbrev pub leave : Bool → Taskdir → Run (Bool × Taskdir)
leave b d = done (b, record d { lock = mutex_unlock })

-- `taskdir_task_delete`
unfoldable pub task_delete : (taskid : ℕ) → Taskdir → Run (Bool × Taskdir)
task_delete taskid d = do
  lock ← mutex_lock d.lock
  if not (ltb taskid d.size) then leave false d else do
    entry ← read d.tasks taskid
    if not (mapped_entry entry) then leave false d else do
      tasks ← store d.tasks taskid (record entry { rank = invalid_rank; nodeid = invalid_nodeid })
      leave true (record d { tasks = tasks })

-- An entry that the loop after `realloc` invalidates.
abbrev pub spare_entry : AppNode
spare_entry = record {
  identifier = none;
  rank = invalid_rank;
  nodeid = invalid_nodeid;
  table = none;
}

-- The entries after `realloc` to `n` of them, the new ones invalidated.
abbrev pub resize : (n : ℕ) → List AppNode → List AppNode
resize n tasks = take n tasks ++ replicate (n - length tasks) spare_entry

-- The expansion of the table. An entry takes 16 bytes, and a write behind the area that `realloc`
-- returned faults.
unfoldable pub expand : (taskid : ℕ) → Taskdir → Run Taskdir
expand taskid d =
    let new_size = add32 taskid 1 in
    if ltb (mul32 new_size 16 / 16) new_size
    then fault
    else done (record d { tasks = resize new_size d.tasks; size = new_size })

-- `taskdir_task_register` from where the table holds the task: the entry must be unused.
unfoldable pub enter_task :
    (taskid : ℕ) (identifier : List ℕ) (rank nodeid : ℕ) → Taskdir → Run (Bool × Taskdir)
enter_task taskid identifier rank nodeid d = do
  entry ← read d.tasks taskid
  if (entry.rank == invalid_rank) && (entry.nodeid == invalid_nodeid)
      then (do
        tasks ← store d.tasks taskid (record {
          identifier = some identifier;
          rank = rank;
          nodeid = nodeid;
          table = some endpoint_table_init;
        })
        leave true (record d { tasks = tasks }))
      else leave false d

-- `taskdir_task_register`
unfoldable pub task_register :
    (taskid : ℕ) (identifier : List ℕ) (rank nodeid : ℕ) → Taskdir → Run (Bool × Taskdir)
task_register taskid identifier rank nodeid d = do
  lock ← mutex_lock d.lock
  d' ← if leb d.size taskid then expand taskid d else done d
  enter_task taskid identifier rank nodeid d'

-- `taskdir_task_remap`
unfoldable pub task_remap :
    (taskid old_rank new_rank old_nodeid new_nodeid : ℕ) → Taskdir → Run (Bool × Taskdir)
task_remap taskid old_rank new_rank old_nodeid new_nodeid d = do
  lock ← mutex_lock d.lock
  if not (ltb taskid d.size) then leave false d else do
    entry ← read d.tasks taskid
    if not ((entry.rank == old_rank) && (entry.nodeid == old_nodeid)) then leave false d else do
      tasks ← store d.tasks taskid (record entry { rank = new_rank; nodeid = new_nodeid })
      leave true (record d { tasks = tasks })

-- `taskdir_mapping_lookup`: `some` is the return value 0 with rank and node.
unfoldable pub mapping_lookup : (taskid : ℕ) → Taskdir → Run (Option (ℕ × ℕ) × Taskdir)
mapping_lookup taskid d = do
  lock ← mutex_lock d.lock
  if not (ltb taskid d.size) then done (none, record d { lock = mutex_unlock }) else do
    entry ← read d.tasks taskid
    let found = if mapped_entry entry then some (entry.rank, entry.nodeid) else none
    done (found, record d { lock = mutex_unlock })

-- `strcmp(s, t) == 0`
unfoldable pub same_text : (s t : List ℕ) → Bool
same_text [] [] = true
same_text [] (y ∷ t) = false
same_text (x ∷ s) [] = false
same_text (x ∷ s) (y ∷ t) = (x == y) && same_text s t

-- The loop of `taskdir_taskid_lookup`, over `n` entries from `i`.
unfoldable pub taskid_loop : (identifier : List ℕ) (i n : ℕ) → List AppNode → Run (Option ℕ)
taskid_loop identifier i zero tasks = done none
taskid_loop identifier i (suc n) tasks =
    let rest = taskid_loop identifier (suc i) n tasks in
    do
      entry ← read tasks i
      text ← or_fault entry.identifier
      if same_text text identifier then done (some i) else rest

-- `taskdir_taskid_lookup`
unfoldable pub taskid_lookup : (identifier : List ℕ) → Taskdir → Run (Option ℕ × Taskdir)
taskid_lookup identifier d = do
  lock ← mutex_lock d.lock
  found ← taskid_loop identifier 0 d.size d.tasks
  done (found, record d { lock = mutex_unlock })
