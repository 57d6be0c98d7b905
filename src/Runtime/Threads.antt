-- ===== src/Runtime/Threads.antt =====
-- The threads: libruntime/thread.c.
use optimsoc.Prelude.{
  ℕ, zero, suc, ◌+◌, ◌/◌, ◌%◌, not, ◌&&◌, Option, none, some, List, [], ◌∷◌, ◌++◌, ◌==◌,
  if◌then◌else◌, add32, set, take, replicate, Run, done, blocked, ◌>>=◌, assert,
}
use optimsoc.Registry.{load}
use optimsoc.Sync.{Cas}
use optimsoc.LinkedList.{list_dma_copy, list_length}
use optimsoc.Runtime.{
  Runtime, Thread, Queue, thread_runnable, thread_suspended, is_runnable, is_suspended, new_queue,
  enqueue, dequeue, discard, put_thread, has_flag, flag_kernel, flag_forceid, flag_create_suspended,
  context_enter_exception, context_replace,
}
use optimsoc.Runtime.Scheduler.{scheduler_get_current, scheduler_add, to_ready, to_wait, schedule}

-- `optimsoc_thread_set_pagedir`
unfoldable pub thread_set_pagedir : (t dir : ℕ) → Runtime → Run Runtime
thread_set_pagedir t dir s = do
  th ← assert (not (t == 0)) (load s.threads t)
  done (put_thread t (record th { page_dir = dir }) s)

-- `optimsoc_thread_get_pagedir`
unfoldable pub thread_get_pagedir : (t : ℕ) → Runtime → Run ℕ
thread_get_pagedir t s = do th ← assert (not (t == 0)) (load s.threads t); done th.page_dir

-- `_optimsoc_thread_get_pagedir_current`
unfoldable pub thread_get_pagedir_current : (c : ℕ) → Runtime → Run ℕ
thread_get_pagedir_current c s = do
  t ← scheduler_get_current c s
  assert (not (t == 0)) (thread_get_pagedir t s)

-- `optimsoc_thread_set_extra_data`
unfoldable pub thread_set_extra_data : (t extra : ℕ) → Runtime → Run Runtime
thread_set_extra_data t extra s = do
  th ← load s.threads t
  done (put_thread t (record th { extra_data = extra }) s)

-- `optimsoc_thread_get_extra_data`
unfoldable pub thread_get_extra_data : (t : ℕ) → Runtime → Run ℕ
thread_get_extra_data t s = do th ← load s.threads t; done th.extra_data

-- `struct optimsoc_thread_attr`
pub record ThreadAttr : Type 0 where
  pub args : ℕ
  pub flags : ℕ
  pub force_id : ℕ
  pub identifier : ℕ
  pub extra_data : ℕ

-- `optimsoc_thread_attr_init`
unfoldable pub thread_attr_init : ThreadAttr → ThreadAttr
thread_attr_init attr = record attr { args = 0; flags = 0; force_id = 0; identifier = 0 }

-- The addresses that `malloc` returns in `optimsoc_thread_create`, in the order of the calls.
pub record CreateBlocks : Type 0 where
  pub control_block : ℕ
  pub stack_block : ℕ
  pub queue_entry : ℕ
  pub all_entry : ℕ

-- `_optimsoc_context_create`: `kthread_handle` is the address of `_optimsoc_kthread_handle`.
unfoldable pub context_create : (stack_block kthread_handle start arg : ℕ) → Thread → Thread
context_create stack_block kthread_handle start arg th =
    let regs = replicate 32 0 in
    if has_flag th.flags flag_kernel
    then record th {
      stack = stack_block;
      ctx = record {
        regs = set (set (set regs 1 (add32 stack_block 4092)) 3 start) 4 arg;
        pc = kthread_handle;
        sr = 0x8017;
      };
    }
    else record th {
      stack = 0;
      ctx = record { regs = set (set regs 1 0xfffffffc) 3 arg; pc = start; sr = 0x8077 };
    }

-- The loop on `_optimsoc_thread_next_id`: the id taken, and the next id. `rounds` is what the other
-- cores do between the load and the compare-and-swap of each round.
unfoldable pub take_id : ⦃cpu : Cas⦄ → (rounds : List (ℕ → ℕ)) → (next_id : ℕ) → Run (ℕ × ℕ)
take_id [] next_id = blocked
take_id ⦃cpu⦄ (others ∷ rounds) next_id =
    let (old, now) = cpu.cas (others next_id) next_id (add32 next_id 1) in
    let retry = take_id rounds now in if old == next_id then done (next_id, now) else retry

-- The decimal digits of a number, for `%lu`.
abbrev pub digits_onto : (fuel n : ℕ) → List ℕ → List ℕ
digits_onto zero n text = text
digits_onto (suc fuel) n text =
    let text' = (48 + n % 10) ∷ text in
    let rest = digits_onto fuel (n / 10) text' in if n / 10 == 0 then text' else rest

-- "thread <id>"
unfoldable pub thread_name : (id : ℕ) → List ℕ
thread_name id = take 63 ((116 ∷ 104 ∷ 114 ∷ 101 ∷ 97 ∷ 100 ∷ 32 ∷ []) ++ digits_onto 10 id [])

-- The part of `optimsoc_thread_create` that sets the name. Where no identifier is given the code
-- copies it: `texts` is the memory of strings, which has none at 0.
unfoldable pub create_name : (identifier id : ℕ) → (texts : ℕ → Option (List ℕ)) → Run (List ℕ)
create_name identifier id texts =
    if identifier == 0
    then (do text ← load texts identifier; done (take 64 text))
    else done (thread_name id)

-- The end of `optimsoc_thread_create`: the new thread enters its queue and the list of all threads.
unfoldable pub enter_queues : CreateBlocks → (flags : ℕ) → Runtime → Run Runtime
enter_queues blocks flags s = do
  let t = blocks.control_block
  s' ←
      if has_flag flags flag_create_suspended
      then scheduler_add blocks.queue_entry t to_wait s
      else scheduler_add blocks.queue_entry t to_ready s
  th ← load s'.threads t
  let state = if has_flag flags flag_create_suspended then thread_suspended else thread_runnable
  all ← enqueue blocks.all_entry t s'.all_threads
  done (record (put_thread t (record th { state = state }) s') { all_threads = all })

-- The attributes of `optimsoc_thread_create`, or the default ones.
unfoldable pub given_attr : (attr_block : ThreadAttr) → Option ThreadAttr → ThreadAttr
given_attr attr_block none = thread_attr_init attr_block
given_attr attr_block (some attr) = attr

-- `optimsoc_thread_create`: the new thread and the state. `raw` is what the control block holds when
-- `malloc` returns it, and `attr_block` likewise.
unfoldable pub thread_create :
    ⦃cpu : Cas⦄
    → CreateBlocks
    → (raw : Thread) (attr_block : ThreadAttr) (rounds : List (ℕ → ℕ))
    → (texts : ℕ → Option (List ℕ)) (kthread_handle start : ℕ) → Option ThreadAttr
    → Runtime
    → Run (ℕ × Runtime)
thread_create blocks raw attr_block rounds texts kthread_handle start given s = do
  let attr = given_attr attr_block given
  let th =
      context_create blocks.stack_block kthread_handle start attr.args
        (record raw { flags = attr.flags })
  (id, next_id) ←
      if has_flag attr.flags flag_forceid
      then done (attr.force_id, s.thread_next_id)
      else take_id rounds s.thread_next_id
  name ← create_name attr.identifier id texts
  let th' = record th { id = id; name = name; joinlist = new_queue 0 0 }
  s' ←
      enter_queues blocks attr.flags
        (put_thread blocks.control_block th' (record s { thread_next_id = next_id }))
  done (blocks.control_block, s')

-- What follows the choice of a new thread where a kernel thread gives up its core.
unfoldable pub leave_core : (c : ℕ) → Runtime → Run Runtime
leave_core c s = do s' ← schedule c s; next ← scheduler_get_current c s'; context_replace c next s'

-- `optimsoc_thread_yield`: a thread that yields itself must be a kernel thread.
unfoldable pub thread_yield : (fuel fresh c t : ℕ) → Runtime → Run Runtime
thread_yield fuel fresh c t s = do
  current ← scheduler_get_current c s
  (_, q) ← discard fuel t s.ready_q
  q' ← enqueue fresh t q
  let s' = record s { ready_q = q' }
  if t == current
      then (do
        th ← load s'.threads t
        s'' ← assert (has_flag th.flags flag_kernel) (context_enter_exception c current s')
        leave_core c s'')
      else done s'

-- The loop of `optimsoc_thread_exit`: the waiting threads are taken from the list, and not resumed.
unfoldable pub drain_joinlist : (fuel : ℕ) → Queue → Run Queue
drain_joinlist zero q = blocked
drain_joinlist (suc fuel) q =
    let rest = λ (q' : Queue). drain_joinlist fuel q' in
    do (t, q') ← dequeue q; if t == 0 then done q' else rest q'

-- `optimsoc_thread_exit`
unfoldable pub thread_exit : (fuel c : ℕ) → Runtime → Run Runtime
thread_exit fuel c s = do
  t ← scheduler_get_current c s
  th ← load s.threads t
  joinlist ← drain_joinlist fuel th.joinlist
  (_, all) ← discard fuel t s.all_threads
  schedule c (record (put_thread t (record th { joinlist = joinlist }) s) { all_threads = all })

-- `_optimsoc_kthread_handle` after the function of the thread has returned.
unfoldable pub kthread_return : (fuel c : ℕ) → Runtime → Run Runtime
kthread_return fuel c s = do
  t ← scheduler_get_current c s
  s' ← context_enter_exception c t s
  s'' ← thread_exit fuel c s'
  next ← scheduler_get_current c s''
  context_replace c next s''

-- The thread enters the queue of the suspended ones.
unfoldable pub put_to_wait : (fresh t : ℕ) → Runtime → Run Runtime
put_to_wait fresh t s = do
  q ← enqueue fresh t s.wait_q
  th ← load s.threads t
  done (record (put_thread t (record th { state = thread_suspended }) s) { wait_q = q })

-- `optimsoc_thread_suspend`
unfoldable pub thread_suspend : (fuel fresh c t : ℕ) → Runtime → Run Runtime
thread_suspend fuel fresh c t s = do
  th ← load s.threads t
  current ← assert (is_runnable th.state) (scheduler_get_current c s)
  if t == current
      then (do
        s' ← assert (has_flag th.flags flag_kernel) (context_enter_exception c current s)
        s'' ← put_to_wait fresh t s'
        leave_core c s'')
      else (do
        (removed, q) ← discard fuel t s.ready_q
        assert removed (put_to_wait fresh t (record s { ready_q = q })))

-- `optimsoc_thread_resume`
unfoldable pub thread_resume : (fuel fresh t : ℕ) → Runtime → Run Runtime
thread_resume fuel fresh t s = do
  th ← load s.threads t
  (removed, w) ← assert (is_suspended th.state) (discard fuel t s.wait_q)
  q ← assert removed (enqueue fresh t s.ready_q)
  done (record (put_thread t (record th { state = thread_runnable }) s) { wait_q = w; ready_q = q })

-- `optimsoc_thread_remove`
unfoldable pub thread_remove : (fuel t : ℕ) → Runtime → Run Runtime
thread_remove fuel t s = do
  (removed, q) ← discard fuel t s.ready_q
  (listed, all) ← assert removed (discard fuel t s.all_threads)
  th ← assert listed (load s.threads t)
  done (record s { ready_q = q; all_threads = all })

-- `optimsoc_thread_add`: the entries are at `all_entry` and `ready_entry`.
unfoldable pub thread_add : (all_entry ready_entry t : ℕ) → Runtime → Run Runtime
thread_add all_entry ready_entry t s = do
  th ← load s.threads t
  all ← assert (is_runnable th.state) (enqueue all_entry t s.all_threads)
  q ← enqueue ready_entry t s.ready_q
  done (record s { all_threads = all; ready_q = q })

-- `optimsoc_thread_dma_copy`: the control block `remote` was read from the other tile, and so is what
-- it points to, with the entries of its list of joining threads. `block` is the local control block.
unfoldable pub thread_dma_copy :
    ⦃cpu : Cas⦄
    → (fuel block : ℕ) (blocks : ℕ → ℕ) (rounds : List (ℕ → ℕ)) → (remote : Thread) → Runtime
    → Run (ℕ × Runtime)
thread_dma_copy fuel block blocks rounds remote s = do
  (id, next_id) ← take_id rounds s.thread_next_id
  (l, mem) ←
      assert ((remote.stack == 0) && is_runnable remote.state)
        (list_dma_copy fuel remote.joinlist.list remote.joinlist.entries blocks (λ _. none))
  len ← list_length fuel l mem
  let local_thread = record remote {
    id = id;
    page_dir = 0;
    exit_code = 0;
    joinlist = record { list = l; entries = mem };
    extra_data = 0;
  }
  assert (len == 0)
      (done (block, put_thread block local_thread (record s { thread_next_id = next_id })))
