-- ===== src/Runtime/Create.antt =====
-- The creation of threads: `optimsoc_thread_create` of libruntime/thread.c.
use optimsoc.Prelude.{
  ℕ, ◌+◌, ◌%◌, ◌^◌, ◌<◌, ◌≡◌, ◌≢◌, refl, ◌∙◌, ◌⊎◌, inl, inr, Bool, true, false, Option, none, some,
  List, [], ◌∷◌, ◌++◌, ◌==◌, if◌then◌else◌, add32, arith, done, fault, ◌>>=◌, Bool-cases,
}
use optimsoc.Sync.{Cas}
use optimsoc.Registry.{load, update}
use optimsoc.Runtime.{
  Runtime, Thread, thread_runnable, thread_suspended, put_thread, has_flag, flag_forceid,
  flag_create_suspended,
}
use optimsoc.Runtime.Scheduler.{scheduler_add}
use optimsoc.Runtime.Threads.{
  ThreadAttr, CreateBlocks, thread_attr_init, take_id, create_name, enter_queues, given_attr,
  thread_create,
}
use optimsoc.Runtime.Queues.{Holds, enqueue-Holds}
use optimsoc.Runtime.Prepare.{is_set, Prepared, new_thread, new_thread-Prepared}

-- Where the new thread stands: in the ready queue, or suspended among the waiting threads.
pub record Entered (s s' : Runtime) (t : ℕ) (th : Thread) (suspended : Bool) (ts ws al : List ℕ)
    : Type 0 where
  pub ready_back : ℕ
  pub ready : Holds ready_back s'.ready_q (if suspended then ts else ts ++ (t ∷ []))
  pub wait : Holds 0 s'.wait_q (if suspended then ws ++ (t ∷ []) else ws)
  pub all : Holds 0 s'.all_threads (al ++ (t ∷ []))
  pub control_block :
      s'.threads t
      ≡ some (record th { state = if suspended then thread_suspended else thread_runnable })
  pub other_threads : (u : ℕ) → u ≢ t → s'.threads u ≡ s.threads u

enter-ready :
    (s : Runtime) (blocks : CreateBlocks) (flags b : ℕ) (th : Thread) (ts ws al : List ℕ)
    → has_flag flags flag_create_suspended ≡ false
    → s.threads blocks.control_block ≡ some th
    → blocks.control_block ≢ 0
    → Holds b s.ready_q ts
    → Holds 0 s.wait_q ws
    → Holds 0 s.all_threads al
    → blocks.queue_entry ≢ 0
    → s.ready_q.entries blocks.queue_entry ≡ none
    → blocks.all_entry ≢ 0
    → s.all_threads.entries blocks.all_entry ≡ none
    → (s' : Runtime) × (enter_queues blocks flags s ≡ done s')
      × (s'.thread_next_id ≡ s.thread_next_id)
      × Entered s s' blocks.control_block th false ts ws al
unfolding enter_queues scheduler_add load update
enter-ready s blocks flags b th ts ws al active there nonzero ready wait all ne free ne' free' =
    let t = blocks.control_block in
    let off : (t == 0) ≡ false = ground arith in
    let hit : (t == t) ≡ true = ground arith in
    let (q, back, added, kept, ready') = enqueue-Holds ready blocks.queue_entry t ne free in
    let (al', back', listed, kept', all') = enqueue-Holds all blocks.all_entry t ne' free' in
    let runnable : Thread = record th { state = thread_runnable } in
    let s1 : Runtime = record (put_thread t runnable s) { ready_q = q } in
    (
      record (put_thread t runnable s1) { all_threads = al' },
      rw (active, off, there, added, hit, listed) refl,
      refl,
      record {
        ready_back = back;
        ready = ready';
        wait = wait;
        all = rw (kept' refl) at all';
        control_block = rw hit refl;
        other_threads = λ u apart. ground arith;
      },
    )

enter-wait :
    (s : Runtime) (blocks : CreateBlocks) (flags b : ℕ) (th : Thread) (ts ws al : List ℕ)
    → has_flag flags flag_create_suspended ≡ true
    → s.threads blocks.control_block ≡ some th
    → blocks.control_block ≢ 0
    → Holds b s.ready_q ts
    → Holds 0 s.wait_q ws
    → Holds 0 s.all_threads al
    → blocks.queue_entry ≢ 0
    → s.wait_q.entries blocks.queue_entry ≡ none
    → blocks.all_entry ≢ 0
    → s.all_threads.entries blocks.all_entry ≡ none
    → (s' : Runtime) × (enter_queues blocks flags s ≡ done s')
      × (s'.thread_next_id ≡ s.thread_next_id)
      × Entered s s' blocks.control_block th true ts ws al
unfolding enter_queues scheduler_add load update
enter-wait s blocks flags b th ts ws al suspended there nonzero ready wait all ne free ne' free' =
    let t = blocks.control_block in
    let off : (t == 0) ≡ false = ground arith in
    let hit : (t == t) ≡ true = ground arith in
    let (q, back, added, kept, wait') = enqueue-Holds wait blocks.queue_entry t ne free in
    let (al', back', listed, kept', all') = enqueue-Holds all blocks.all_entry t ne' free' in
    let stopped : Thread = record th { state = thread_suspended } in
    (
      record (put_thread t stopped (record s { wait_q = q })) { all_threads = al' },
      rw (suspended, off, added, there, listed) refl,
      refl,
      record {
        ready_back = b;
        ready = ready;
        wait = rw (kept refl) at wait';
        all = rw (kept' refl) at all';
        control_block = rw hit refl;
        other_threads = λ u apart. ground arith;
      },
    )

module _ ⦃cpu : Cas⦄ where
  take_id-alone :
      (rounds : List (ℕ → ℕ)) (next_id : ℕ)
      → take_id ((λ w. w) ∷ rounds) next_id ≡ done (next_id, add32 next_id 1)
  unfolding take_id
  take_id-alone rounds next_id =
      let hit : (next_id == next_id) ≡ true = ground arith in
      rw (cpu.cas_hit next_id (add32 next_id 1), hit) refl

  -- A thread that is created with a name gets the next id, and a control block with a name from that
  -- id, the flags of its attributes, and the stack, the program counter, the status and the registers
  -- with which a kernel thread or another thread starts. It enters the ready queue, or with the flag
  -- OPTIMSOC_THREAD_FLAG_CREATE_SUSPENDED the queue of the waiting ones, at its end, and the
  -- list of all threads. The next id is a 32-bit word and not forced, no other core takes one meanwhile, and the blocks are at addresses
  -- that are not in use.
  pub thread_create_lem :
      (s : Runtime) (blocks : CreateBlocks) (raw : Thread) (attr_block attr : ThreadAttr)
      (rounds : List (ℕ → ℕ)) (texts : ℕ → Option (List ℕ)) (kthread_handle start b : ℕ)
      (ts ws al : List ℕ)
      → is_set attr.flags 30 ≡ false
      → attr.identifier ≢ 0
      → s.thread_next_id < 2 ^ 32
      → blocks.control_block ≢ 0
      → s.threads blocks.control_block ≡ none
      → Holds b s.ready_q ts
      → Holds 0 s.wait_q ws
      → Holds 0 s.all_threads al
      → blocks.queue_entry ≢ 0
      → s.ready_q.entries blocks.queue_entry ≡ none
      → s.wait_q.entries blocks.queue_entry ≡ none
      → blocks.all_entry ≢ 0
      → s.all_threads.entries blocks.all_entry ≡ none
      → (s' : Runtime) × (th : Thread) × (thread_create blocks raw attr_block
            ((λ w. w) ∷ rounds)
            texts
            kthread_handle
            start
            (some attr)
            s
          ≡ done (blocks.control_block, s'))
        × (s'.thread_next_id ≡ (s.thread_next_id + 1) % 2 ^ 32)
        × Prepared blocks.stack_block kthread_handle start s.thread_next_id attr th
        × Entered s s' blocks.control_block th (is_set attr.flags 28) ts ws al
  unfolding thread_create create_name given_attr update
  thread_create_lem s blocks raw attr_block attr rounds texts kthread_handle start b ts ws al
        unforced named word nonzero fresh ready wait all ne free free_wait ne' free' =
      let th = new_thread blocks raw kthread_handle start s.thread_next_id attr in
      let s1 : Runtime =
        put_thread blocks.control_block th
          (record s { thread_next_id = add32 s.thread_next_id 1 }) in
      let prepared =
        new_thread-Prepared blocks raw kthread_handle start s.thread_next_id attr word in
      let named' : (attr.identifier == 0) ≡ false = ground arith in
      let hit : (blocks.control_block == blocks.control_block) ≡ true = ground arith in
      let start_up : thread_create blocks raw attr_block ((λ w. w) ∷ rounds) texts kthread_handle
            start (some attr) s
          ≡ (enter_queues blocks attr.flags s1 >>= λ s'. done (blocks.control_block, s')) =
        rw (unforced, take_id-alone rounds s.thread_next_id, named') refl in
      elim (Bool-cases (has_flag attr.flags flag_create_suspended)) [
        | inl suspended ↦
            let (s', run, next, v) =
              enter-wait s1 blocks attr.flags b th ts ws al suspended (rw hit refl) nonzero ready
                wait all ne free_wait ne' free' in
            (
              s',
              th,
              start_up ∙ rw run refl,
              next,
              prepared,
              rw suspended (Entered-before s s1 s' (λ u apart. ground arith) v),
            )
        | inr active ↦
            let (s', run, next, v) =
              enter-ready s1 blocks attr.flags b th ts ws al active (rw hit refl) nonzero ready wait
                all ne free ne' free' in
            (
              s',
              th,
              start_up ∙ rw run refl,
              next,
              prepared,
              rw active (Entered-before s s1 s' (λ u apart. ground arith) v),
            )
      ]
    where
      Entered-before :
          (s s1 s' : Runtime) {th : Thread} {suspended : Bool}
          → ((u : ℕ) → u ≢ blocks.control_block → s1.threads u ≡ s.threads u)
          → Entered s1 s' blocks.control_block th suspended ts ws al
          → Entered s s' blocks.control_block th suspended ts ws al
      Entered-before s s1 s' same v = record {
        ready_back = v.ready_back;
        ready = v.ready;
        wait = v.wait;
        all = v.all;
        control_block = v.control_block;
        other_threads = λ u apart. v.other_threads u apart ∙ same u apart;
      }

  -- A thread that is created without a name, as with the default attributes, makes the code copy a
  -- string from the null pointer, whatever its other attributes are. No other core takes an id meanwhile.
  pub thread_create-unnamed :
      (s : Runtime) (blocks : CreateBlocks) (raw : Thread) (attr_block : ThreadAttr)
      (given : Option ThreadAttr) (rounds : List (ℕ → ℕ)) (texts : ℕ → Option (List ℕ))
      (kthread_handle start : ℕ)
      → (given ≡ none) ⊎ ((given_attr attr_block given).identifier ≡ 0)
      → thread_create blocks raw attr_block ((λ w. w) ∷ rounds) texts kthread_handle start given s
        ≡ fault
  unfolding thread_create create_name given_attr thread_attr_init load
  thread_create-unnamed s blocks raw attr_block given rounds texts kthread_handle start unnamed =
      let attr = given_attr attr_block given in
      elim (Bool-cases (has_flag attr.flags flag_forceid)) [
        | inl forced ↦ rw (forced, no_name given unnamed) refl
        | inr unforced ↦
            rw (unforced, take_id-alone rounds s.thread_next_id, no_name given unnamed) refl
      ]
    where
      no_name :
          (given : Option ThreadAttr)
          → (given ≡ none) ⊎ ((given_attr attr_block given).identifier ≡ 0)
          → (given_attr attr_block given).identifier ≡ 0
      no_name none unnamed = refl
      no_name (some attr) (inl e) = absurd (cc)
      no_name (some attr) (inr null) = null
