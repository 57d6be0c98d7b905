-- ===== src/Runtime/Prepare.antt =====
-- The control block that `optimsoc_thread_create` of libruntime/thread.c fills for a thread with a name.
use optimsoc.Prelude.{
  ℕ, ◌/◌, ◌%◌, ◌^◌, ◌≡◌, ◌<◌, refl, Bool, true, false, not, ◌&&◌, some, List, ◌++◌, ◌==◌,
  if◌then◌else◌, add32, set, replicate, length, length-set, get_elem?, get_elem?-set,
  get_elem?-replicate, arith, Bool-cases, inl, inr,
}
use optimsoc.Runtime.{Thread, new_queue}
use optimsoc.Runtime.Threads.{ThreadAttr, CreateBlocks, context_create, thread_name}
use optimsoc.Runtime.Names.{Decimal, thread_prefix, thread_name_lem}

-- Whether bit `i` of the flags is set: 28 to create the thread suspended, 29 for a kernel thread, 30
-- for a forced id.
abbrev pub is_set : (flags i : ℕ) → Bool
is_set flags i = not (flags / 2 ^ i % 2 == 0)

-- What register `k` starts with. A kernel thread starts in `_optimsoc_kthread_handle`, which takes the
-- function of the thread and its argument, with a stack of its own; another thread starts in its
-- function, with the stack at the end of its address space.
abbrev pub start_reg : (kernel : Bool) (stack_block start arg k : ℕ) → ℕ
start_reg kernel stack_block start arg k =
    if k == 1
    then (if kernel then add32 stack_block 4092 else 0xfffffffc)
    else if k == 3
    then (if kernel then start else arg)
    else if (k == 4) && kernel
    then arg
    else 0

-- The control block of a new thread, but for its state.
pub record Prepared (stack_block kthread_handle start id : ℕ) (attr : ThreadAttr) (th : Thread)
    : Type 0 where
  pub id_given : th.id ≡ id
  pub named : (digits : List ℕ) × (th.name ≡ thread_prefix ++ digits) × Decimal id digits
  pub flags_given : th.flags ≡ attr.flags
  pub nobody_joins : th.joinlist ≡ new_queue 0 0
  pub stack_given : th.stack ≡ (if is_set attr.flags 29 then stack_block else 0)
  pub pc_given : th.ctx.pc ≡ (if is_set attr.flags 29 then kthread_handle else start)
  pub sr_given : th.ctx.sr ≡ (if is_set attr.flags 29 then 0x8017 else 0x8077)
  pub registers :
      (k : ℕ)
      → k < 32
      → get_elem? th.ctx.regs k
        ≡ some (start_reg (is_set attr.flags 29) stack_block start attr.args k)

-- The control block that the code makes, before the thread enters a queue.
abbrev pub new_thread : CreateBlocks → Thread → (kthread_handle start id : ℕ) → ThreadAttr → Thread
new_thread blocks raw kthread_handle start id attr =
    record (context_create blocks.stack_block kthread_handle start attr.args
      (record raw { flags = attr.flags })) {
        id = id;
        name = thread_name id;
        joinlist = new_queue 0 0;
      }

kernel_registers :
    (regs : List ℕ) (top start arg k : ℕ)
    → 4 < length regs
    → get_elem? regs k ≡ some 0
    → get_elem? (set (set (set regs 1 top) 3 start) 4 arg) k
      ≡ some (if k == 1 then top else if k == 3 then start else if (k == 4) && true then arg else 0)
kernel_registers regs top start arg k long h = ground (
  arith,
  get_elem?-set (set (set regs 1 top) 3 start) 4 k arg,
  get_elem?-set (set regs 1 top) 3 k start,
  get_elem?-set regs 1 k top,
  length-set (set regs 1 top) 3 start,
  length-set regs 1 top,
  h,
)

user_registers :
    (regs : List ℕ) (top arg k : ℕ)
    → 4 < length regs
    → get_elem? regs k ≡ some 0
    → get_elem? (set (set regs 1 top) 3 arg) k
      ≡ some (if k == 1 then top else if k == 3 then arg else if (k == 4) && false then arg else 0)
user_registers regs top arg k long h = ground (
  arith,
  get_elem?-set (set regs 1 top) 3 k arg,
  get_elem?-set regs 1 k top,
  length-set regs 1 top,
  h,
)

pub new_thread-Prepared :
    (blocks : CreateBlocks) (raw : Thread) (kthread_handle start id : ℕ) (attr : ThreadAttr)
    → id < 2 ^ 32
    → Prepared blocks.stack_block kthread_handle start id attr
        (new_thread blocks raw kthread_handle start id attr)
unfolding context_create
new_thread-Prepared blocks raw kthread_handle start id attr h =
    elim (Bool-cases (is_set attr.flags 29)) [
      | inl kernel ↦ record {
        id_given = refl;
        named = thread_name_lem id h;
        flags_given = rw kernel refl;
        nobody_joins = refl;
        stack_given = rw kernel refl;
        pc_given = rw kernel refl;
        sr_given = rw kernel refl;
        registers = λ k b. rw kernel (
            kernel_registers (replicate 32 0) (add32 blocks.stack_block 4092) start attr.args k
              (omega arith) (get_elem?-replicate 32 k 0 b));
      }
      | inr user ↦ record {
        id_given = refl;
        named = thread_name_lem id h;
        flags_given = rw user refl;
        nobody_joins = refl;
        stack_given = rw user refl;
        pc_given = rw user refl;
        sr_given = rw user refl;
        registers = λ k b. rw user (
            user_registers (replicate 32 0) 0xfffffffc attr.args k (omega arith)
              (get_elem?-replicate 32 k 0 b));
      }
    ]
