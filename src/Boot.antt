-- ===== src/Boot.antt =====
-- The start of applications in the gzll kernel: the loop of `_gzll_app_bootstrap` of gzll-kernel/src/app.c
-- over the boot mappings of gzll-kernel/include/gzll-apps.h.
pub mod Unique
use optimsoc.Prelude.{
  ℕ, suc, ◌+◌, ◌-◌, ◌^◌, ◌||◌, List, [], ◌∷◌, ◌++◌, ltb, ◌==◌, if◌then◌else◌, add32, sub32, take,
}
use optimsoc.Runtime.Threads.{digits_onto}

-- A task with its identifier, by the address of its descriptor.
pub record TaskDescriptor : Type 0 where
  pub identifier : List ℕ
  pub descriptor : ℕ

-- An element of `mappings` in `struct gzll_boot_mappings`
pub record BootMapping : Type 0 where
  pub rank : ℕ
  pub task : TaskDescriptor
  pub instidx : ℕ

abbrev pub boot_everywhere : ℕ
boot_everywhere = 0xfffffffe

-- A call of `gzll_node_start`
pub record NodeStart : Type 0 where
  pub nodeid : ℕ
  pub nodename : List ℕ
  pub task : TaskDescriptor

-- "%d"
abbrev print_int : ℕ → List ℕ
print_int n = if ltb n (2 ^ 31) then digits_onto 10 n [] else (45 ∷ digits_onto 10 (2 ^ 32 - n) [])

-- "<identifier>-<instidx>", in a text of 32 characters with its final zero
unfoldable pub task_name : TaskDescriptor → (instidx : ℕ) → List ℕ
task_name task instidx = take 31 (task.identifier ++ (45 ∷ print_int instidx))

unfoldable pub start_here : (nodeid instidx : ℕ) → BootMapping → NodeStart
start_here nodeid instidx m = record {
  nodeid = nodeid;
  nodename = task_name m.task instidx;
  task = m.task;
}

-- The loop of `_gzll_app_bootstrap` at the index `idx`, on the tile with the rank `gzll_rank`: the nodes
-- that are started there, in their order.
unfoldable pub boot_loop :
    (numct gzll_rank idx nodeid_offset : ℕ) → List BootMapping → List NodeStart
boot_loop numct gzll_rank idx nodeid_offset [] = []
boot_loop numct gzll_rank idx nodeid_offset (m ∷ ms) =
    let next = add32 idx 1 in
    let nodeid = add32 idx nodeid_offset in
    let same_offset = boot_loop numct gzll_rank next nodeid_offset ms in
    let more_offset = boot_loop numct gzll_rank next (add32 nodeid_offset (sub32 numct 1)) ms in
    if (m.rank == gzll_rank) || (m.rank == boot_everywhere)
    then if m.rank == boot_everywhere
      then start_here (add32 nodeid gzll_rank) gzll_rank m ∷ more_offset
      else start_here nodeid m.instidx m ∷ same_offset
    else same_offset

-- `_gzll_app_bootstrap`, after the entry for the application
unfoldable pub app_bootstrap : (numct gzll_rank : ℕ) → List BootMapping → List NodeStart
app_bootstrap numct gzll_rank mappings = boot_loop numct gzll_rank 0 0 mappings
