-- ===== src/Tests/Nodes.antt =====
-- The kernel on four tiles: its page pool, the start of an application, and a node that runs.
use optimsoc.Prelude.{ℕ, ◌+◌, ◌≡◌, refl, none, some, List, [], ◌∷◌, arith, done, ◌>>=◌}
use optimsoc.Registry.{update}
use optimsoc.LinkedList.{list_init}
use optimsoc.Runtime.{Runtime, new_queue}
use optimsoc.Runtime.Queues.{Holds, new_queue-Holds}
use optimsoc.Runtime.Elapse.{AreFree}
use optimsoc.PagePool.{paging_init}
use optimsoc.PagePool.Fill.{alloc_pages, paging_init-page_alloc}
use optimsoc.Boot.{
  BootMapping, TaskDescriptor, boot_everywhere, start_here, boot_loop, app_bootstrap,
}
use optimsoc.Boot.Unique.{AllDiffer, Disjoint, node_ids, app_bootstrap_unique}
use optimsoc.Node.{Node, Nodes, node_resume}
use optimsoc.Node.Twice.{node_resume-twice}
use optimsoc.Tests.Threads.{at_work, a_thread, two_ready-Holds}

abbrev page_blocks : ℕ → ℕ
page_blocks i = 5000 + i

page_blocks-AreFree : AreFree page_blocks (new_queue 0 0)
unfolding new_queue list_init
page_blocks-AreFree = record {
  nonzero = λ i. omega arith;
  unused = λ i. refl;
  distinct = λ i j ne. omega arith;
}

paging_init-page_alloc_example :
    (paging_init 3 page_blocks 0 344064 >>= alloc_pages 3) ≡ done (40 ∷ 41 ∷ 0 ∷ [])
paging_init-page_alloc_example =
    paging_init-page_alloc 2 3 0 344064 page_blocks (omega arith) (omega arith) (omega arith)
      (omega arith) page_blocks-AreFree

abbrev a_task : TaskDescriptor
a_task = record { identifier = 97 ∷ []; descriptor = 64 }

abbrev some_mappings : List BootMapping
some_mappings =
    record { rank = 1; task = a_task; instidx = 0 }
    ∷ record { rank = boot_everywhere; task = a_task; instidx = 0 }
    ∷ record { rank = 2; task = a_task; instidx = 1 }
    ∷ []

-- The tile with the rank 1 starts the nodes 0 and 2, that with the rank 2 the nodes 3 and 5.
abbrev ids_at : (rank : ℕ) → List ℕ
ids_at rank = node_ids (app_bootstrap 4 rank some_mappings)

ids_at_one : ids_at 1 ≡ 0 ∷ 2 ∷ []
unfolding app_bootstrap boot_loop start_here
ids_at_one = refl

ids_at_two : ids_at 2 ≡ 3 ∷ 5 ∷ []
unfolding app_bootstrap boot_loop start_here
ids_at_two = refl

app_bootstrap_unique_example : AllDiffer (ids_at 1) × Disjoint (ids_at 1) (ids_at 2)
app_bootstrap_unique_example =
    app_bootstrap_unique 4 1 2 some_mappings (omega arith) (omega arith) (omega arith) (omega arith)
      (omega arith)

abbrev a_node : Node
a_node = record {
  id = 1;
  identifier = 97 ∷ [];
  app = 0;
  taskid = 0;
  state = 0;
  pagedir = 0;
  thread = 64;
}

abbrev some_nodes : Nodes
some_nodes = record {
  node_nxtid = 2;
  node_list = none;
  nodes = update (λ _. none) 700 (some a_node);
  app_list = none;
  apps = λ _. none;
}

node_resume-twice_example :
    (k' : Nodes) × (s' : Runtime) × (back : ℕ) × (node_resume 6000 7000 700 some_nodes at_work
      ≡ done (k', s'))
    × Holds back s'.ready_q (48 ∷ 64 ∷ 64 ∷ [])
unfolding update new_queue list_init
node_resume-twice_example =
    node_resume-twice some_nodes at_work 6000 7000 700 0 0 a_node (a_thread 4) (48 ∷ []) [] []
      (omega arith) refl refl (omega arith) refl refl two_ready-Holds (new_queue-Holds 0)
      (omega arith) refl (omega arith) refl
