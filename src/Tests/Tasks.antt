-- ===== src/Tests/Tasks.antt =====
-- A directory of two tasks, of which the second was deleted.
use optimsoc.Prelude.{
  ℕ, zero, suc, ◌≡◌, ◌≢◌, ◌<◌, List, refl, true, none, some, [], ◌∷◌, arith, get_elem?, done, fault,
}
use optimsoc.Taskdir.{
  AppNode, Taskdir, endpoint_table_init, spare_entry, mapping_lookup, task_delete, task_remap,
  task_register, taskid_lookup,
}
use optimsoc.Taskdir.View.{IsDir, IsWhole, mapping_lookup_lem}
use optimsoc.Taskdir.Change.{Changed, task_delete_lem, task_remap_lem}
use optimsoc.Taskdir.Register.{task_register_lem}
use optimsoc.Taskdir.Names.{Named, taskid_lookup_lem, taskid_lookup-unset}

abbrev first_task : AppNode
first_task = record {
  identifier = some (97 ∷ []);
  rank = 1;
  nodeid = 7;
  table = some endpoint_table_init;
}

abbrev second_task : AppNode
second_task = record {
  identifier = some (98 ∷ []);
  rank = 0xffff;
  nodeid = 0xffffffff;
  table = some endpoint_table_init;
}

abbrev two_tasks : Taskdir
two_tasks = record { lock = 0; size = 2; tasks = first_task ∷ second_task ∷ [] }

two_tasks-IsWhole :
    (i : ℕ) (e : AppNode) → get_elem? (first_task ∷ second_task ∷ []) i ≡ some e → IsWhole e
two_tasks-IsWhole zero e h = ground (arith, h)
two_tasks-IsWhole (suc zero) e h = ground (arith, h)
two_tasks-IsWhole (suc (suc i)) e h = absurd (cc)

two_tasks-IsDir : IsDir two_tasks
two_tasks-IsDir = record { unlocked = refl; sized = refl; whole = two_tasks-IsWhole }

mapping_lookup_lem_example : mapping_lookup 0 two_tasks ≡ done (some (1, 7), two_tasks)
mapping_lookup_lem_example = mapping_lookup_lem two_tasks-IsDir 0

task_delete_lem_example :
    (d' : Taskdir) × (task_delete 0 two_tasks ≡ done (true, d')) × Changed two_tasks d' 0 none
task_delete_lem_example = task_delete_lem two_tasks-IsDir 0

task_remap_lem_example :
    (d' : Taskdir) × (task_remap 0 1 2 7 9 two_tasks ≡ done (true, d'))
    × Changed two_tasks d' 0 (some (2, 9))
task_remap_lem_example =
    task_remap_lem two_tasks-IsDir 0 1 2 7 9 (omega arith) (omega arith) (omega arith) (omega arith)

task_register_lem_example :
    (d' : Taskdir) × (task_register 4 (99 ∷ []) 3 5 two_tasks ≡ done (true, d'))
    × Changed two_tasks d' 4 (some (3, 5))
task_register_lem_example =
    task_register_lem two_tasks-IsDir 4 (99 ∷ []) 3 5 (omega arith) (omega arith) (omega arith)

-- The name of the task that is looked for is the front of that of the one before.
abbrev longer_task : AppNode
longer_task = record first_task { identifier = some (98 ∷ 99 ∷ []) }

abbrev named_task : AppNode
named_task = record first_task { identifier = some (98 ∷ []); rank = 2 }

abbrev two_names : Taskdir
two_names = record { lock = 0; size = 2; tasks = longer_task ∷ named_task ∷ [] }

two_names-IsWhole :
    (i : ℕ) (e : AppNode) → get_elem? (longer_task ∷ named_task ∷ []) i ≡ some e → IsWhole e
two_names-IsWhole zero e h = ground (arith, h)
two_names-IsWhole (suc zero) e h = ground (arith, h)
two_names-IsWhole (suc (suc i)) e h = absurd (cc)

two_names-IsDir : IsDir two_names
two_names-IsDir = record { unlocked = refl; sized = refl; whole = two_names-IsWhole }

before-Named :
    (j : ℕ)
    → j < 1
    → (text : List ℕ) × Named (longer_task ∷ named_task ∷ []) j text × (text ≢ 98 ∷ [])
before-Named zero h = (98 ∷ 99 ∷ [], (longer_task, refl, refl), λ e. absurd (cc))
before-Named (suc j) h = absurd (omega arith)

taskid_lookup_lem_example : taskid_lookup (98 ∷ []) two_names ≡ done (some 1, two_names)
taskid_lookup_lem_example =
    taskid_lookup_lem (98 ∷ []) 1 two_names-IsDir before-Named (named_task, refl, refl)

abbrev second_only : Taskdir
second_only = record { lock = 0; size = 2; tasks = spare_entry ∷ second_task ∷ [] }

second_only-IsWhole :
    (i : ℕ) (e : AppNode) → get_elem? (spare_entry ∷ second_task ∷ []) i ≡ some e → IsWhole e
second_only-IsWhole zero e h = ground (arith, h)
second_only-IsWhole (suc zero) e h = ground (arith, h)
second_only-IsWhole (suc (suc i)) e h = absurd (cc)

second_only-IsDir : IsDir second_only
second_only-IsDir = record { unlocked = refl; sized = refl; whole = second_only-IsWhole }

taskid_lookup-unset_example : taskid_lookup (98 ∷ []) second_only ≡ fault
taskid_lookup-unset_example = taskid_lookup-unset (98 ∷ []) second_only-IsDir refl refl
