-- ===== src/Node.antt =====
-- The nodes of the gzll kernel and its applications: gzll-kernel/src/node.c and node.h, and the list of
-- applications of gzll-kernel/src/app.c.
pub mod Twice
use optimsoc.Prelude.{
  ℕ, zero, suc, true, false, not, Option, none, some, List, ◌==◌, if◌then◌else◌, Bool, Run, done,
  blocked, fault, ◌>>=◌, assert,
}
use optimsoc.Registry.{load, update}
use optimsoc.Sync.{Cas}
use optimsoc.LinkedList.{list_first_element, list_next_element, list_find_content_header}
use optimsoc.Taskdir.{Taskdir, initialize}
use optimsoc.Runtime.{Runtime, Queue, new_queue, enqueue, discard}
use optimsoc.Runtime.Threads.{take_id, thread_add, thread_remove}

-- `struct gzll_app`
pub record App : Type 0 where
  pub id : ℕ
  pub name : List ℕ
  pub task_dir : Taskdir

-- The two values of `state` in `struct gzll_node` are both 0.
abbrev pub node_active : ℕ
node_active = 0

abbrev pub node_suspended : ℕ
node_suspended = 0

-- `struct gzll_node`
pub record Node : Type 0 where
  pub id : ℕ
  pub identifier : List ℕ
  pub app : ℕ
  pub taskid : ℕ
  pub state : ℕ
  pub pagedir : ℕ
  pub thread : ℕ

-- The lists are not there until something was added.
pub record Nodes : Type 0 where
  pub node_nxtid : ℕ
  pub node_list : Option Queue
  pub nodes : ℕ → Option Node
  pub app_list : Option Queue
  pub apps : ℕ → Option App

-- Adding to a list that may not be there yet, as `gzll_node_add` and `gzll_app_new` do.
unfoldable pub add_or_init : (fresh p : ℕ) → Option Queue → Run Queue
add_or_init fresh p none = done (new_queue fresh p)
add_or_init fresh p (some q) = enqueue fresh p q

-- `gzll_get_nodeid`: the loop is that of the thread ids.
unfoldable pub get_nodeid : ⦃cpu : Cas⦄ → (rounds : List (ℕ → ℕ)) → Nodes → Run (ℕ × Nodes)
get_nodeid rounds k = do
  (nodeid, nxtid) ← take_id rounds k.node_nxtid
  done (nodeid, record k { node_nxtid = nxtid })

-- `gzll_node_add`
unfoldable pub node_add : (fresh node : ℕ) → Nodes → Run Nodes
node_add fresh node k = do
  q ← add_or_init fresh node k.node_list
  done (record k { node_list = some q })

-- `gzll_node_remove`: the return value -1 is `false`.
unfoldable pub node_remove_from : (fuel node : ℕ) → Option Queue → Nodes → Run (Bool × Nodes)
node_remove_from fuel node none k = done (false, k)
node_remove_from fuel node (some q) k = do
  (removed, q') ← discard fuel node q
  done (removed, record k { node_list = some q' })

unfoldable pub node_remove : (fuel node : ℕ) → Nodes → Run (Bool × Nodes)
node_remove fuel node k = node_remove_from fuel node k.node_list k

-- The loop of `gzll_node_find` at the node `p` with the iterator `iter`: 0 where there is none.
unfoldable pub find_loop : (fuel id p iter : ℕ) → Queue → Nodes → Run ℕ
find_loop zero id p iter q k = blocked
find_loop (suc fuel) id p iter q k =
    let rest = λ (n i : ℕ). find_loop fuel id n i q k in
    if p == 0 then done 0 else do
      node ← load k.nodes p
      if node.id == id then done p else do (n, i) ← list_next_element iter q.entries; rest n i

-- `gzll_node_find`: the list must be there.
unfoldable pub find_in : (fuel id : ℕ) → Option Queue → Nodes → Run ℕ
find_in fuel id none k = fault
find_in fuel id (some q) k = do
  (p, iter) ← list_first_element q.list q.entries
  find_loop fuel id p iter q k

unfoldable pub node_find : (fuel id : ℕ) → Nodes → Run ℕ
node_find fuel id k = find_in fuel id k.node_list k

-- `gzll_app_new`: the application is at `block`, and its entry in the list at `fresh`.
unfoldable pub app_new : (block fresh id : ℕ) (name : List ℕ) → Nodes → Run Nodes
app_new block fresh id name k = do
  q ← add_or_init fresh block k.app_list
  let app : App = record { id = id; name = name; task_dir = initialize }
  done (record k { app_list = some q; apps = update k.apps block (some app) })

-- The first word of an application.
abbrev pub app_word : Option App → Option ℕ
app_word none = none
app_word (some app) = some app.id

-- `gzll_app_get`
unfoldable pub app_in : (fuel id : ℕ) → Option Queue → Nodes → Run ℕ
app_in fuel id none k = fault
app_in fuel id (some q) k =
    list_find_content_header fuel id (λ p. app_word (k.apps p)) q.list q.entries

unfoldable pub app_get : (fuel id : ℕ) → Nodes → Run ℕ
app_get fuel id k = app_in fuel id k.app_list k

-- `gzll_node_suspend`
unfoldable pub node_suspend : (fuel p : ℕ) → Nodes → Runtime → Run (Nodes × Runtime)
node_suspend fuel p k s = do
  node ← assert (not (p == 0)) (load k.nodes p)
  if node.state == node_active
      then (do
        s' ← thread_remove fuel node.thread s
        let stopped = record node { state = node_suspended }
        done (record k { nodes = update k.nodes p (some stopped) }, s'))
      else done (k, s)

-- `gzll_node_resume`
unfoldable pub node_resume : (all_entry ready_entry p : ℕ) → Nodes → Runtime → Run (Nodes × Runtime)
node_resume all_entry ready_entry p k s = do
  node ← assert (not (p == 0)) (load k.nodes p)
  if node.state == node_suspended
      then (do
        s' ← thread_add all_entry ready_entry node.thread s
        let resumed = record node { state = node_active }
        done (record k { nodes = update k.nodes p (some resumed) }, s'))
      else done (k, s)
