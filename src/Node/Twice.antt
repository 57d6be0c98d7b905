-- ===== src/Node/Twice.antt =====
-- What follows from the two states of a node being one number: gzll-kernel/src/node.c and node.h.
use mathlib.Core.List.{append_assoc}
use optimsoc.Prelude.{
  ℕ, ◌+◌, ◌≡◌, ◌≢◌, ◌<◌, refl, ap, ◌⊎◌, inl, true, false, none, some, List, [], ◌∷◌, ◌++◌, ◌==◌,
  length, length-append, arith, done, fault, ◌>>=◌,
}
use optimsoc.Registry.{load, update}
use optimsoc.Runtime.{Runtime, Thread, thread_runnable, is_runnable}
use optimsoc.Runtime.Threads.{thread_add, thread_remove}
use optimsoc.Runtime.Queues.{Holds, NotIn, enqueue-Holds, discard-Holds, discard-missing}
use optimsoc.Node.{Node, Nodes, node_suspend, node_resume, node_active}

-- Resuming a node that is active and whose thread is ready puts the thread into the ready queue a
-- second time. The new entries are at addresses that are not in use.
pub node_resume-twice :
    (k : Nodes) (s : Runtime) (all_entry ready_entry p b b' : ℕ) (node : Node) (th : Thread)
    (us vs al : List ℕ)
    → p ≢ 0
    → k.nodes p ≡ some node
    → node.state ≡ node_active
    → node.thread ≢ 0
    → s.threads node.thread ≡ some th
    → th.state ≡ thread_runnable
    → Holds b s.ready_q (us ++ (node.thread ∷ vs))
    → Holds b' s.all_threads al
    → all_entry ≢ 0
    → s.all_threads.entries all_entry ≡ none
    → ready_entry ≢ 0
    → s.ready_q.entries ready_entry ≡ none
    → (k' : Nodes) × (s' : Runtime) × (back : ℕ) × (node_resume all_entry ready_entry p k s
        ≡ done (k', s'))
      × Holds back s'.ready_q (us ++ (node.thread ∷ (vs ++ (node.thread ∷ []))))
unfolding node_resume thread_add load
node_resume-twice k s all_entry ready_entry p b b' node th us vs al ne there active nonzero
      thread_at runnable ready all ne_all free_all ne_ready free_ready =
    let off : (p == 0) ≡ false = ground arith in
    let off' : (node.thread == 0) ≡ false = ground arith in
    let same : (node.state == 0) ≡ true = ground (arith, active) in
    let test : is_runnable th.state ≡ true = ap is_runnable runnable in
    let (al', back', listed, kept', all') =
      enqueue-Holds all all_entry node.thread ne_all free_all in
    let (q, back, added, kept, ready') =
      enqueue-Holds ready ready_entry node.thread ne_ready free_ready in
    let after : Runtime = record s { all_threads = al'; ready_q = q } in
    (
      record k { nodes = update k.nodes p (some (record node { state = node_active })) },
      after,
      back,
      rw (off, there, same, off', thread_at, test, listed, added) refl,
      rw (append_assoc us (node.thread ∷ vs)) at ready',
    )

NotIn-join : (d : ℕ) (us vs : List ℕ) → NotIn d us → NotIn d vs → NotIn d (us ++ vs)
NotIn-join d [] vs front end = end
NotIn-join d (u ∷ us) vs (ne, front) end = (ne, NotIn-join d us vs front end)

-- Suspending a node twice, whose thread is ready and listed once, stops at an assertion.
pub node_suspend-twice :
    (k : Nodes) (s : Runtime) (fuel p b : ℕ) (node : Node) (th : Thread) (us vs us' vs' : List ℕ)
    → p ≢ 0
    → k.nodes p ≡ some node
    → node.state ≡ node_active
    → node.thread ≢ 0
    → s.threads node.thread ≡ some th
    → Holds b s.ready_q (us ++ (node.thread ∷ vs))
    → NotIn node.thread us
    → NotIn node.thread vs
    → (b ≡ 0) ⊎ ((us ≢ []) ⊎ (vs ≡ []))
    → Holds 0 s.all_threads (us' ++ (node.thread ∷ vs'))
    → NotIn node.thread us'
    → length us + length vs < fuel
    → length us' < fuel
    → (node_suspend fuel p k s >>= λ (k', s'). node_suspend fuel p k' s') ≡ fault
unfolding node_suspend thread_remove load update
node_suspend-twice k s fuel p b node th us vs us' vs' ne there active nonzero thread_at ready out
      out_after ok all out' enough enough' =
    let off : (p == 0) ≡ false = ground arith in
    let off' : (node.thread == 0) ≡ false = ground arith in
    let same : (node.state == 0) ≡ true = ground (arith, active) in
    let hit : (p == p) ≡ true = ground arith in
    let (q, taken, ready') = discard-Holds us node.thread vs ready out ok fuel (omega arith) in
    let (al, unlisted, all') = discard-Holds us' node.thread vs' all out' (inl refl) fuel enough' in
    let gone =
      discard-missing node.thread ready' (NotIn-join node.thread us vs out out_after) fuel
        (omega (arith, length-append us vs)) in
    rw (off, there, same, taken, unlisted, off', thread_at, hit, gone) refl
