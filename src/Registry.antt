-- ===== src/Registry.antt =====
-- The list of endpoint handles: `struct endpoint_handle`, `struct endpoint_handle_listelem` and the
-- functions of libmp/endpoints.c that walk or change the list. Elements and handles lie in memory
-- at addresses, 0 is NULL, and an address that holds nothing (never allocated, or freed) faults.
pub mod Listed
pub mod Ports
use optimsoc.Prelude.{
  ℕ, zero, suc, Bool, false, ◌&&◌, Option, none, some, ◌==◌, if◌then◌else◌, add32, sub32, Run, done,
  blocked, fault, ◌>>=◌, or_fault,
}

-- `type` is LOCAL (0), REMOTE (1), or what `malloc` left there.
pub record Handle : Type 0 where
  pub handle_type : ℕ
  pub ep : ℕ
  pub domain : ℕ
  pub node : ℕ
  pub port : ℕ

pub record ListElem : Type 0 where
  pub next : ℕ
  pub handle : ℕ

pub record Registry : Type 0 where
  pub elems : ℕ → Option ListElem
  pub handles : ℕ → Option Handle
  pub eplist_first : ℕ
  pub eplist_last : ℕ
  pub eplist_localnum : ℕ
  pub eplist_remotenum : ℕ

abbrev pub type_local : ℕ
type_local = 0

abbrev pub type_remote : ℕ
type_remote = 1

abbrev pub max_endpoints : ℕ
max_endpoints = 100

-- A read through a pointer into memory.
unfoldable pub load {ℓ} : {A : Type ℓ} → (ℕ → Option A) → ℕ → Run A
load memory p = if p == 0 then fault else or_fault (memory p)

unfoldable pub update {ℓ} : {A : Type ℓ} → (ℕ → Option A) → ℕ → Option A → ℕ → Option A
update memory p c a = if a == p then c else memory a

-- `endpoints_init`
unfoldable pub init : Registry → Registry
init r = record r { eplist_first = 0; eplist_last = 0; eplist_localnum = 0; eplist_remotenum = 0 }

-- The links that `endpoint_add` sets. `e` is the address that `malloc` gives the new element.
unfoldable pub link : (e h : ℕ) → Registry → Run Registry
link e h r =
    let elems = update r.elems e (some (record { next = 0; handle = h })) in
    if r.eplist_first == 0
    then done (record r { elems = elems; eplist_first = e; eplist_last = e })
    else do
      last ← load elems r.eplist_last
      done (record r {
        elems = update elems r.eplist_last (some (record last { next = e }));
        eplist_last = e;
      })

-- The counters of `endpoint_add` and `endpoint_delete`.
unfoldable pub count_up : Handle → Registry → Registry
count_up ep r =
    if ep.handle_type == type_local
    then record r { eplist_localnum = add32 r.eplist_localnum 1 }
    else record r { eplist_remotenum = add32 r.eplist_remotenum 1 }

unfoldable pub count_down : Handle → Registry → Registry
count_down ep r =
    if ep.handle_type == type_local
    then record r { eplist_localnum = sub32 r.eplist_localnum 1 }
    else record r { eplist_remotenum = sub32 r.eplist_remotenum 1 }

unfoldable pub add : (e h : ℕ) → Registry → Run Registry
add e h r = do r' ← link e h r; ep ← load r'.handles h; done (count_up ep r')

-- `for (lit = eplist_first; lit != 0; lit = lit->next) if (test(lit->handle)) ... break;` over at
-- most `fuel` elements: the handle at which it stops.
unfoldable pub walk :
    (test : ℕ → Run Bool) (elems : ℕ → Option ListElem) (fuel lit : ℕ) → Run (Option ℕ)
walk test elems zero lit = blocked
walk test elems (suc fuel) lit =
    let rest = load elems lit >>= λ e. walk test elems fuel e.next in
    if lit == 0
    then done none
    else do e ← load elems lit; found ← test e.handle; if found then done (some e.handle) else rest

-- The test of `endpoint_get`.
unfoldable pub is_at : (handles : ℕ → Option Handle) (domain node port h : ℕ) → Run Bool
is_at handles domain node port h = do
  eph ← load handles h
  done ((eph.domain == domain) && (eph.node == node) && (eph.port == port))

-- The local part of `endpoint_get`.
unfoldable pub find : (fuel domain node port : ℕ) → Registry → Run (Option ℕ)
find fuel domain node port r = walk (is_at r.handles domain node port) r.elems fuel r.eplist_first

-- `endpoint_get` on tile `tileid`: an unknown endpoint of another tile is asked for over the
-- network, which answers `remote_ep`, and gets a handle at the new address `h`, with the list
-- element `e`.
unfoldable pub get :
    (fuel tileid : ℕ) (remote_ep : Run ℕ) (e h domain node port : ℕ)
    → Registry
    → Run (Option ℕ × Registry)
get fuel tileid remote_ep e h domain node port r = do
  eph ← find fuel domain node port r
  elim eph [
    | some found ↦ done (some found, r)
    | none ↦ if domain == tileid then done (none, r) else do
      ep ← remote_ep
      let handle : Handle = record {
        handle_type = type_remote;
        ep = ep;
        domain = domain;
        node = node;
        port = port;
      }
      r' ← add e h (record r { handles = update r.handles h (some handle) })
      done (some h, r')
  ]

-- `endpoint_verify`
unfoldable pub verify : (fuel eph : ℕ) → Registry → Run (Option ℕ)
verify fuel eph r = walk (λ h. done (h == eph)) r.elems fuel r.eplist_first

-- `for (p = from; p < MAX_ENDPOINTS; p++)` of `endpoint_generate_portnum`, `n` ports left to try.
unfoldable pub portnum_loop : (fuel from n : ℕ) → Registry → Run (Option ℕ)
portnum_loop fuel from zero r = done none
portnum_loop fuel from (suc n) r =
    let rest = portnum_loop fuel (suc from) n r in
    do
      found ←
          walk (λ h. (load r.handles h >>= λ eph. done (eph.port == from))) r.elems fuel
            r.eplist_first
      elim found [ some h ↦ rest | none ↦ done (some from) ]

-- `some p` is the return value 0 with the port in `*port`, `none` the return value -1.
unfoldable pub generate_portnum : (fuel : ℕ) → Registry → Run (Option ℕ)
generate_portnum fuel r = portnum_loop fuel 0 max_endpoints r

-- `free(lit->next); lit->next = lit->next->next;`
unfoldable pub unlink_next : (lit : ℕ) (e : ListElem) → Registry → Run Registry
unlink_next lit e r =
    let freed = update r.elems e.next none in
    do
      gone ← load freed e.next
      done (record r { elems = update freed lit (some (record e { next = gone.next })) })

-- The second loop of `endpoint_delete`, which moves `lit` on twice in each round.
unfoldable pub delete_loop : (eph fuel lit : ℕ) → Registry → Run Registry
delete_loop eph zero lit r = blocked
delete_loop eph (suc fuel) lit r =
    let rest =
      load r.elems lit >>= λ e. load r.elems e.next >>= λ e'. delete_loop eph fuel e'.next r in
    if lit == 0 then done r else do
      e ← load r.elems lit
      hit ←
          if e.next == 0 then done false else (do e' ← load r.elems e.next; done (e'.handle == eph))
      if hit then unlink_next lit e r else rest

-- `free(eplist_first)` and what follows it
unfoldable pub unlink_first : Registry → Run Registry
unlink_first r =
    let freed = update r.elems r.eplist_first none in
    if r.eplist_first == r.eplist_last
    then done (record r { elems = freed; eplist_first = 0; eplist_last = 0 })
    else do
      gone ← load freed r.eplist_first
      done (record r { elems = freed; eplist_first = gone.next })

unfoldable pub delete : (fuel eph : ℕ) → Registry → Run Registry
delete fuel eph r = do
  ep ← load r.handles eph
  first ← load r.elems r.eplist_first
  if first.handle == eph
      then unlink_first (count_down ep r)
      else delete_loop eph fuel r.eplist_first (count_down ep r)
