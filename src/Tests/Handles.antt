-- ===== src/Tests/Handles.antt =====
-- A list of two handles, for the ports 0 and 1 of node 5 on tile 3.
use optimsoc.Prelude.{
  ℕ, zero, suc, ◌≡◌, ◌≢◌, ◌<◌, inr, refl, none, some, List, [], ◌∷◌, arith, done, fault,
}
use optimsoc.Registry.{Handle, Registry, update, get, generate_portnum}
use optimsoc.Registry.Listed.{Item, Listed, get-known}
use optimsoc.Registry.Ports.{holder, generate_portnum_lem}

abbrev handle_zero : Handle
handle_zero = record { handle_type = 0; ep = 4096; domain = 3; node = 5; port = 0 }

abbrev handle_one : Handle
handle_one = record { handle_type = 0; ep = 8192; domain = 3; node = 5; port = 1 }

abbrev two_handles : Registry
two_handles = record {
  elems =
      update (update (λ _. none) 16 (some (record { next = 32; handle = 100 }))) 32
        (some (record { next = 0; handle = 200 }));
  handles = update (update (λ _. none) 100 (some handle_zero)) 200 (some handle_one);
  eplist_first = 16;
  eplist_last = 32;
  eplist_localnum = 2;
  eplist_remotenum = 0;
}

abbrev items : List Item
items =
    record { at = 16; pointer = 100; value = handle_zero }
    ∷ record { at = 32; pointer = 200; value = handle_one }
    ∷ []

two_handles-Listed : Listed two_handles items
unfolding update
two_handles-Listed = record {
  segment = (
    refl,
    omega arith,
    omega arith,
    refl,
    record { next = 32; handle = 100 },
    refl,
    refl,
    (refl, omega arith, omega arith, refl, record { next = 0; handle = 200 }, refl, refl, refl),
  );
}

get-known_example : get 3 3 fault 48 300 3 5 1 two_handles ≡ done (some 200, two_handles)
get-known_example = get-known two_handles-Listed 3 3 fault 48 300 3 5 1 (omega arith) (inr refl)

ports_used : (q : ℕ) → q < 2 → holder q items ≢ none
ports_used zero h e = absurd (cc)
ports_used (suc zero) h e = absurd (cc)
ports_used (suc (suc q)) h e = absurd (omega arith)

generate_portnum_lem_example : generate_portnum 3 two_handles ≡ done (some 2)
generate_portnum_lem_example =
    generate_portnum_lem two_handles-Listed 3 2 (omega arith) (omega arith) ports_used (inr refl)
