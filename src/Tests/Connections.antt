-- ===== src/Tests/Connections.antt =====
-- generictunel.c at concrete inputs.
use multivpn.GenericTunnel.Slots.{
  stored, store_connection_information_first, store_connection_information-full, remove-store-ne,
  remove_twice,
}
use multivpn.GenericTunnel.Ledger.{
  Op, store, retrieve, remove, number, found, released, run, answers_of,
}
use multivpn.GenericTunnel.Refinement.{no_connections-Holds, run-refines}
use multivpn.GenericTunnel.{
  store_connection_information, retrieve_connection_information,
  remove_stored_connection_information, was_freed,
}
use multivpn.Machine.{Machine, Connection}
use multivpn.Prelude.Int.{pos}
use multivpn.Prelude.{
  ℕ, List, ◌≡◌, ◌≢◌, refl, [], ◌∷◌, none, some, replicate, ok, fault, out_of_bounds, double_free,
  arith,
}
use multivpn.Tests.Setup.{calm, idle}

abbrev empty : Connection
empty = record { connectiondata = none; sendsocket = pos 0; recvsocket = pos 0; active = 0 }

abbrev taken : Connection
taken = record { connectiondata = some 4096; sendsocket = pos 3; recvsocket = pos 4; active = 1 }

abbrev one_taken : Machine
one_taken = record idle { plugindata = (empty ∷ taken ∷ replicate 48 empty) ∷ [] }

abbrev all_taken : Machine
all_taken = record idle { plugindata = (empty ∷ replicate 49 taken) ∷ [] }

first_slot :
    (store_connection_information 0 (some 8192) calm one_taken
      ≡ ok (2, stored calm one_taken (empty ∷ taken ∷ replicate 48 empty) 2 (some 8192)))
    × (retrieve_connection_information 0 2 calm
          (stored calm one_taken (empty ∷ taken ∷ replicate 48 empty) 2 (some 8192))
        ≡ ok (some 8192, stored calm one_taken (empty ∷ taken ∷ replicate 48 empty) 2 (some 8192)))
first_slot =
    store_connection_information_first calm one_taken (some 8192) empty empty (taken ∷ [])
      (replicate 47 empty) (refl, refl) (omega arith) refl

store_connection_information-full_example :
    store_connection_information 0 none calm all_taken ≡ fault out_of_bounds
store_connection_information-full_example =
    store_connection_information-full calm all_taken none empty (replicate 49 taken) (refl, refl)
      (omega arith)

abbrev removed : Machine
removed = record one_taken {
  plugindata = (empty ∷ taken ∷ replicate 48 empty) ∷ [];
  freed = 4096 ∷ [];
}

remove-store-ne_example : ◌≢◌ {A = ℕ} 2 1
unfolding remove_stored_connection_information store_connection_information idle
remove-store-ne_example =
    remove-store-ne calm one_taken removed
      (stored calm removed (empty ∷ taken ∷ replicate 48 empty) 2 none) 1 2 none
      (empty ∷ taken ∷ replicate 48 empty) (refl, refl) (omega arith) refl refl

remove_twice_example :
    (s' : Machine) × (remove_stored_connection_information 0 1 calm one_taken ≡ ok (tt, s'))
    × (remove_stored_connection_information 0 1 calm s' ≡ fault double_free)
unfolding was_freed idle
remove_twice_example =
    remove_twice calm one_taken 1 4096 taken (empty ∷ taken ∷ replicate 48 empty) (refl, refl) refl
      refl refl

-- Two connections are stored, the first is removed twice.
abbrev operations : List Op
operations = store (some 4096) ∷ store none ∷ retrieve 1 ∷ remove 1 ∷ retrieve 1 ∷ remove 2 ∷ []

run-refines_example :
    answers_of (run operations calm idle)
    ≡ ok (number 1 ∷ number 2 ∷ found (some 4096) ∷ released ∷ found (some 4096) ∷ released ∷ [])
unfolding idle was_freed
run-refines_example =
    run-refines operations calm (record { entries = []; freed = [] }) idle
      (no_connections-Holds idle refl refl)
      (
        tt,
        (
          tt,
          (
            (0, some 4096, refl, refl),
            ((0, some 4096, refl, refl), ((0, some 4096, refl, refl), ((1, none, refl, refl), tt))),
          ),
        ),
      )
