-- ===== src/GenericTunnel/Ledger.antt =====
-- What the table of generictunel.c promises: a list of connections that only grows.
use multivpn.GenericTunnel.Slots.{IsActive}
use multivpn.GenericTunnel.{
  was_freed, store_connection_information, retrieve_connection_information,
  remove_stored_connection_information,
}
use multivpn.Machine.{Machine, Connection, M, pure, ◌>>=◌}
use multivpn.Prelude.{
  ℕ, suc, ◌+◌, ◌-◌, ◌≡◌, List, [], ◌∷◌, ◌++◌, map, Option, none, some, All, length, get_elem?, ltb,
  if◌then◌else◌, Exec, ok, fault, out_of_bounds, double_free,
}

-- The data of the connections that were stored, the oldest first, and the blocks that were freed.
pub record Ledger : Type 0 where
  pub entries : List (Option ℕ)
  pub freed : List ℕ

pub data Op : Type 0 where
  store : Option ℕ → Op
  retrieve : ℕ → Op
  remove : ℕ → Op

pub data Answer : Type 0 where
  number : ℕ → Answer
  found : Option ℕ → Answer
  released : Answer

abbrev pub run_op : Op → M Answer
run_op (store ptr) = do i ← store_connection_information 0 ptr; pure (number i)
run_op (retrieve id) = do p ← retrieve_connection_information 0 id; pure (found p)
run_op (remove id) = do done ← remove_stored_connection_information 0 id; pure released

abbrev pub run : List Op → M (List Answer)
run [] = pure []
run (op ∷ ops) = do a ← run_op op; answers ← run ops; pure (a ∷ answers)

-- Freeing what a connection holds.
abbrev free_entry : Option ℕ → Ledger → Exec (Answer × Ledger)
free_entry none l = ok (released, l)
free_entry (some p) l =
    if was_freed p l.freed
    then fault double_free
    else ok (released, record l { freed = p ∷ l.freed })

-- What is promised: 49 connections are numbered from 1 on, in the order in which they are stored; a
-- number finds what was stored under it, before and after its removal, which frees it.
abbrev pub promised : Op → Ledger → Exec (Answer × Ledger)
promised (store ptr) l =
    if ltb (length l.entries) 49
    then ok (number (suc (length l.entries)), record l { entries = l.entries ++ ptr ∷ [] })
    else fault out_of_bounds
promised (retrieve id) l = elim (get_elem? l.entries (id - 1)) [
  | none ↦ fault out_of_bounds
  | some p ↦ ok (found p, l)
]
promised (remove id) l = elim (get_elem? l.entries (id - 1)) [
  | none ↦ fault out_of_bounds
  | some p ↦ free_entry p l
]

-- A number that was given to a connection.
abbrev pub Given : ℕ → Ledger → Type 0
Given id l = (k : ℕ) × (p : Option ℕ) × (id ≡ suc k) × (get_elem? l.entries k ≡ some p)

abbrev pub Allowed : Op → Ledger → Type 0
Allowed (store ptr) l = Unit {0}
Allowed (retrieve id) l = Given id l
Allowed (remove id) l = Given id l

abbrev pub data_of : Connection → Option ℕ
data_of c = c.connectiondata

-- The machine's table holds the ledger.
pub record Holds (l : Ledger) (s : Machine) : Type 0 where
  pub slot_0 : Connection
  pub taken : List Connection
  pub unused : List Connection
  pub table : s.plugindata ≡ (slot_0 ∷ taken ++ unused) ∷ []
  pub sized : length taken + length unused ≡ 49
  pub active : All IsActive taken
  pub inactive : All (λ c. c.active ≡ 0) unused
  pub entries : map data_of taken ≡ l.entries
  pub freed : s.freed ≡ l.freed

-- A list of operations, as it is promised.
abbrev pub promised_all : List Op → Ledger → Exec (List Answer × Ledger)
promised_all [] l = ok ([], l)
promised_all (op ∷ ops) l = elim (promised op l) [
  | fault e ↦ fault e
  | ok (a, l') ↦ elim (promised_all ops l') [
    | fault e ↦ fault e
    | ok (answers, l'') ↦ ok (a ∷ answers, l'')
  ]
]

-- Each operation is given numbers that were given out before it.
abbrev pub AllAllowed : List Op → Ledger → Type 0
AllAllowed [] l = Unit {0}
AllAllowed (op ∷ ops) l =
    Allowed op l × elim (promised op l) [ fault e ↦ Unit {0} | ok (a, l') ↦ AllAllowed ops l' ]

-- What the client of the table sees.
abbrev pub answers_of : {A : Type 0} → Exec (List Answer × A) → Exec (List Answer)
answers_of (ok (answers, x)) = ok answers
answers_of (fault e) = fault e
