-- ===== src/GenericTunnel/Slots.antt =====
-- Which slot generictunel.c gives to a connection, and what becomes of it.
use multivpn.GenericTunnel.{
  maxint, find_slot, store_connection_information, remove_stored_connection_information,
  retrieve_connection_information, was_freed,
}
use multivpn.Machine.{Machine, Connection}
use multivpn.Os.{Os, socket, stream}
use multivpn.Prelude.{
  ℕ, zero, suc, ◌+◌, ◌<◌, ◌≡◌, ◌≢◌, refl, ap, ◌∙◌, false, List, [], ◌∷◌, ◌++◌, Option, some, All,
  length, get_elem?, set, drop, length-drop, length-append, length-set, get_elem?-set_self, ◌==◌,
  ok, fault, out_of_bounds, double_free, arith, inl, inr, Bool-cases, Option-cases, Exec-cases, ◌⊎◌,
}

abbrev pub IsActive : Connection → Type 0
IsActive c = c.active ≢ 0

find_slot-full :
    (i : ℕ) (cs : List Connection)
    → i + length cs < maxint
    → All IsActive cs
    → find_slot i cs ≡ fault out_of_bounds
unfolding find_slot
find_slot-full i [] h a = ground arith
find_slot-full i (c ∷ cs) h a = ground (arith, find_slot-full (i + 1) cs)

-- The first slot that is not active is the one.
find_slot_first :
    (i : ℕ) (taken : List Connection) (c : Connection) (rest : List Connection)
    → i + length taken < maxint
    → All IsActive taken
    → c.active ≡ 0
    → find_slot i (taken ++ c ∷ rest) ≡ ok (i + length taken)
unfolding find_slot
find_slot_first i [] c rest h a f = ground arith
find_slot_first i (t ∷ taken) c rest h a f = ground (arith, find_slot_first (i + 1) taken c rest)

find_slot-free :
    (i k : ℕ) (cs : List Connection)
    → find_slot i cs ≡ ok k
    → i + length cs < maxint
    → (j : ℕ) × (c : Connection) × (k ≡ i + j) × (get_elem? cs j ≡ some c) × (c.active ≡ 0)
unfolding find_slot
find_slot-free i k [] e h = absurd (ground arith)
find_slot-free i k (c ∷ cs) e h = elim (Bool-cases (c.active == 0)) [
  | inl free ↦ (0, c, ground arith, refl, ground arith)
  | inr taken ↦
      let (j, d, ek, ej, f) = find_slot-free (i + 1) k cs (ground arith) (omega arith) in
      (suc j, d, omega arith, ej, f)
]

get_elem?-append :
    (xs : List Connection) (d : Connection) (ys : List Connection)
    → get_elem? (xs ++ d ∷ ys) (length xs) ≡ some d
get_elem?-append [] d ys = refl
get_elem?-append (x ∷ xs) d ys = get_elem?-append xs d ys

lt-get_elem? :
    (i : ℕ) (cs : List Connection) {c : Connection} → get_elem? cs i ≡ some c → i < length cs
lt-get_elem? i [] e = cc
lt-get_elem? zero (x ∷ cs) e = omega arith
lt-get_elem? (suc i) (x ∷ cs) e = omega (arith, lt-get_elem? i cs e)

-- The plugin table as it is declared: one plugin, fifty slots.
abbrev pub IsTable : Machine → List Connection → Type 0
IsTable s cs = (s.plugindata ≡ cs ∷ []) × (length cs ≡ 50)

module _ (os : Os) (s : Machine) where
  -- With every slot from 1 on in use the search reads behind the fifty slots of the table; the
  -- connection is not refused with 0.
  pub store_connection_information-full :
      (ptr : Option ℕ) (c : Connection) (cs : List Connection)
      → IsTable s (c ∷ cs)
      → All IsActive cs
      → store_connection_information 0 ptr os s ≡ fault out_of_bounds
  unfolding store_connection_information
  store_connection_information-full ptr c cs t a = ground (arith, find_slot-full 1 cs)

  -- What a connection that is stored in slot `i` leaves behind.
  abbrev new_connection : Option ℕ → Connection
  new_connection ptr = record {
    connectiondata = ptr;
    sendsocket = (os s.trace (socket stream)).ret;
    recvsocket = (os (socket stream ∷ s.trace) (socket stream)).ret;
    active = 1;
  }

  abbrev pub stored : List Connection → ℕ → Option ℕ → Machine
  stored cs i ptr = record s {
    plugindata = set cs i (new_connection ptr) ∷ [];
    trace = socket stream ∷ socket stream ∷ s.trace;
  }

  store_connection_information-stored :
      (ptr : Option ℕ) (cs : List Connection) (i : ℕ) (d : Connection)
      → s.plugindata ≡ cs ∷ []
      → find_slot 1 (drop 1 cs) ≡ ok i
      → i < maxint
      → get_elem? cs i ≡ some d
      → store_connection_information 0 ptr os s ≡ ok (i, stored cs i ptr)
  unfolding store_connection_information
  store_connection_information-stored ptr cs i d t e h g = ground arith

  retrieve_connection_information-stored :
      (cs : List Connection) (i : ℕ) (ptr : Option ℕ)
      → i < length cs
      → retrieve_connection_information 0 i os (stored cs i ptr) ≡ ok (ptr, stored cs i ptr)
  unfolding retrieve_connection_information
  retrieve_connection_information-stored cs i ptr h =
      ground (arith, get_elem?-set_self cs i (new_connection ptr) h)

  -- The first slot from 1 on that is not in use is given to the connection, with two new sockets;
  -- no other slot and no other variable changes, and the slot gives the data back. The table has
  -- its fifty slots, and one of them is not in use.
  pub store_connection_information_first :
      (ptr : Option ℕ) (c d : Connection) (taken rest : List Connection)
      → IsTable s (c ∷ taken ++ d ∷ rest)
      → All IsActive taken
      → d.active ≡ 0
      → (store_connection_information 0 ptr os s
          ≡ ok (suc (length taken), stored (c ∷ taken ++ d ∷ rest) (suc (length taken)) ptr))
        × (retrieve_connection_information 0
              (suc (length taken))
              os
              (stored (c ∷ taken ++ d ∷ rest) (suc (length taken)) ptr)
            ≡ ok (ptr, stored (c ∷ taken ++ d ∷ rest) (suc (length taken)) ptr))
  store_connection_information_first ptr c d taken rest t a f =
      let len = length-append taken (d ∷ rest) in
      let e : 1 + length taken ≡ suc (length taken) = omega arith in
      (
        store_connection_information-stored ptr _ _ d t.0
            (find_slot_first 1 taken d rest (omega (arith, t.1, len)) a f ∙ ap ok e)
            (omega (arith, t.1, len)) (get_elem?-append taken d rest),
        retrieve_connection_information-stored (c ∷ taken ++ d ∷ rest) _ ptr (omega (arith, len)),
      )

  store_connection_information-slot :
      (ptr : Option ℕ) (cs : List Connection) (i : ℕ) (s' : Machine)
      → s.plugindata ≡ cs ∷ []
      → store_connection_information 0 ptr os s ≡ ok (i, s')
      → (find_slot 1 (drop 1 cs) ≡ ok i) ⊎ (i ≡ 0)
  unfolding store_connection_information
  store_connection_information-slot ptr cs i s' t e = elim (Exec-cases (find_slot 1 (drop 1 cs))) [
    | inl (k, f) ↦ ground arith
    | inr (k, f) ↦ absurd (ground arith)
  ]

  remove-marks :
      (id : ℕ) (cs : List Connection) (s' : Machine)
      → IsTable s cs
      → remove_stored_connection_information 0 id os s ≡ ok (tt, s')
      → (cs' : List Connection) × (c : Connection) × IsTable s' cs'
        × (get_elem? cs' id ≡ some c)
        × (c.active ≡ 1)
  unfolding remove_stored_connection_information
  remove-marks id cs s' t e = elim (Option-cases (get_elem? cs id)) [
    | inl n ↦ absurd (ground arith)
    | inr (c, g) ↦ (
      set cs id (record c { active = 1 }),
      record c { active = 1 },
      (ground arith, length-set cs id _ ∙ t.1),
      get_elem?-set_self cs id _ (lt-get_elem? id cs g),
      refl,
    )
  ]

  -- Removing a connection that has data, which was not freed before, succeeds, and removing it a
  -- second time frees the data twice.
  pub remove_twice :
      (id p : ℕ) (c : Connection) (cs : List Connection)
      → IsTable s cs
      → get_elem? cs id ≡ some c
      → c.connectiondata ≡ some p
      → was_freed p s.freed ≡ false
      → (s' : Machine) × (remove_stored_connection_information 0 id os s ≡ ok (tt, s'))
        × (remove_stored_connection_information 0 id os s' ≡ fault double_free)
  unfolding remove_stored_connection_information
  remove_twice id p c cs t g d f = (
    record s { plugindata = set cs id (record c { active = 1 }) ∷ []; freed = p ∷ s.freed },
    ground arith,
    ground (arith, get_elem?-set_self cs id (record c { active = 1 }), lt-get_elem? id cs g),
  )

drop-get_elem? : (cs : List Connection) (j : ℕ) → get_elem? (drop 1 cs) j ≡ get_elem? cs (suc j)
drop-get_elem? [] j = refl
drop-get_elem? (c ∷ cs) j = refl

-- A slot that is in use is not given to another connection.
store_connection_information-ne :
    (os : Os) (s s' : Machine) (id i : ℕ) (ptr : Option ℕ) (cs : List Connection) (c : Connection)
    → IsTable s cs
    → get_elem? cs id ≡ some c
    → c.active ≢ 0
    → 0 < id
    → store_connection_information 0 ptr os s ≡ ok (i, s')
    → i ≢ id
store_connection_information-ne os s s' id i ptr cs c t g a h e =
    elim (store_connection_information-slot os s ptr cs i s' t.0 e) [
      | inl f ↦
          let (j, d, ek, ej, free) =
            find_slot-free 1 i (drop 1 cs) f (omega (arith, length-drop 1 cs, t.1)) in
          λ same. ground (arith, ej, drop-get_elem? cs j, g, free, a, ek, same)
      | inr z ↦ omega arith
    ]

-- A slot from which a connection was removed stays marked as in use: the connection that is stored
-- after the removal does not get it. The slot is not 0, and neither call faults.
pub remove-store-ne :
    (os : Os) (s s' s'' : Machine) (id i : ℕ) (ptr : Option ℕ) (cs : List Connection)
    → IsTable s cs
    → 0 < id
    → remove_stored_connection_information 0 id os s ≡ ok (tt, s')
    → store_connection_information 0 ptr os s' ≡ ok (i, s'')
    → i ≢ id
remove-store-ne os s s' s'' id i ptr cs t h r e =
    let (cs', c, t', g, a) = remove-marks os s id cs s' t r in
    store_connection_information-ne os s' s'' id i ptr cs' c t' g (omega arith) h e
