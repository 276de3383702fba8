-- ===== src/GenericTunnel/Agreement.antt =====
-- Each operation of generictunel.c does what the ledger promises.
use mathlib.Core.List.{append-nil, map-append}
use multivpn.GenericTunnel.Slots.{
  IsActive, stored, store_connection_information_first, store_connection_information-full,
}
use multivpn.GenericTunnel.{
  was_freed, retrieve_connection_information, remove_stored_connection_information,
}
use multivpn.Machine.{Machine, Connection, ◌>>=◌}
use multivpn.Os.{Os, socket, stream}
use multivpn.GenericTunnel.Ledger.{
  Ledger, Op, store, retrieve, remove, Answer, number, found, released, run_op, promised, Given,
  Allowed, data_of, Holds,
}
use multivpn.Prelude.{
  ℕ, zero, suc, ◌+◌, ◌≡◌, ◌⊎◌, ◌∙◌, refl, ap, List, [], ◌∷◌, ◌++◌, map, Option, none, some, All,
  All-append, length, length-append, get_elem?, set, ok, fault, Fault, out_of_bounds, double_free,
  arith, inl, inr, Bool-cases,
}

length-data_of : (cs : List Connection) → length (map data_of cs) ≡ length cs
length-data_of [] = refl
length-data_of (c ∷ cs) = ap {B = ℕ} suc (length-data_of cs)

set-append_length :
    (xs : List Connection) (d x : Connection) (ys : List Connection)
    → set (xs ++ d ∷ ys) (length xs) x ≡ (xs ++ x ∷ []) ++ ys
set-append_length [] d x ys = refl
set-append_length (c ∷ xs) d x ys = ap (λ cs. c ∷ cs) (set-append_length xs d x ys)

-- The slot of a number that was given.
record Slot (xs ys : List Connection) (k : ℕ) (p : Option ℕ) : Type 0 where
  pub slot : Connection
  pub holds : slot.connectiondata ≡ p
  pub stands : get_elem? (xs ++ ys) k ≡ some slot
  pub marked : List Connection
  pub marks : set (xs ++ ys) k (record slot { active = 1 }) ≡ marked ++ ys
  pub same_data : map data_of marked ≡ map data_of xs
  pub same_length : length marked ≡ length xs
  pub marked_active : All IsActive xs → All IsActive marked

get_elem?-Slot :
    (xs ys : List Connection) (k : ℕ) (p : Option ℕ)
    → get_elem? (map data_of xs) k ≡ some p
    → Slot xs ys k p
get_elem?-Slot [] ys k p e = absurd (cc e)
get_elem?-Slot (x ∷ xs) ys zero p e = record {
  slot = x;
  holds = cc e;
  stands = refl;
  marked = record x { active = 1 } ∷ xs;
  marks = refl;
  same_data = refl;
  same_length = refl;
  marked_active = λ a. (omega arith, a.1);
}
get_elem?-Slot (x ∷ xs) ys (suc k) p e =
    let r = get_elem?-Slot xs ys k p e in
    record {
      slot = r.slot;
      holds = r.holds;
      stands = r.stands;
      marked = x ∷ r.marked;
      marks = ap (λ cs. x ∷ cs) r.marks;
      same_data = ap (λ ds. data_of x ∷ ds) r.same_data;
      same_length = ap {B = ℕ} suc r.same_length;
      marked_active = λ a. (a.0, r.marked_active a.1);
    }

-- One operation, as it is promised and as it runs: the same answer, or the same fault.
abbrev pub Agrees : Os → Op → Ledger → Machine → Type 0
Agrees os op l s =
    ((a : Answer) × (l' : Ledger) × (s' : Machine) × (promised op l ≡ ok (a, l'))
      × (run_op op os s ≡ ok (a, s'))
      × Holds l' s')
    ⊎ ((e : Fault) × (promised op l ≡ fault e) × (run_op op os s ≡ fault e))

module _ (os : Os) (l : Ledger) (s : Machine) where
  store-Agrees :
      (ptr : Option ℕ) (c : Connection) (taken unused : List Connection)
      → s.plugindata ≡ (c ∷ taken ++ unused) ∷ []
      → length taken + length unused ≡ 49
      → All IsActive taken
      → All (λ c. c.active ≡ 0) unused
      → map data_of taken ≡ l.entries
      → s.freed ≡ l.freed
      → Agrees os (store ptr) l s
  store-Agrees ptr c taken [] t n a u e f =
      let count : length l.entries ≡ 49 =
        omega (arith, n, length-data_of taken, ap {B = ℕ} length e) in
      let table : s.plugindata ≡ (c ∷ taken) ∷ [] =
        t ∙ ap (λ cs. (c ∷ cs) ∷ []) (append-nil taken) in
      inr (
        out_of_bounds,
        rw count refl,
        rw (store_connection_information-full os s ptr c taken (table, omega (arith, n)) a, ◌>>=◌),
      )
  store-Agrees ptr c taken (d ∷ rest) t n a u e f =
      let count : length l.entries ≡ length taken =
        omega (arith, length-data_of taken, ap {B = ℕ} length e) in
      let first =
        store_connection_information_first os s ptr c d taken rest
          (t, omega (arith, n, length-append taken (d ∷ rest))) a u.0 in
      let new : Connection = record {
        connectiondata = ptr;
        sendsocket = (os s.trace (socket stream)).ret;
        recvsocket = (os (socket stream ∷ s.trace) (socket stream)).ret;
        active = 1;
      } in
      inl (
        number (suc (length taken)),
        record l { entries = l.entries ++ ptr ∷ [] },
        stored os s (c ∷ taken ++ d ∷ rest) (suc (length taken)) ptr,
        rw count (ground (arith, n)),
        rw (first.0, ◌>>=◌),
        record {
          slot_0 = c;
          taken = taken ++ new ∷ [];
          unused = rest;
          table = ap (λ cs. (c ∷ cs) ∷ []) (set-append_length taken d new rest);
          sized = omega (arith, n, length-append taken (new ∷ []));
          active = All-append IsActive taken (new ∷ []) a (omega arith, tt);
          inactive = u.1;
          entries = rw (map-append, e);
          freed = f;
        },
      )

  retrieve-Agrees : (id : ℕ) → Given id l → Holds l s → Agrees os (retrieve id) l s
  unfolding retrieve_connection_information
  retrieve-Agrees id (k, p, i, g) h =
      let r = get_elem?-Slot h.taken h.unused k p (ap (λ ps. get_elem? ps k) h.entries ∙ g) in
      inl (found p, l, s, ground (arith, i, g), ground (arith, i, h.table, r.stands, r.holds), h)

  marked-Holds :
      (k : ℕ) (p : Option ℕ) (fs fs' : List ℕ) (h : Holds l s) (r : Slot h.taken h.unused k p)
      → fs' ≡ fs
      → Holds
          (record l { freed = fs })
          (record s { plugindata = (h.slot_0 ∷ r.marked ++ h.unused) ∷ []; freed = fs' })
  marked-Holds k p fs fs' h r e = record {
    slot_0 = h.slot_0;
    taken = r.marked;
    unused = h.unused;
    table = refl;
    sized = omega (arith, h.sized, r.same_length);
    active = r.marked_active h.active;
    inactive = h.inactive;
    entries = r.same_data ∙ h.entries;
    freed = e;
  }

  remove-Agrees : (id : ℕ) → Given id l → Holds l s → Agrees os (remove id) l s
  unfolding remove_stored_connection_information
  remove-Agrees id (k, none, i, g) h =
      let r = get_elem?-Slot h.taken h.unused k none (ap (λ ps. get_elem? ps k) h.entries ∙ g) in
      inl (
        released,
        l,
        record s { plugindata = (h.slot_0 ∷ r.marked ++ h.unused) ∷ [] },
        ground (arith, i, g),
        ground (arith, i, h.table, r.stands, r.holds, r.marks),
        marked-Holds k none l.freed s.freed h r h.freed,
      )
  remove-Agrees id (k, some p, i, g) h =
      let r =
        get_elem?-Slot h.taken h.unused k (some p) (ap (λ ps. get_elem? ps k) h.entries ∙ g) in
      let same : was_freed p s.freed ≡ was_freed p l.freed = ap (was_freed p) h.freed in
      elim (Bool-cases (was_freed p l.freed)) [
        | inl e ↦ inr (
          double_free,
          ground (arith, i, g, e),
          ground (arith, i, h.table, r.stands, r.holds, same, e),
        )
        | inr e ↦ inl (
          released,
          record l { freed = p ∷ l.freed },
          record s { plugindata = (h.slot_0 ∷ r.marked ++ h.unused) ∷ []; freed = p ∷ s.freed },
          ground (arith, i, g, e),
          ground (arith, i, h.table, r.stands, r.holds, r.marks, same, e),
          marked-Holds k (some p) (p ∷ l.freed) (p ∷ s.freed) h r (ap (λ ps. p ∷ ps) h.freed),
        )
      ]

  pub op-Agrees : (op : Op) → Allowed op l → Holds l s → Agrees os op l s
  op-Agrees (store ptr) a h =
      store-Agrees ptr h.slot_0 h.taken h.unused h.table h.sized h.active h.inactive h.entries
        h.freed
  op-Agrees (retrieve id) a h = retrieve-Agrees id a h
  op-Agrees (remove id) a h = remove-Agrees id a h
