-- ===== src/GenericTunnel/Refinement.antt =====
-- Any sequence of operations of generictunel.c answers as the ledger promises.
use multivpn.GenericTunnel.Agreement.{op-Agrees}
use multivpn.GenericTunnel.{no_connections}
use multivpn.Machine.{Machine}
use multivpn.Os.{Os}
use multivpn.GenericTunnel.Ledger.{
  Ledger, Op, Answer, run_op, promised, promised_all, AllAllowed, answers_of, Holds, run,
}
use multivpn.Prelude.Int.{pos}
use multivpn.Prelude.{
  ◌≡◌, ◌∙◌, refl, sym, ap, List, [], ◌∷◌, none, Exec, ok, fault, arith, inl, inr, Exec-cases,
  replicate,
}

abbrev cons_answer : Answer → Exec (List Answer) → Exec (List Answer)
cons_answer a (ok answers) = ok (a ∷ answers)
cons_answer a (fault e) = fault e

run-cons :
    (os : Os) (op : Op) (ops : List Op) (s s' : Machine) (a : Answer)
    → run_op op os s ≡ ok (a, s')
    → answers_of (run (op ∷ ops) os s) ≡ cons_answer a (answers_of (run ops os s'))
run-cons os op ops s s' a e = elim (Exec-cases (run ops os s')) [
  | inl (x, f) ↦ ground (arith, e, f)
  | inr (x, f) ↦ ground (arith, e, f)
]

promised_all-cons :
    (op : Op) (ops : List Op) (l l' : Ledger) (a : Answer)
    → promised op l ≡ ok (a, l')
    → answers_of (promised_all (op ∷ ops) l) ≡ cons_answer a (answers_of (promised_all ops l'))
promised_all-cons op ops l l' a e = elim (Exec-cases (promised_all ops l')) [
  | inl (x, f) ↦ ground (arith, e, f)
  | inr (x, f) ↦ ground (arith, e, f)
]

-- Whatever operations are made on a table that holds a ledger, the answers, and a fault where there
-- is one, are those that the ledger promises. Connections are retrieved and removed by the numbers
-- that they were given.
pub run-refines :
    (ops : List Op) (os : Os) (l : Ledger) (s : Machine)
    → Holds l s
    → AllAllowed ops l
    → answers_of (run ops os s) ≡ answers_of (promised_all ops l)
run-refines [] os l s h a = refl
run-refines (op ∷ ops) os l s h (a, more) = elim (op-Agrees os l s op a h) [
  | inr (e, p, r) ↦ ground (arith, p, r)
  | inl (answer, l', s', p, r, h') ↦
      run-cons os op ops s s' answer r
      ∙ ap (cons_answer answer) (run-refines ops os l' s' h' (rw p at more))
      ∙ sym (promised_all-cons op ops l l' answer p)
]

-- The zeroed table holds the empty ledger.
pub no_connections-Holds :
    (s : Machine)
    → s.plugindata ≡ no_connections ∷ []
    → s.freed ≡ []
    → Holds (record { entries = []; freed = [] }) s
no_connections-Holds s e f = record {
  slot_0 = record { connectiondata = none; sendsocket = pos 0; recvsocket = pos 0; active = 0 };
  taken = [];
  unused =
      replicate 49
        (record { connectiondata = none; sendsocket = pos 0; recvsocket = pos 0; active = 0 });
  table = e;
  sized = refl;
  active = tt;
  inactive = ground arith;
  entries = refl;
  freed = f;
}
