-- ===== src/Threads/Progress.antt =====
-- Each call of a thread brings what is in its pipe nearer to its way out, once its other descriptor
-- has become quiet.
use mathlib.Core.List.{append-nil}
use multivpn.Host.Main.{held}
use multivpn.Host.Order.{IsPipe}
use multivpn.Os.{Os, Call, Reply, read, select, selected}
use multivpn.Prelude.Int.{ℤ, int_gt, is_pos, int_eq_refl}
use multivpn.Prelude.{
  true, ℕ, suc, ◌+◌, ◌-◌, ◌*◌, ◌<◌, ◌≤◌, ◌≡◌, ◌∙◌, refl, ap, Bool, List, [], ◌∷◌, ◌++◌, Bytes,
  length, length-append, arith, inl, inr, Bool-cases,
}
use multivpn.TcpPlugin.Draining.{Waiting, selected-silent, selected-woken}
use multivpn.TcpPlugin.Nfds.{added_second}
use multivpn.TcpPlugin.Relay.{IsPosix, take-overlay}
use multivpn.TcpPlugin.Streams.{fetched, written}
use multivpn.TcpPlugin.{Loop}
use multivpn.Threads.Draining.{Since, IsIdle, pipe_plan}
use multivpn.Threads.{
  Direction, Plan, first, second, Pc, at_select, at_source, at_sink, asked, call_of, next_pc,
}

-- How many calls a thread is away from the end of what it does for its first descriptor.
abbrev pub before_clear : Pc → ℕ
before_clear (at_source first l) = 2
before_clear (at_sink first bytes l) = 1
before_clear _ = 0

-- How many calls a thread is away from handing on bytes, where some wait in its pipe.
abbrev pub rank : Pc → ℕ
rank (at_sink second (b ∷ bytes) l) = 0
rank (at_source second l) = 1
rank (at_select l) = 2
rank (at_sink side bytes l) = 3
rank (at_source first l) = 4

-- The bytes in the pipe, and those of them that the thread holds.
abbrev pub behind : Os → ℤ → ℤ → Pc → List Call → ℕ
behind os reading writing pc h =
    (length (written writing h) - length (fetched os reading h)) + length (held second pc)

abbrev pub effort : Os → ℤ → ℤ → Pc → List Call → ℕ
effort os reading writing pc h = 5 * behind os reading writing pc h + rank pc

pub before_clear-le : (pc : Pc) → before_clear pc ≤ 2
before_clear-le (at_source first l) = omega arith
before_clear-le (at_source second l) = omega arith
before_clear-le (at_sink first bytes l) = omega arith
before_clear-le (at_sink second bytes l) = omega arith
before_clear-le (at_select l) = omega arith

pub rank-le : (pc : Pc) → rank pc ≤ 4
rank-le (at_sink second (b ∷ bytes) l) = omega arith
rank-le (at_sink second [] l) = omega arith
rank-le (at_sink first bytes l) = omega arith
rank-le (at_source first l) = omega arith
rank-le (at_source second l) = omega arith
rank-le (at_select l) = omega arith

module _ (maxfd fd : ℤ) (direction : Direction) (clears : Bool) (reading : ℤ) (room : ℕ)
    (sink : Bytes → Call) (os : Os) (base : List Call) (writing : ℤ)
    (idle : IsIdle os base fd reading writing) where
  pub next_pc-before_clear :
      (pc : Pc) (h : List Call)
      → Since base h
      → let p = pipe_plan maxfd fd direction clears reading room sink in
        before_clear (next_pc p pc (os h (call_of p pc))) ≤ before_clear pc - 1
  next_pc-before_clear (at_select l) h b =
      let p : Plan = pipe_plan maxfd fd direction clears reading room sink in
      let r : Reply = os h (select maxfd (asked p l)) in
      let quiet =
        selected-silent (asked p l) r fd (idle.selects h maxfd (asked p l) b)
          (idle.silent h maxfd (asked p l) b) in
      elim (Bool-cases (selected (asked p l) r reading)) [
        | inl e ↦ rw (quiet, e) (omega arith)
        | inr e ↦ rw (quiet, e) (omega arith)
      ]
  next_pc-before_clear (at_source first l) h b =
      elim (Bool-cases (is_pos (os h direction.source).ret)) [
        | inl e ↦ rw e (omega arith)
        | inr e ↦ rw e (omega arith)
      ]
  next_pc-before_clear (at_source second l) h b =
      elim (Bool-cases (is_pos (os h (read reading (suc room))).ret)) [
        | inl e ↦ rw e (omega arith)
        | inr e ↦ rw e (omega arith)
      ]
  next_pc-before_clear (at_sink first bytes l) h b = omega arith
  next_pc-before_clear (at_sink second bytes l) h b = omega arith

-- A call that neither reads the pipe nor writes to it.
pub record Skips (os : Os) (reading writing : ℤ) (c : Call) : Type 0 where
  pub fetched_same : (h : List Call) → fetched os reading (c ∷ h) ≡ fetched os reading h
  pub written_same : (h : List Call) → written writing (c ∷ h) ≡ written writing h

-- From the one place and calls to the others, no byte more is behind, and where some are, less is
-- to be done for them.
pub record Nearer (os : Os) (reading writing : ℤ) (pc : Pc) (h : List Call) (pc' : Pc)
    (h' : List Call) : Type 0 where
  pub fewer : behind os reading writing pc' h' ≤ behind os reading writing pc h
  pub sooner :
      0 < behind os reading writing pc h
      → effort os reading writing pc' h' < effort os reading writing pc h

-- A call that leaves the pipe alone, behind which the thread holds no more than before.
Skips-Nearer :
    (os : Os) (reading writing : ℤ) (c : Call) (pc : Pc) (h : List Call) (pc' : Pc)
    → Skips os reading writing c
    → length (held second pc') ≤ length (held second pc)
    → (0 < behind os reading writing pc h
        → 5 * length (held second pc') + rank pc' < 5 * length (held second pc) + rank pc)
    → Nearer os reading writing pc h pc' (c ∷ h)
Skips-Nearer os reading writing c pc h pc' s less rank_less =
    let f = ap {B = ℕ} length (s.fetched_same h) in
    let w = ap {B = ℕ} length (s.written_same h) in
    record {
      fewer = omega (arith, f, w, less);
      sooner = λ some. let r = rank_less some in omega (arith, f, w, less, r);
    }

-- The bytes that a read has taken from the pipe are held.
taken :
    {os : Os} {reading writing : ℤ} (l l' : Loop) (h : List Call) (room : ℕ) (bytes rest : Bytes)
    → let h' = read reading room ∷ h in
      length (fetched os reading h' ++ rest) ≡ length (written writing h')
      → length (fetched os reading h') ≡ length (fetched os reading h) + length bytes
      → 0 < length bytes
      → Nearer os reading writing (at_source second l) h (at_sink second bytes l') h'
taken l l' h room [] rest f longer some = absurd (omega (arith, some))
taken {os} {reading} {writing} l l' h room (x ∷ bytes) rest f longer some =
    let split = length-append (fetched os reading (read reading room ∷ h)) rest in
    record {
      fewer = omega (arith, f, longer, split);
      sooner = λ waits. omega (arith, f, longer, split);
    }

module _ (maxfd fd : ℤ) (direction : Direction) (clears : Bool) (reading : ℤ) (room : ℕ)
    (sink : Bytes → Call) (os : Os) (base : List Call) (writing : ℤ)
    (idle : IsIdle os base fd reading writing) (above : int_gt maxfd reading ≡ true)
    (posix : IsPosix os) (pipe : IsPipe os reading writing)
    (source_skips : Skips os reading writing direction.source)
    (first_skips : (bytes : Bytes) → Skips os reading writing (direction.sink bytes))
    (second_skips : (bytes : Bytes) → Skips os reading writing (sink bytes)) where
  at_select-Nearer :
      (l : Loop) (h : List Call)
      → Since base h
      → let p = pipe_plan maxfd fd direction clears reading room sink in
        let pc = at_select l in
        Nearer os reading writing pc h (next_pc p pc (os h (call_of p pc))) (call_of p pc ∷ h)
  at_select-Nearer l h b =
      let p : Plan = pipe_plan maxfd fd direction clears reading room sink in
      let ask : Call = select maxfd (asked p l) in
      let r : Reply = os h ask in
      let n = idle.selects h maxfd (asked p l) b in
      let quiet = selected-silent (asked p l) r fd n (idle.silent h maxfd (asked p l) b) in
      let woken = λ (w : Waiting os reading writing h).
        selected-woken fd reading l.set_reading r n
          (idle.wakes h maxfd (asked p l) above (added_second fd reading l.set_reading) b w) in
      let skips : Skips os reading writing ask = record {
        fetched_same = λ h. refl;
        written_same = λ h. refl;
      } in
      elim (Bool-cases (selected (asked p l) r reading)) [
        | inl e ↦
            rw (quiet, e)
              (Skips-Nearer os reading writing ask (at_select l) h _ skips (omega arith)
                (λ some. omega arith))
        | inr e ↦
            rw (quiet, e)
              (Skips-Nearer os reading writing ask (at_select l) h _ skips (omega arith)
                (λ some. absurd (cc (woken (omega (arith, some)), e))))
      ]

  at_source_second-Nearer :
      (l : Loop) (h : List Call)
      → Since base h
      → let p = pipe_plan maxfd fd direction clears reading room sink in
        let pc = at_source second l in
        Nearer os reading writing pc h (next_pc p pc (os h (call_of p pc))) (call_of p pc ∷ h)
  at_source_second-Nearer l h b =
      let c : Call = read reading (suc room) in
      let x : Reply = os h c in
      let is_read = posix.reads h reading (suc room) in
      let (rest, f) = pipe (c ∷ h) in
      let fits = ap {B = ℕ} length f in
      elim (Bool-cases (is_pos x.ret)) [
        | inl e ↦
            let more : fetched os reading (c ∷ h) ≡ fetched os reading h ++ x.bytes =
              rw (int_eq_refl reading, e) refl in
            let longer = ap {B = ℕ} length more ∙ length-append (fetched os reading h) x.bytes in
            rw (e, take-overlay x l.buffer is_read)
              (taken l _ h (suc room) x.bytes rest fits longer (ground (arith, is_read.counted, e)))
        | inr e ↦
            let same : fetched os reading (c ∷ h) ≡ fetched os reading h =
              rw (int_eq_refl reading, e, append-nil) refl in
            let equal = ap {B = ℕ} length same in
            rw e (record {
              fewer = omega (arith, equal);
              sooner = λ some. absurd (cc (idle.brings h room b (omega (arith, some)), e));
            })
      ]

  -- A call of a thread in any place brings its pipe nearer to being empty.
  pub next_pc-Nearer :
      (pc : Pc) (h : List Call)
      → Since base h
      → let p = pipe_plan maxfd fd direction clears reading room sink in
        Nearer os reading writing pc h (next_pc p pc (os h (call_of p pc))) (call_of p pc ∷ h)
  next_pc-Nearer (at_select l) h b = at_select-Nearer l h b
  next_pc-Nearer (at_source second l) h b = at_source_second-Nearer l h b
  next_pc-Nearer (at_source first l) h b = elim (Bool-cases (is_pos (os h direction.source).ret)) [
    | inl e ↦ rw e (
        Skips-Nearer os reading writing direction.source (at_source first l) h _ source_skips
          (omega arith) (λ some. omega arith))
    | inr e ↦ rw e (
        Skips-Nearer os reading writing direction.source (at_source first l) h _ source_skips
          (omega arith) (λ some. omega arith))
  ]
  next_pc-Nearer (at_sink first bytes l) h b =
      Skips-Nearer os reading writing (direction.sink bytes) (at_sink first bytes l) h _
        (first_skips bytes) (omega arith) (λ some. omega arith)
  next_pc-Nearer (at_sink second [] l) h b =
      Skips-Nearer os reading writing (sink []) (at_sink second [] l) h _ (second_skips [])
        (omega arith) (λ some. omega arith)
  next_pc-Nearer (at_sink second (x ∷ bytes) l) h b =
      Skips-Nearer os reading writing (sink (x ∷ bytes)) (at_sink second (x ∷ bytes) l) h _
        (second_skips (x ∷ bytes)) (omega arith) (λ some. omega arith)
