-- ===== src/Threads/Draining.antt =====
-- A thread of Threads empties its pipe once its other descriptor has become quiet.
use mathlib.Core.List.{append-nil}
use multivpn.Host.Order.{IsPipe}
use multivpn.Os.{Os, Call, Reply, FdSet, read, select, selected, fd_add}
use multivpn.Prelude.Int.{ℤ, int_gt, is_neg, is_pos, pos_part, int_eq_refl}
use multivpn.Prelude.{
  ℕ, zero, suc, ◌+◌, ◌<◌, ◌≤◌, ◌≡◌, ◌∙◌, refl, sym, ap, Bool, true, false, List, [], ◌∷◌, ◌++◌,
  Bytes, length, length-append, take, ltb, if◌then◌else◌, arith, inl, inr, Bool-cases,
}
use multivpn.TcpPlugin.Draining.{Waiting, selected-silent, selected-woken}
use multivpn.TcpPlugin.Nfds.{added_second}
use multivpn.TcpPlugin.Relay.{IsPosix}
use multivpn.TcpPlugin.Streams.{fetched, written}
use multivpn.TcpPlugin.{Loop, overlay}
use multivpn.Threads.Rounds.{solo_round, round_result, solo_round-round_result}
use multivpn.Threads.{Direction, Plan, at_select, asked}

-- The calls `h` come after the calls `base`.
abbrev pub Since : List Call → List Call → Type 0
Since base h = (new : List Call) × (h ≡ new ++ base)

pub Since-cons : {base h : List Call} (c : Call) → Since base h → Since base (c ∷ h)
Since-cons c (new, e) = (c ∷ new, ap (λ x. c ∷ x) e)

-- From the calls `base` on `select` does not fail and does not find `fd` ready; where bytes wait in
-- the pipe, which is below `select`'s first argument and in its set, it finds the pipe ready, and a read with room for a byte brings at least one.
pub record IsIdle (os : Os) (base : List Call) (fd reading writing : ℤ) : Type 0 where
  pub selects :
      (h : List Call) (maxfd : ℤ) (set : FdSet)
      → Since base h
      → is_neg (os h (select maxfd set)).ret ≡ false
  pub silent :
      (h : List Call) (maxfd : ℤ) (set : FdSet)
      → Since base h
      → (os h (select maxfd set)).ready fd ≡ false
  pub wakes :
      (h : List Call) (maxfd : ℤ) (set : FdSet)
      → int_gt maxfd reading ≡ true
      → set reading ≡ true
      → Since base h
      → Waiting os reading writing h
      → (os h (select maxfd set)).ready reading ≡ true
  pub brings :
      (h : List Call) (n : ℕ)
      → Since base h
      → Waiting os reading writing h
      → is_pos (os h (read reading (suc n))).ret ≡ true

-- A plan whose second descriptor is the reading end of a pipe, read `suc room` bytes at a time.
abbrev pub pipe_plan : ℤ → ℤ → Direction → Bool → ℤ → ℕ → (Bytes → Call) → Plan
pipe_plan maxfd fd direction clears reading room sink = record {
  maxfd = maxfd;
  first_fd = fd;
  second_fd = reading;
  first_direction = direction;
  second_direction = record { source = read reading (suc room); sink = sink };
  clears = clears;
}

module _ (os : Os) (p : Plan) (reading : ℤ) (room : ℕ) (sink : Bytes → Call) where
  -- Rounds each of which brings bytes from the pipe and hands them on.
  pub data Drives (l : Loop) (h : List Call) : Loop → List Call → Type 0 where
    still : Drives l h l h
    round :
        {l' l'' : Loop} {t : List Call}
        → Drives l h l' t
        → (bytes : Bytes) (set : FdSet)
        → solo_round p os l' t
          ≡ (at_select l'', sink bytes ∷ read reading (suc room) ∷ select p.maxfd set ∷ t)
        → Drives l h l'' (sink bytes ∷ read reading (suc room) ∷ select p.maxfd set ∷ t)

  -- What such calls leave alone.
  pub Drives-same :
      {l : Loop} {h : List Call} {l' : Loop} {t : List Call} (count : List Call → Bytes)
      → ((bytes : Bytes) (set : FdSet) (h : List Call)
          → count (sink bytes ∷ read reading (suc room) ∷ select p.maxfd set ∷ h) ≡ count h)
      → Drives l h l' t
      → count t ≡ count h
  Drives-same count same still = refl
  Drives-same count same (round {t = t} d bytes set e) = same bytes set t ∙ Drives-same count same d

  pub Drives-Since :
      {base : List Call} {l : Loop} {h : List Call} {l' : Loop} {t : List Call}
      → Since base h
      → Drives l h l' t
      → Since base t
  Drives-Since b still = b
  Drives-Since b (round d bytes set e) =
      Since-cons _ (Since-cons _ (Since-cons _ (Drives-Since b d)))

  Drives-trans :
      {l : Loop} {h : List Call} {l' : Loop} {t : List Call} {l'' : Loop} {u : List Call}
      → Drives l h l' t
      → Drives l' t l'' u
      → Drives l h l'' u
  Drives-trans a still = a
  Drives-trans a (round d bytes set e) = round (Drives-trans a d) bytes set e

-- A pipe of which all was read.
pub no_rest : (a rest b : Bytes) → a ++ rest ≡ b → length b ≤ length a → a ≡ b
no_rest a [] b e h = sym (append-nil a) ∙ e
no_rest a (x ∷ rest) b e h =
    absurd (omega (arith, h, length-append a (x ∷ rest), ap {B = ℕ} length e))

-- Where bytes wait, a round brings some of them, and so many rounds as there are bytes bring all.
module _ (maxfd fd : ℤ) (direction : Direction) (clears : Bool) (reading : ℤ) (room : ℕ)
    (sink : Bytes → Call) (os : Os) (base : List Call) (writing : ℤ)
    (idle : IsIdle os base fd reading writing) (above : int_gt maxfd reading ≡ true) where
  round-Waiting :
      (l : Loop) (h : List Call)
      → Since base h
      → Waiting os reading writing h
      → let p = pipe_plan maxfd fd direction clears reading room sink in
        (l' : Loop) × (bytes : Bytes) × (solo_round p os l h
          ≡ (at_select l', sink bytes ∷ read reading (suc room) ∷ select maxfd (asked p l) ∷ h))
  round-Waiting l h b w =
      let p : Plan = pipe_plan maxfd fd direction clears reading room sink in
      let ask : Call = select maxfd (asked p l) in
      let r : Reply = os h ask in
      let n = idle.selects h maxfd (asked p l) b in
      let quiet = selected-silent (asked p l) r fd n (idle.silent h maxfd (asked p l) b) in
      let woken =
        selected-woken fd reading l.set_reading r n
          (idle.wakes h maxfd (asked p l) above (added_second fd reading l.set_reading) b w) in
      let some = idle.brings (ask ∷ h) room (Since-cons ask b) w in
      let x : Reply = os (ask ∷ h) (read reading (suc room)) in
      let filled = overlay x.bytes l.buffer in
      let l' : Loop = record {
        buffer = filled;
        set_reading = if clears then (λ fd. false) else selected (asked p l) r;
      } in
      let bytes : Bytes = take (pos_part x.ret) filled in
      let made : List Call = sink bytes ∷ read reading (suc room) ∷ ask ∷ h in
      let result : round_result p os l h ≡ (l', made) = rw (quiet, woken, some) in
      (
        l',
        bytes,
        solo_round-round_result p os l h
            ∙ ap (λ (x : Loop × List Call). (at_select x.0, x.1)) result,
      )

  module _ (posix : IsPosix os) (pipe : IsPipe os reading writing)
      (keeps_fetched : (bytes : Bytes) (h : List Call)
        → fetched os reading (sink bytes ∷ h) ≡ fetched os reading h)
      (keeps_written : (bytes : Bytes) (h : List Call)
        → written writing (sink bytes ∷ h) ≡ written writing h) where
    -- The read of such a round counts.
    more_fetched :
        (bytes : Bytes) (set : FdSet) (h : List Call)
        → Since base h
        → Waiting os reading writing h
        → length (fetched os reading h)
          < length
              (fetched os reading (sink bytes ∷ read reading (suc room) ∷ select maxfd set ∷ h))
    more_fetched bytes set h b w =
        let begun : List Call = select maxfd set ∷ h in
        let x : Reply = os begun (read reading (suc room)) in
        let some = idle.brings begun room (Since-cons (select maxfd set) b) w in
        let counted = (posix.reads begun reading (suc room)).counted in
        let all : fetched os reading (sink bytes ∷ read reading (suc room) ∷ begun)
            ≡ fetched os reading h ++ x.bytes =
          keeps_fetched bytes (read reading (suc room) ∷ begun)
          ∙ rw (int_eq_refl reading, some) refl in
        ground (arith, all, counted, some, length-append (fetched os reading h) x.bytes)

    pub drains :
        (n : ℕ) (l : Loop) (h : List Call)
        → Since base h
        → length (written writing h) ≤ length (fetched os reading h) + n
        → let p = pipe_plan maxfd fd direction clears reading room sink in
          (l' : Loop) × (t : List Call) × Drives os p reading room sink l h l' t
          × (fetched os reading t ≡ written writing t)
    drains zero l h b m =
        let (rest, e) = pipe h in (l, h, still, no_rest _ rest _ e (omega (arith, m)))
    drains (suc n) l h b m =
        let less = ltb (length (fetched os reading h)) (length (written writing h)) in
        elim (Bool-cases less) [
          | inr e ↦ let (rest, f) = pipe h in (l, h, still, no_rest _ rest _ f (ground (arith, e)))
          | inl e ↦
              let w : Waiting os reading writing h = ground (arith, e) in
              let (l', bytes, run) = round-Waiting l h b w in
              let set = fd_add fd (fd_add reading l.set_reading) in
              let t : List Call = sink bytes ∷ read reading (suc room) ∷ select maxfd set ∷ h in
              let first = round still bytes set run in
              let more = more_fetched bytes set h b w in
              let same : written writing t ≡ written writing h = keeps_written bytes _ in
              let (l'', t', rest, done) =
                drains n l' t (Drives-Since os _ reading room sink b first)
                  (omega (arith, m, more, ap {B = ℕ} length same)) in
              (l'', t', Drives-trans os _ reading room sink first rest, done)
        ]
