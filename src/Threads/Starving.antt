-- ===== src/Threads/Starving.antt =====
-- The loops of main.c and tcp_plugin.c do not look at their pipe while the other descriptor is ready.
use mathlib.Core.List.{append-nil}
use multivpn.Machine.{Machine, ◌>>=◌}
use multivpn.Os.{Os, Call, Reply, FdSet, select, fd_add, selected}
use multivpn.Prelude.Int.{ℤ, int_gt, is_neg, is_pos, int_eq_refl, int_eq_ne}
use multivpn.Prelude.{
  ℕ, zero, suc, ◌≡◌, ◌≢◌, ◌∙◌, refl, true, false, List, ◌∷◌, Bytes, ok, inl, inr, Bool-cases,
}
use multivpn.Program.{main_rounds}
use multivpn.TcpPlugin.Nfds.{added_first, max_fd_first}
use multivpn.TcpPlugin.Streams.{fetched, written, sent}
use multivpn.TcpPlugin.{Loop, max_fd, tunnel_rounds}
use multivpn.Threads.Rounds.{round_result, main_round-round_result, tunnel_round-round_result}
use multivpn.Threads.{Plan, asked, main_plan, tcp_plan}

-- `select` does not fail, and finds the descriptor ready each time that it is below its first argument
-- and in its set.
pub record IsBusy (os : Os) (fd : ℤ) : Type 0 where
  pub selects :
      (h : List Call) (maxfd : ℤ) (set : FdSet) → is_neg (os h (select maxfd set)).ret ≡ false
  pub ready :
      (h : List Call) (maxfd : ℤ) (set : FdSet)
      → int_gt maxfd fd ≡ true
      → set fd ≡ true
      → (os h (select maxfd set)).ready fd ≡ true

selected-ready :
    (fd : ℤ) (set : FdSet) (r : Reply)
    → is_neg r.ret ≡ false
    → r.ready fd ≡ true
    → selected (fd_add fd set) r fd ≡ true
selected-ready fd set r n e = rw (n, e, int_eq_refl fd)

-- What the calls of the first direction do not count for, a round does not change.
round_result-same :
    (p : Plan) (os : Os) (count : List Call → Bytes) (l : Loop) (h : List Call)
    → IsBusy os p.first_fd
    → int_gt p.maxfd p.first_fd ≡ true
    → ((maxfd : ℤ) (set : FdSet) (h : List Call) → count (select maxfd set ∷ h) ≡ count h)
    → ((h : List Call) → count (p.first_direction.source ∷ h) ≡ count h)
    → ((bytes : Bytes) (h : List Call) → count (p.first_direction.sink bytes ∷ h) ≡ count h)
    → count (round_result p os l h).1 ≡ count h
round_result-same p os count l h busy above asks reads writes =
    let ask : Call = select p.maxfd (asked p l) in
    let r : Reply = os h ask in
    let e =
      selected-ready p.first_fd (fd_add p.second_fd l.set_reading) r
        (busy.selects h p.maxfd (asked p l))
        (busy.ready h p.maxfd (asked p l) above
          (added_first p.first_fd (fd_add p.second_fd l.set_reading))) in
    elim (Bool-cases (is_pos (os (ask ∷ h) p.first_direction.source).ret)) [
      | inl f ↦ rw (e, f) (writes _ _ ∙ reads _ ∙ asks _ _ h)
      | inr f ↦ rw (e, f) (reads _ ∙ asks _ _ h)
    ]

main_rounds-starves :
    (n : ℕ) (fd : ℤ) (l : Loop) (os : Os) (s : Machine)
    → IsBusy os fd
    → fd ≢ (s.globals.pipe_from_plugin).0
    → (s.globals.pipe_to_plugin).1 ≢ fd
    → (l' : Loop) × (t : List Call) × (main_rounds n fd
          (max_fd fd (s.globals.pipe_from_plugin).0)
          l
          os
          s
        ≡ ok (l', record s { trace = t }))
      × (fetched os (s.globals.pipe_from_plugin).0 t
          ≡ fetched os (s.globals.pipe_from_plugin).0 s.trace)
      × (written fd t ≡ written fd s.trace)
unfolding main_rounds
main_rounds-starves zero fd l os s b x y = (l, s.trace, refl, refl, refl)
main_rounds-starves (suc n) fd l os s b x y =
    let pipe_in : ℤ = (s.globals.pipe_from_plugin).0 in
    let pipe_out : ℤ = (s.globals.pipe_to_plugin).1 in
    let p : Plan = main_plan fd pipe_in pipe_out in
    let t : List Call = (round_result p os l s.trace).1 in
    let (l', t', run, f, w) =
      main_rounds-starves n fd (round_result p os l s.trace).0 os (record s { trace = t }) b x y in
    (
      l',
      t',
      rw (main_round-round_result fd l os s, ◌>>=◌, run),
      f
          ∙ round_result-same p os (fetched os pipe_in) l s.trace b (max_fd_first fd pipe_in)
              (λ m set h. refl) (λ h. rw (int_eq_ne fd pipe_in x, append-nil)) (λ bytes h. refl),
      w
          ∙ round_result-same p os (written fd) l s.trace b (max_fd_first fd pipe_in)
              (λ m set h. refl) (λ h. refl) (λ bytes h. rw (int_eq_ne pipe_out fd y, append-nil)),
    )

tunnel_rounds-starves :
    (n : ℕ) (fd : ℤ) (l : Loop) (os : Os) (s : Machine)
    → IsBusy os fd
    → (l' : Loop) × (t : List Call) × (tunnel_rounds n fd
          (max_fd fd (s.globals.pipe_to_plugin).0)
          l
          os
          s
        ≡ ok (l', record s { trace = t }))
      × (fetched os (s.globals.pipe_to_plugin).0 t
          ≡ fetched os (s.globals.pipe_to_plugin).0 s.trace)
      × (sent fd t ≡ sent fd s.trace)
unfolding tunnel_rounds
tunnel_rounds-starves zero fd l os s b = (l, s.trace, refl, refl, refl)
tunnel_rounds-starves (suc n) fd l os s b =
    let pipe_in : ℤ = (s.globals.pipe_to_plugin).0 in
    let p : Plan = tcp_plan fd pipe_in (s.globals.pipe_from_plugin).1 in
    let t : List Call = (round_result p os l s.trace).1 in
    let (l', t', run, f, w) =
      tunnel_rounds-starves n fd (round_result p os l s.trace).0 os (record s { trace = t }) b in
    (
      l',
      t',
      rw (tunnel_round-round_result fd l os s, ◌>>=◌, run),
      f
          ∙ round_result-same p os (fetched os pipe_in) l s.trace b (max_fd_first fd pipe_in)
              (λ m set h. refl) (λ h. refl) (λ bytes h. refl),
      w
          ∙ round_result-same p os (sent fd) l s.trace b (max_fd_first fd pipe_in) (λ m set h. refl)
              (λ h. refl) (λ bytes h. refl),
    )

-- While `select` finds the interface ready each time that it is below its first argument and in its set,
-- the main loop reads nothing from its pipe and
-- writes nothing to the interface, however many rounds it makes; and while it finds the socket ready
-- in the same way, the TCP loop reads nothing from its pipe and sends nothing on the socket. The interface
-- is neither of the ends of the pipes that the main loop uses.
pub rounds-starve :
    (n : ℕ) (fd : ℤ) (l : Loop) (os : Os) (s : Machine)
    → IsBusy os fd
    → fd ≢ (s.globals.pipe_from_plugin).0
    → (s.globals.pipe_to_plugin).1 ≢ fd
    → ((l' : Loop) × (t : List Call) × (main_rounds n fd
            (max_fd fd (s.globals.pipe_from_plugin).0)
            l
            os
            s
          ≡ ok (l', record s { trace = t }))
        × (fetched os (s.globals.pipe_from_plugin).0 t
            ≡ fetched os (s.globals.pipe_from_plugin).0 s.trace)
        × (written fd t ≡ written fd s.trace))
      × ((l' : Loop) × (t : List Call) × (tunnel_rounds n fd
              (max_fd fd (s.globals.pipe_to_plugin).0)
              l
              os
              s
            ≡ ok (l', record s { trace = t }))
          × (fetched os (s.globals.pipe_to_plugin).0 t
              ≡ fetched os (s.globals.pipe_to_plugin).0 s.trace)
          × (sent fd t ≡ sent fd s.trace))
rounds-starve n fd l os s b x y =
    (main_rounds-starves n fd l os s b x y, tunnel_rounds-starves n fd l os s b)
