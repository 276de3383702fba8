-- ===== src/Threads/Rounds.antt =====
-- A thread that is not interrupted makes, call by call, the rounds of `MainLoop` and of the loops of
-- tcp_plugin.c.
use multivpn.Machine.{Machine, ◌>>=◌}
use multivpn.Os.{Os, Call, Reply, select, selected}
use multivpn.Prelude.Int.{ℤ, is_pos, pos_part}
use multivpn.Prelude.{
  ℕ, zero, suc, Bytes, ◌≡◌, List, ◌∷◌, ok, inl, inr, Bool-cases, false, if◌then◌else◌, take,
}
use multivpn.Program.{main_round}
use multivpn.TcpPlugin.{Loop, relay, overlay, tunnel_round, max_fd}
use multivpn.Threads.{
  Direction, Plan, Pc, at_select, at_source, at_sink, call_of, next_pc, Side, first, second,
  direction, main_plan, tcp_plan, asked,
}

-- Up to so many calls, until the thread is back at `select`.
unfoldable pub finish : Plan → Os → ℕ → Pc → List Call → Pc × List Call
finish p os zero pc h = (pc, h)
finish p os (suc n) (at_select l) h = (at_select l, h)
finish p os (suc n) (at_source side l) h =
    let pc = at_source side l in
    finish p os n (next_pc p pc (os h (call_of p pc))) (call_of p pc ∷ h)
finish p os (suc n) (at_sink side bytes l) h =
    let pc = at_sink side bytes l in
    finish p os n (next_pc p pc (os h (call_of p pc))) (call_of p pc ∷ h)

-- One round: the `select`, and then at most a read and a write.
unfoldable pub solo_round : Plan → Os → Loop → List Call → Pc × List Call
unfolding finish
solo_round p os l h =
    let pc = at_select l in finish p os 2 (next_pc p pc (os h (call_of p pc))) (call_of p pc ∷ h)

-- What a direction leaves of the local variables and of the calls, once its descriptor is ready.
abbrev pub served : Plan → Os → Direction → Loop → List Call → Loop × List Call
served p os d l h =
    let r : Reply = os h d.source in
    let filled = overlay r.bytes l.buffer in
    (
      record { buffer = filled; set_reading = if p.clears then (λ fd. false) else l.set_reading },
      if is_pos r.ret then d.sink (take (pos_part r.ret) filled) ∷ d.source ∷ h else d.source ∷ h,
    )

-- What a whole round leaves of them.
abbrev pub round_result : Plan → Os → Loop → List Call → Loop × List Call
round_result p os l h =
    let ask = select p.maxfd (asked p l) in
    let ready = selected (asked p l) (os h ask) in
    let l' : Loop = record { buffer = l.buffer; set_reading = ready } in
    if ready p.first_fd
    then served p os p.first_direction l' (ask ∷ h)
    else if ready p.second_fd
    then served p os p.second_direction l' (ask ∷ h)
    else (
      record { buffer = l.buffer; set_reading = if p.clears then (λ fd. false) else ready },
      ask ∷ h,
    )

pub finish-served :
    (p : Plan) (os : Os) (side : Side) (l : Loop) (h : List Call)
    → finish p os 2 (at_source side l) h
      ≡ (at_select (served p os (direction p side) l h).0, (served p os (direction p side) l h).1)
unfolding finish
finish-served p os side l h = elim (Bool-cases (is_pos (os h (direction p side).source).ret)) [
  | inl e ↦ rw (e, finish)
  | inr e ↦ rw (e, finish)
]

relay-served :
    (d : Direction) (buffer : Bytes) (os : Os) (s : Machine)
    → let r = os s.trace d.source in
      let filled = overlay r.bytes buffer in
      relay d.source d.sink buffer os s
      ≡ ok (
        filled,
        record s {
          trace =
              if is_pos r.ret
              then d.sink (take (pos_part r.ret) filled) ∷ d.source ∷ s.trace
              else d.source ∷ s.trace;
        },
      )
unfolding relay
relay-served d buffer os s = elim (Bool-cases (is_pos (os s.trace d.source).ret)) [
  | inl e ↦ rw e
  | inr e ↦ rw e
]

pub solo_round-round_result :
    (p : Plan) (os : Os) (l : Loop) (h : List Call)
    → solo_round p os l h ≡ (at_select (round_result p os l h).0, (round_result p os l h).1)
unfolding solo_round
solo_round-round_result p os l h =
    let ask : Call = select p.maxfd (asked p l) in
    let ready = selected (asked p l) (os h ask) in
    let l' : Loop = record { buffer = l.buffer; set_reading = ready } in
    elim (Bool-cases (ready p.first_fd)) [
      | inl e ↦ rw e (finish-served p os first l' (ask ∷ h))
      | inr e ↦ elim (Bool-cases (ready p.second_fd)) [
        | inl g ↦ rw (e, g) (finish-served p os second l' (ask ∷ h))
        | inr g ↦ rw (e, g, finish)
      ]
    ]

module _ (fd : ℤ) (l : Loop) (os : Os) (s : Machine) where
  pub main_round-round_result :
      let p = main_plan fd (s.globals.pipe_from_plugin).0 (s.globals.pipe_to_plugin).1 in
      main_round fd p.maxfd l os s
      ≡ ok ((round_result p os l s.trace).0, record s { trace = (round_result p os l s.trace).1 })
  unfolding main_round
  main_round-round_result =
      let p : Plan = main_plan fd (s.globals.pipe_from_plugin).0 (s.globals.pipe_to_plugin).1 in
      let ask : Call = select p.maxfd (asked p l) in
      let ready = selected (asked p l) (os s.trace ask) in
      let s' : Machine = record s { trace = ask ∷ s.trace } in
      elim (Bool-cases (ready p.first_fd)) [
        | inl e ↦ rw (e, ◌>>=◌, relay-served p.first_direction l.buffer os s')
        | inr e ↦ elim (Bool-cases (ready p.second_fd)) [
          | inl g ↦ rw (e, g, ◌>>=◌, relay-served p.second_direction l.buffer os s')
          | inr g ↦ rw (e, g)
        ]
      ]

  pub tunnel_round-round_result :
      let p = tcp_plan fd (s.globals.pipe_to_plugin).0 (s.globals.pipe_from_plugin).1 in
      tunnel_round fd p.maxfd l os s
      ≡ ok ((round_result p os l s.trace).0, record s { trace = (round_result p os l s.trace).1 })
  unfolding tunnel_round
  tunnel_round-round_result =
      let p : Plan = tcp_plan fd (s.globals.pipe_to_plugin).0 (s.globals.pipe_from_plugin).1 in
      let ask : Call = select p.maxfd (asked p l) in
      let ready = selected (asked p l) (os s.trace ask) in
      let s' : Machine = record s { trace = ask ∷ s.trace } in
      elim (Bool-cases (ready p.first_fd)) [
        | inl e ↦ rw (e, ◌>>=◌, relay-served p.first_direction l.buffer os s')
        | inr e ↦ elim (Bool-cases (ready p.second_fd)) [
          | inl g ↦ rw (e, g, ◌>>=◌, relay-served p.second_direction l.buffer os s')
          | inr g ↦ rw (e, g)
        ]
      ]

-- One round of `MainLoop`, and one of the loops of tcp_plugin.c, makes the same calls and leaves the
-- same local variables as the thread call by call from its `select` up to its next `select`, whatever
-- the replies are.
pub rounds-alone :
    (fd : ℤ) (l : Loop) (os : Os) (s : Machine)
    → ((l' : Loop) × (t : List Call) × (main_round fd
            (max_fd fd (s.globals.pipe_from_plugin).0)
            l
            os
            s
          ≡ ok (l', record s { trace = t }))
        × (solo_round
              (main_plan fd (s.globals.pipe_from_plugin).0 (s.globals.pipe_to_plugin).1)
              os
              l
              s.trace
            ≡ (at_select l', t)))
      × ((l' : Loop) × (t : List Call) × (tunnel_round fd
              (max_fd fd (s.globals.pipe_to_plugin).0)
              l
              os
              s
            ≡ ok (l', record s { trace = t }))
          × (solo_round
                (tcp_plan fd (s.globals.pipe_to_plugin).0 (s.globals.pipe_from_plugin).1)
                os
                l
                s.trace
              ≡ (at_select l', t)))
rounds-alone fd l os s = (
  (_, _, main_round-round_result fd l os s, solo_round-round_result _ os l s.trace),
  (_, _, tunnel_round-round_result fd l os s, solo_round-round_result _ os l s.trace),
)
