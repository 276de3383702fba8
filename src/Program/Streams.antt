-- ===== src/Program/Streams.antt =====
-- The bytes that `MainLoop` of main.c carries between the interface and the pipes.
use mathlib.Core.List.{append-nil, append_assoc}
use multivpn.Globals.{block_size}
use multivpn.Machine.{Machine, ◌>>=◌}
use multivpn.Os.{Os, Call, FdSet, read, write, select, fd_add, selected}
use multivpn.Prelude.Int.{int_eq_refl, int_eq_ne, ℤ, is_pos}
use multivpn.Prelude.{
  ℕ, zero, suc, ◌≡◌, ◌≢◌, refl, sym, ◌∙◌, false, List, [], ◌∷◌, ◌++◌, Bytes, length, ok, arith, inl,
  inr, Bool-cases,
}
use multivpn.Program.{main_round, main_rounds, main_loop}
use multivpn.TcpPlugin.Relay.{IsPosix, relayed, relay-relayed}
use multivpn.TcpPlugin.Streams.{fetched, written}
use multivpn.TcpPlugin.{Loop, max_fd}
use multivpn.TunTap.{tun_get_file}

-- From the calls `t` to the calls `t'` the same bytes were read from one descriptor as were handed
-- to `write` on the other.
pub record Carries (os : Os) (source sink : ℤ) (t t' : List Call) : Type 0 where
  pub bytes : Bytes
  pub came : fetched os source t' ≡ fetched os source t ++ bytes
  pub went : written sink t' ≡ written sink t ++ bytes

module _ {os : Os} {source sink : ℤ} where
  Carries-none : (t : List Call) → Carries os source sink t t
  Carries-none t = record { bytes = []; came = sym (append-nil _); went = sym (append-nil _) }

  Carries-trans :
      {t u v : List Call}
      → Carries os source sink t u
      → Carries os source sink u v
      → Carries os source sink t v
  Carries-trans a b = record {
    bytes = a.bytes ++ b.bytes;
    came = rw (b.came, a.came, append_assoc);
    went = rw (b.went, a.went, append_assoc);
  }

-- A `select` in front carries nothing.
Carries-select :
    {os : Os} {source sink maxfd : ℤ} {set : FdSet} {t t' : List Call}
    → Carries os source sink (select maxfd set ∷ t) t'
    → Carries os source sink t t'
Carries-select a = record { bytes = a.bytes; came = a.came; went = a.went }

module _ (os : Os) (s : Machine) (source sink : ℤ) (n : ℕ) where
  relayed-Carries : Carries os source sink s.trace (relayed os s (read source n) (write sink))
  relayed-Carries = elim (Bool-cases (is_pos (os s.trace (read source n)).ret)) [
    | inl e ↦ record {
      bytes = (os s.trace (read source n)).bytes;
      came = rw (e, int_eq_refl source, e);
      went = rw (e, int_eq_refl sink);
    }
    | inr e ↦ record { bytes = []; came = rw (e, int_eq_refl source, e); went = rw (e, append-nil) }
  ]

  -- A relay between other descriptors carries nothing here.
  relayed-other :
      (x y : ℤ)
      → source ≢ x
      → sink ≢ y
      → Carries os x y s.trace (relayed os s (read source n) (write sink))
  relayed-other x y p q = elim (Bool-cases (is_pos (os s.trace (read source n)).ret)) [
    | inl e ↦ record {
      bytes = [];
      came = rw (e, int_eq_ne source x p, append-nil);
      went = rw (e, int_eq_ne sink y q, append-nil);
    }
    | inr e ↦ record {
      bytes = [];
      came = rw (e, int_eq_ne source x p, append-nil);
      went = rw (e, append-nil);
    }
  ]

-- Both directions of the main loop.
abbrev pub Carried : Os → ℤ → ℤ → ℤ → List Call → List Call → Type 0
Carried os fd_tun pipe_in pipe_out t t' =
    Carries os fd_tun pipe_out t t' × Carries os pipe_in fd_tun t t'

main_round-Carried :
    (fd_tun maxfd : ℤ) (l : Loop) (os : Os) (s : Machine)
    → IsPosix os
    → length l.buffer ≡ block_size
    → fd_tun ≢ (s.globals.pipe_from_plugin).0
    → fd_tun ≢ (s.globals.pipe_to_plugin).1
    → (l' : Loop) × (t : List Call) × (main_round fd_tun maxfd l os s
        ≡ ok (l', record s { trace = t }))
      × Carried os fd_tun (s.globals.pipe_from_plugin).0 (s.globals.pipe_to_plugin).1 s.trace t
      × (length l'.buffer ≡ block_size)
unfolding main_round
main_round-Carried fd_tun maxfd l os s p b ne_in ne_out =
    let pipe_in : ℤ = (s.globals.pipe_from_plugin).0 in
    let pipe_out : ℤ = (s.globals.pipe_to_plugin).1 in
    let asked = fd_add fd_tun (fd_add pipe_in l.set_reading) in
    let ready = selected asked (os s.trace (select maxfd asked)) in
    let s' : Machine = record s { trace = select maxfd asked ∷ s.trace } in
    let (up, eu, lu) =
      relay-relayed (read fd_tun 1504) (write pipe_out) 1504 l.buffer os s' (p.reads _ fd_tun 1504)
        (omega arith) in
    let (down, ed, ld) =
      relay-relayed (read pipe_in 1505) (write fd_tun) 1505 l.buffer os s' (p.reads _ pipe_in 1505)
        (omega arith) in
    elim (Bool-cases (ready fd_tun)) [
      | inl e ↦ (
        record { buffer = up; set_reading = λ _. false },
        relayed os s' (read fd_tun 1504) (write pipe_out),
        rw (e, ◌>>=◌, eu),
        (
          Carries-select (relayed-Carries os s' fd_tun pipe_out 1504),
          Carries-select
              (relayed-other os s' fd_tun pipe_out 1504 pipe_in fd_tun ne_in (λ q. ne_out (sym q))),
        ),
        lu ∙ b,
      )
      | inr e ↦ elim (Bool-cases (ready pipe_in)) [
        | inl f ↦ (
          record { buffer = down; set_reading = λ _. false },
          relayed os s' (read pipe_in 1505) (write fd_tun),
          rw (e, f, ◌>>=◌, ed),
          (
            Carries-select (
                relayed-other os s' pipe_in fd_tun 1505 fd_tun pipe_out (λ q. ne_in (sym q))
                  ne_out),
            Carries-select (relayed-Carries os s' pipe_in fd_tun 1505),
          ),
          ld ∙ b,
        )
        | inr f ↦ (
          record { buffer = l.buffer; set_reading = λ _. false },
          s'.trace,
          rw (e, f),
          (Carries-select (Carries-none s'.trace), Carries-select (Carries-none s'.trace)),
          b,
        )
      ]
    ]

main_rounds-Carried :
    (n : ℕ) (fd_tun maxfd : ℤ) (l : Loop) (os : Os) (s : Machine)
    → IsPosix os
    → length l.buffer ≡ block_size
    → fd_tun ≢ (s.globals.pipe_from_plugin).0
    → fd_tun ≢ (s.globals.pipe_to_plugin).1
    → (l' : Loop) × (t : List Call) × (main_rounds n fd_tun maxfd l os s
        ≡ ok (l', record s { trace = t }))
      × Carried os fd_tun (s.globals.pipe_from_plugin).0 (s.globals.pipe_to_plugin).1 s.trace t
unfolding main_rounds
main_rounds-Carried zero fd_tun maxfd l os s p b ne_in ne_out =
    (l, s.trace, refl, (Carries-none s.trace, Carries-none s.trace))
main_rounds-Carried (suc n) fd_tun maxfd l os s p b ne_in ne_out =
    let (l', t, e, c, b') = main_round-Carried fd_tun maxfd l os s p b ne_in ne_out in
    let (l'', t', e', c') =
      main_rounds-Carried n fd_tun maxfd l' os (record s { trace = t }) p b' ne_in ne_out in
    (l'', t', rw (e, ◌>>=◌, e'), (Carries-trans c.0 c'.0, Carries-trans c.1 c'.1))

-- However many rounds `MainLoop` makes, and however the system answers, the bytes handed to the pipe
-- towards the plugin are those that were read from the interface, and the bytes handed to the
-- interface are those that were read from the plugin's pipe, in order, none lost and none twice; no
-- variable but the list of calls changes. The interface's descriptor is neither of the two ends of
-- the pipes that the loop uses, the buffer has its 1505 bytes, and reads are answered as POSIX has
-- it.
pub main_loop-Carried :
    (n : ℕ) (l : Loop) (os : Os) (s : Machine)
    → IsPosix os
    → length l.buffer ≡ block_size
    → s.tfd ≢ (s.globals.pipe_from_plugin).0
    → s.tfd ≢ (s.globals.pipe_to_plugin).1
    → (l' : Loop) × (t : List Call) × (main_loop n l os s ≡ ok (l', record s { trace = t }))
      × Carried os s.tfd (s.globals.pipe_from_plugin).0 (s.globals.pipe_to_plugin).1 s.trace t
unfolding main_loop tun_get_file
main_loop-Carried n l os s p b ne_in ne_out =
    main_rounds-Carried n s.tfd (max_fd s.tfd (s.globals.pipe_from_plugin).0) l os s p b ne_in
      ne_out
