-- ===== src/TcpPlugin/Streams.antt =====
-- The byte streams that the loops of tcp_plugin.c carry between the socket and the pipes.
use mathlib.Core.List.{append-nil, append_assoc}
use multivpn.Globals.{block_size}
use multivpn.Machine.{Machine, ◌>>=◌}
use multivpn.Os.{Os, Call, Reply, read, recv, write, send, select, FdSet, fd_add}
use multivpn.Prelude.Int.{int_eq_refl, ℤ, is_pos, int_eq}
use multivpn.Prelude.{
  ℕ, zero, suc, ◌≡◌, refl, sym, Bool, true, false, List, [], ◌∷◌, ◌++◌, Bytes, length, ok, inl, inr,
  Bool-cases, if◌then◌else◌,
}
use multivpn.TcpPlugin.Relay.{IsPosix, relayed, round_calls, tunnel_round-calls}
use multivpn.TcpPlugin.{Loop, tunnel_rounds}

-- The bytes that a read brought.
abbrev brought : Reply → Bytes
brought r = if is_pos r.ret then r.bytes else []

module _ (os : Os) (fd : ℤ) where
  -- All that `recv` brought from the descriptor, in order; the calls stand latest first.
  abbrev pub received : List Call → Bytes
  received [] = []
  received (recv x n ∷ h) = received h ++ (if int_eq x fd then brought (os h (recv x n)) else [])
  received (c ∷ h) = received h

  -- All that `read` brought from it.
  abbrev pub fetched : List Call → Bytes
  fetched [] = []
  fetched (read x n ∷ h) = fetched h ++ (if int_eq x fd then brought (os h (read x n)) else [])
  fetched (c ∷ h) = fetched h

-- All that was handed to `write` on the descriptor.
abbrev pub written : ℤ → List Call → Bytes
written fd [] = []
written fd (write x bytes ∷ h) = written fd h ++ (if int_eq x fd then bytes else [])
written fd (c ∷ h) = written fd h

-- All that was handed to `send` on it.
abbrev pub sent : ℤ → List Call → Bytes
sent fd [] = []
sent fd (send x bytes ∷ h) = sent fd h ++ (if int_eq x fd then bytes else [])
sent fd (c ∷ h) = sent fd h

-- From the calls `t` to the calls `t'` the same bytes came from the socket as went to one pipe, and
-- the same came from the other pipe as went to the socket.
pub record Relays (os : Os) (fd pipe_in pipe_out : ℤ) (t t' : List Call) : Type 0 where
  pub down : Bytes
  pub up : Bytes
  pub received_down : received os fd t' ≡ received os fd t ++ down
  pub written_down : written pipe_out t' ≡ written pipe_out t ++ down
  pub fetched_up : fetched os pipe_in t' ≡ fetched os pipe_in t ++ up
  pub sent_up : sent fd t' ≡ sent fd t ++ up

module _ {os : Os} {fd pipe_in pipe_out : ℤ} where
  Relays-none : (t : List Call) → Relays os fd pipe_in pipe_out t t
  Relays-none t = record {
    down = [];
    up = [];
    received_down = sym (append-nil _);
    written_down = sym (append-nil _);
    fetched_up = sym (append-nil _);
    sent_up = sym (append-nil _);
  }

  Relays-trans :
      {t u v : List Call}
      → Relays os fd pipe_in pipe_out t u
      → Relays os fd pipe_in pipe_out u v
      → Relays os fd pipe_in pipe_out t v
  Relays-trans a b = record {
    down = a.down ++ b.down;
    up = a.up ++ b.up;
    received_down = rw (b.received_down, a.received_down, append_assoc);
    written_down = rw (b.written_down, a.written_down, append_assoc);
    fetched_up = rw (b.fetched_up, a.fetched_up, append_assoc);
    sent_up = rw (b.sent_up, a.sent_up, append_assoc);
  }

module _ (os : Os) (s : Machine) (fd pipe_in pipe_out : ℤ) where
  relayed-down :
      (n : ℕ) → Relays os fd pipe_in pipe_out s.trace (relayed os s (recv fd n) (write pipe_out))
  relayed-down n = elim (Bool-cases (is_pos (os s.trace (recv fd n)).ret)) [
    | inl e ↦ record {
      down = (os s.trace (recv fd n)).bytes;
      up = [];
      received_down = rw (e, received, int_eq_refl fd, e);
      written_down = rw (e, int_eq_refl pipe_out);
      fetched_up = rw (e, append-nil);
      sent_up = rw (e, append-nil);
    }
    | inr e ↦ record {
      down = [];
      up = [];
      received_down = rw (e, int_eq_refl fd, e);
      written_down = rw (e, append-nil);
      fetched_up = rw (e, append-nil);
      sent_up = rw (e, append-nil);
    }
  ]

  relayed-up :
      (n : ℕ) → Relays os fd pipe_in pipe_out s.trace (relayed os s (read pipe_in n) (send fd))
  relayed-up n = elim (Bool-cases (is_pos (os s.trace (read pipe_in n)).ret)) [
    | inl e ↦ record {
      down = [];
      up = (os s.trace (read pipe_in n)).bytes;
      received_down = rw (e, append-nil);
      written_down = rw (e, append-nil);
      fetched_up = rw (e, int_eq_refl pipe_in, e);
      sent_up = rw (e, int_eq_refl fd);
    }
    | inr e ↦ record {
      down = [];
      up = [];
      received_down = rw (e, append-nil);
      written_down = rw (e, append-nil);
      fetched_up = rw (e, int_eq_refl pipe_in, e);
      sent_up = rw (e, append-nil);
    }
  ]

Relays-select :
    (os : Os) (fd pipe_in pipe_out maxfd : ℤ) (set : FdSet) (t : List Call)
    → Relays os fd pipe_in pipe_out t (select maxfd set ∷ t)
Relays-select os fd pipe_in pipe_out maxfd set t = record {
  down = [];
  up = [];
  received_down = sym (append-nil _);
  written_down = sym (append-nil _);
  fetched_up = sym (append-nil _);
  sent_up = sym (append-nil _);
}

if-Relays :
    (b : Bool) {os : Os} {fd pipe_in pipe_out : ℤ} {t u v : List Call}
    → Relays os fd pipe_in pipe_out t u
    → Relays os fd pipe_in pipe_out t v
    → Relays os fd pipe_in pipe_out t (if b then u else v)
if-Relays true x y = x
if-Relays false x y = y

round_calls-Relays :
    (os : Os) (s : Machine) (fd maxfd : ℤ) (set : FdSet)
    → Relays os fd
        (s.globals.pipe_to_plugin).0
        (s.globals.pipe_from_plugin).1
        s.trace
        (round_calls os s fd maxfd set)
round_calls-Relays os s fd maxfd set =
    let pipe_in = (s.globals.pipe_to_plugin).0 in
    let pipe_out = (s.globals.pipe_from_plugin).1 in
    let asked = fd_add fd (fd_add pipe_in set) in
    let s' : Machine = record s { trace = select maxfd asked ∷ s.trace } in
    Relays-trans (Relays-select os fd pipe_in pipe_out maxfd asked s.trace) (
      if-Relays _ (relayed-down os s' fd pipe_in pipe_out 1504)
        (if-Relays _ (relayed-up os s' fd pipe_in pipe_out 1504) (Relays-none s'.trace)))

-- However many rounds the loop makes, and however the system answers, the bytes handed to the pipe
-- are those that came from the socket, and the bytes handed to the socket are those that came from
-- the other pipe, in order, none lost and none twice; no variable but the list of calls changes, and
-- the buffer keeps its 1505 bytes. Reads are answered as POSIX has it.
pub tunnel_rounds-Relays :
    (n : ℕ) (fd maxfd : ℤ) (l : Loop) (os : Os) (s : Machine)
    → IsPosix os
    → length l.buffer ≡ block_size
    → (l' : Loop) × (t : List Call) × (tunnel_rounds n fd maxfd l os s
        ≡ ok (l', record s { trace = t }))
      × Relays os fd (s.globals.pipe_to_plugin).0 (s.globals.pipe_from_plugin).1 s.trace t
      × (length l'.buffer ≡ block_size)
unfolding tunnel_rounds
tunnel_rounds-Relays zero fd maxfd l os s p b = (l, s.trace, refl, Relays-none s.trace, b)
tunnel_rounds-Relays (suc n) fd maxfd l os s p b =
    let (l', e, b') = tunnel_round-calls fd maxfd l os s p b in
    let t = round_calls os s fd maxfd l.set_reading in
    let (l'', t', e', rest, b'') =
      tunnel_rounds-Relays n fd maxfd l' os (record s { trace = t }) p b' in
    (
      l'',
      t',
      rw (e, ◌>>=◌, e'),
      Relays-trans (round_calls-Relays os s fd maxfd l.set_reading) rest,
      b'',
    )
