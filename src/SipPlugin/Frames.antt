-- ===== src/SipPlugin/Frames.antt =====
-- The frames that the loop of sip_plugin.c takes from its pipe and sends as SIP headers.
use mathlib.Core.List.{append-nil, append_assoc, map-append}
use multivpn.Base64.Encode.{IsBytes, rfc4648}
use multivpn.Base64.Lookup.{Supplies}
use multivpn.Base64.{Malloc}
use multivpn.CString.{c_str}
use multivpn.Globals.{block_size}
use multivpn.Machine.{Machine, ◌>>=◌}
use multivpn.Os.{
  Os, Call, Reply, FdSet, read, select, send_msg, create_request, create_uac, fd_add, selected,
}
use multivpn.Prelude.Int.{int_eq_refl, ℤ, is_pos, int_eq}
use multivpn.Prelude.{
  All, ◌<◌, ◌≤◌, All-append, ℕ, zero, suc, ◌≡◌, refl, sym, ◌∙◌, List, [], ◌∷◌, ◌++◌, map, Bytes,
  length, ok, arith, inl, inr, Bool-cases, if◌then◌else◌,
}
use multivpn.SipPlugin.Tunnel.{Sends, sip_envia_datos-send_msg}
use multivpn.SipPlugin.{sip_loop_tun_round, sip_loop_tun_events}
use multivpn.TcpPlugin.Relay.{IsPosix, length-overlay, take-overlay}
use multivpn.TcpPlugin.{Loop, overlay}

-- What a read brings is bytes.
abbrev pub BringsBytes : Os → Type 0
BringsBytes os = (h : List Call) (fd : ℤ) (size : ℕ) → IsBytes (os h (read fd size)).bytes

-- The frames that `read` brought from a descriptor, in order; the calls stand latest first.
abbrev pub frames : Os → ℤ → List Call → List Bytes
frames os fd [] = []
frames os fd (read x n ∷ h) =
    frames os fd h
    ++ (if int_eq x fd
        then (if is_pos (os h (read x n)).ret then (os h (read x n)).bytes ∷ [] else [])
        else [])
frames os fd (c ∷ h) = frames os fd h

-- The headers of the requests that were sent, in order.
abbrev pub headers : List Call → List Bytes
headers [] = []
headers (send_msg header ∷ h) = headers h ++ header ∷ []
headers (c ∷ h) = headers h

-- The calls of one round, the latest first.
abbrev pub round_calls : Os → Machine → ℤ → FdSet → List Call
round_calls os s maxfd set =
    let pipe_in = (s.globals.pipe_to_plugin).0 in
    let asked = fd_add pipe_in set in
    let begun = select maxfd asked ∷ s.trace in
    let x = os begun (read pipe_in 1504) in
    if selected asked (os s.trace (select maxfd asked)) pipe_in
    then (if is_pos x.ret
        then send_msg (rfc4648 x.bytes)
          ∷ create_uac
          ∷ create_request (c_str s.globals.sip_remoteuri) (c_str s.globals.sip_fromuri)
          ∷ read pipe_in 1504
          ∷ begun
        else read pipe_in 1504 ∷ begun)
    else begun

sip_loop_tun_round-calls :
    (malloc : Malloc) (maxfd : ℤ) (l : Loop) (os : Os) (s : Machine)
    → Supplies malloc
    → Sends os
    → IsPosix os
    → BringsBytes os
    → length l.buffer ≡ block_size
    → (l' : Loop) × (sip_loop_tun_round malloc maxfd l os s
        ≡ ok (l', record s { trace = round_calls os s maxfd l.set_reading }))
      × (length l'.buffer ≡ block_size)
unfolding sip_loop_tun_round
sip_loop_tun_round-calls malloc maxfd l os s m p q o b =
    let pipe_in : ℤ = (s.globals.pipe_to_plugin).0 in
    let asked = fd_add pipe_in l.set_reading in
    let ready = selected asked (os s.trace (select maxfd asked)) in
    let begun : List Call = select maxfd asked ∷ s.trace in
    let x : Reply = os begun (read pipe_in 1504) in
    let h = q.reads begun pipe_in 1504 in
    let filled = overlay x.bytes l.buffer in
    let exact = take-overlay x l.buffer h in
    let room = length-overlay x.bytes l.buffer (omega (arith, h.bounded)) in
    let s' : Machine = record s { trace = read pipe_in 1504 ∷ begun } in
    let sends =
      sip_envia_datos-send_msg malloc x.bytes os s' m p (o begun pipe_in 1504)
        (omega (arith, h.bounded)) in
    elim (Bool-cases (ready pipe_in)) [
      | inr e ↦ (record { buffer = l.buffer; set_reading = ready }, rw e, b)
      | inl e ↦ (
        record { buffer = filled; set_reading = ready },
        elim (Bool-cases (is_pos x.ret)) [
          | inl f ↦ rw (e, f, exact, ◌>>=◌, sends)
          | inr f ↦ rw (e, f)
        ],
        room ∙ b,
      )
    ]

-- A frame as the loop takes it from its pipe.
pub record IsFrame (frame : Bytes) : Type 0 where
  pub bytes : IsBytes frame
  pub some_bytes : 0 < length frame
  pub bounded : length frame ≤ 1504

-- From the calls `t` to the calls `t'` the headers that were sent are the base64 texts of the frames
-- that came from the pipe, one for each, in order, and each frame is one.
pub record Forwards (os : Os) (pipe_in : ℤ) (t t' : List Call) : Type 0 where
  pub taken : List Bytes
  pub took : frames os pipe_in t' ≡ frames os pipe_in t ++ taken
  pub sent : headers t' ≡ headers t ++ map rfc4648 taken
  pub framed : All IsFrame taken

module _ {os : Os} {pipe_in : ℤ} where
  Forwards-none : (t : List Call) → Forwards os pipe_in t t
  Forwards-none t = record {
    taken = [];
    took = sym (append-nil _);
    sent = sym (append-nil _);
    framed = tt;
  }

  Forwards-trans :
      {t u v : List Call}
      → Forwards os pipe_in t u
      → Forwards os pipe_in u v
      → Forwards os pipe_in t v
  Forwards-trans a b = record {
    taken = a.taken ++ b.taken;
    took = rw (b.took, a.took, append_assoc);
    sent = rw (b.sent, a.sent, append_assoc, map-append);
    framed = All-append IsFrame a.taken b.taken a.framed b.framed;
  }

round_calls-Forwards :
    (os : Os) (s : Machine) (maxfd : ℤ) (set : FdSet)
    → IsPosix os
    → BringsBytes os
    → Forwards os (s.globals.pipe_to_plugin).0 s.trace (round_calls os s maxfd set)
round_calls-Forwards os s maxfd set q o =
    let pipe_in : ℤ = (s.globals.pipe_to_plugin).0 in
    let asked = fd_add pipe_in set in
    let begun : List Call = select maxfd asked ∷ s.trace in
    let x : Reply = os begun (read pipe_in 1504) in
    let h = q.reads begun pipe_in 1504 in
    elim (Bool-cases (selected asked (os s.trace (select maxfd asked)) pipe_in)) [
      | inr e ↦ record {
        taken = [];
        took = rw (e, append-nil);
        sent = rw (e, append-nil);
        framed = tt;
      }
      | inl e ↦ elim (Bool-cases (is_pos x.ret)) [
        | inl f ↦ record {
          taken = x.bytes ∷ [];
          took = rw (e, f, int_eq_refl pipe_in, f);
          sent = rw (e, f);
          framed = (
            record {
              bytes = o begun pipe_in 1504;
              some_bytes = ground (arith, h.counted, f);
              bounded = h.bounded;
            },
            tt,
          );
        }
        | inr f ↦ record {
          taken = [];
          took = rw (e, f, int_eq_refl pipe_in, f);
          sent = rw (e, f, append-nil);
          framed = tt;
        }
      ]
    ]

-- However many rounds the loop makes, and whatever the pipe brings, each frame that it takes has 1 to
-- 1504 bytes and is sent in one request, whose header is the frame's RFC 4648 text, in order, none
-- lost and none twice; no
-- variable but the list of calls changes. The allocator does not fail, PJSIP takes the requests, and
-- reads are answered with bytes as POSIX has it, into the buffer's 1505 bytes.
pub sip_loop_tun_events-Forwards :
    (malloc : Malloc) (n : ℕ) (maxfd : ℤ) (l : Loop) (os : Os) (s : Machine)
    → Supplies malloc
    → Sends os
    → IsPosix os
    → BringsBytes os
    → length l.buffer ≡ block_size
    → (l' : Loop) × (t : List Call) × (sip_loop_tun_events malloc n maxfd l os s
        ≡ ok (l', record s { trace = t }))
      × Forwards os (s.globals.pipe_to_plugin).0 s.trace t
unfolding sip_loop_tun_events
sip_loop_tun_events-Forwards malloc zero maxfd l os s m p q o b =
    (l, s.trace, refl, Forwards-none s.trace)
sip_loop_tun_events-Forwards malloc (suc n) maxfd l os s m p q o b =
    let (l', e, b') = sip_loop_tun_round-calls malloc maxfd l os s m p q o b in
    let t = round_calls os s maxfd l.set_reading in
    let (l'', t', e', rest) =
      sip_loop_tun_events-Forwards malloc n maxfd l' os (record s { trace = t }) m p q o b' in
    (
      l'',
      t',
      rw (e, ◌>>=◌, e'),
      Forwards-trans (round_calls-Forwards os s maxfd l.set_reading q o) rest,
    )
