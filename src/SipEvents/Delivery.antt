-- ===== src/SipEvents/Delivery.antt =====
-- The frames that arrive in SIP requests reach the pipe of the main thread, as long as the loop of
-- the SIP events runs.
use mathlib.Core.List.{append-nil, append_assoc, flatten}
use multivpn.Base64.Encode.{rfc4648}
use multivpn.Base64.Lookup.{Supplies, IsUsable}
use multivpn.Base64.{Malloc, built}
use multivpn.Machine.{Machine, ◌>>=◌}
use multivpn.Os.{Os, write, respond_stateless}
use multivpn.Prelude.Int.{int_eq_refl}
use multivpn.Prelude.{
  ℕ, ◌≡◌, refl, sym, ◌∙◌, true, false, List, [], ◌∷◌, ◌++◌, map, Bytes, All, some, codes, ok, arith,
}
use multivpn.SipEvents.{Event, rx_request, handle_events, sip_loop_sip_events}
use multivpn.SipPlugin.Frames.{IsFrame}
use multivpn.SipPlugin.Tunnel.{on_rx_request-writes}
use multivpn.TcpPlugin.Streams.{written}

-- The request whose header carries the frame.
abbrev pub request : Bytes → Event
request frame = rx_request (record { is_options = true; multivpn_header = some (rfc4648 frame) })

-- What the receiver changes when frames were delivered to it.
pub record Delivers (frames : List Bytes) (s s' : Machine) : Type 0 where
  pub wrote :
      written (s.globals.pipe_from_plugin).1 s'.trace
      ≡ written (s.globals.pipe_from_plugin).1 s.trace ++ flatten frames
  pub usable : IsUsable s'.decoding_table
  pub goes_on : s'.g_complete ≡ s.g_complete
  pub same_globals : s'.globals ≡ s.globals

handle_events-request :
    (malloc : Malloc) (junk : ℕ) (frame : Bytes) (events : List Event) (os : Os) (s : Machine)
    → Supplies malloc
    → IsUsable s.decoding_table
    → IsFrame frame
    → (s' : Machine) × (handle_events malloc junk (request frame ∷ events) os s
        ≡ handle_events malloc junk events os s')
      × Delivers (frame ∷ []) s s'
unfolding handle_events flatten
handle_events-request malloc junk [] events os s m u f = absurd (omega (arith, f.some_bytes))
handle_events-request malloc junk (a ∷ datos) events os s m u f =
    let (table, e, inv) =
      on_rx_request-writes malloc junk a datos os s m u f.bytes (omega (arith, f.bounded)) in
    (
      record s {
        trace =
            respond_stateless 666 (codes "Traffic Accepted")
            ∷ write (s.globals.pipe_from_plugin).1 (a ∷ datos)
            ∷ s.trace;
        decoding_table = built table;
      },
      rw (◌>>=◌, e),
      record {
        wrote = rw (int_eq_refl (s.globals.pipe_from_plugin).1, append-nil);
        usable = inv;
        goes_on = refl;
        same_globals = refl;
      },
    )

pub flatten-append : (xs ys : List Bytes) → flatten (xs ++ ys) ≡ flatten xs ++ flatten ys
unfolding flatten
flatten-append [] ys = refl
flatten-append (x ∷ xs) ys = rw (flatten-append xs ys, append_assoc)

Delivers-none : (s : Machine) → IsUsable s.decoding_table → Delivers [] s s
unfolding flatten
Delivers-none s u = record {
  wrote = sym (append-nil _);
  usable = u;
  goes_on = refl;
  same_globals = refl;
}

Delivers-trans :
    (frames frames' : List Bytes) (s s' s'' : Machine)
    → Delivers frames s s'
    → Delivers frames' s' s''
    → Delivers (frames ++ frames') s s''
Delivers-trans frames frames' s s' s'' a b =
    let then_wrote = b.wrote in
    record {
      wrote = rw (flatten-append, ← append_assoc, ← a.wrote, ← a.same_globals) then_wrote;
      usable = b.usable;
      goes_on = b.goes_on ∙ a.goes_on;
      same_globals = b.same_globals ∙ a.same_globals;
    }

handle_events-Delivers :
    (malloc : Malloc) (junk : ℕ) (frames : List Bytes) (os : Os) (s : Machine)
    → Supplies malloc
    → IsUsable s.decoding_table
    → All IsFrame frames
    → (s' : Machine) × (handle_events malloc junk (map request frames) os s ≡ ok (tt, s'))
      × Delivers frames s s'
unfolding handle_events
handle_events-Delivers malloc junk [] os s m u f = (s, refl, Delivers-none s u)
handle_events-Delivers malloc junk (frame ∷ frames) os s m u f =
    let (s', e, d) = handle_events-request malloc junk frame (map request frames) os s m u f.0 in
    let (s'', e', d') = handle_events-Delivers malloc junk frames os s' m d.usable f.1 in
    (s'', e ∙ e', Delivers-trans (frame ∷ []) frames s s' s'' d d')

-- A round is made while the loop is not ended.
pub sip_loop_sip_events-cons :
    (malloc : Malloc) (junk : ℕ) (events : List Event) (rounds : List (List Event)) (os : Os)
    (s s' : Machine)
    → s.g_complete ≡ false
    → handle_events malloc junk events os s ≡ ok (tt, s')
    → sip_loop_sip_events malloc junk (events ∷ rounds) os s
      ≡ sip_loop_sip_events malloc junk rounds os s'
unfolding sip_loop_sip_events
sip_loop_sip_events-cons malloc junk events rounds os s s' c e = ground arith

-- Requests that arrive while the loop of the SIP events runs, in rounds of any number, are all
-- handled, and the frames that their headers carry are written to the pipe of the main thread, in
-- order, none lost and none twice. The loop is not ended, the allocator does not fail, the decoding
-- table is unset or was built, and each frame has 1 to 1504 bytes.
pub sip_loop_sip_events-Delivers :
    (malloc : Malloc) (junk : ℕ) (rounds : List (List Bytes)) (os : Os) (s : Machine)
    → Supplies malloc
    → IsUsable s.decoding_table
    → s.g_complete ≡ false
    → All (All IsFrame) rounds
    → (s' : Machine) × (sip_loop_sip_events malloc junk (map (map request) rounds) os s
        ≡ ok ([], s'))
      × Delivers (flatten rounds) s s'
unfolding sip_loop_sip_events flatten
sip_loop_sip_events-Delivers malloc junk [] os s m u c f = (s, refl, Delivers-none s u)
sip_loop_sip_events-Delivers malloc junk (frames ∷ rounds) os s m u c f =
    let (s', e, d) = handle_events-Delivers malloc junk frames os s m u f.0 in
    let (s'', e', d') =
      sip_loop_sip_events-Delivers malloc junk rounds os s' m d.usable (d.goes_on ∙ c) f.1 in
    (
      s'',
      sip_loop_sip_events-cons malloc junk (map request frames) (map (map request) rounds) os s s' c
            e
          ∙ e',
      Delivers-trans frames (flatten rounds) s s' s'' d d',
    )
