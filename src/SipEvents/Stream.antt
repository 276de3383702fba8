-- ===== src/SipEvents/Stream.antt =====
-- All that one SIP host reads from its plugin's pipe reaches the main thread's pipe of the other.
use mathlib.Core.List.{append-nil, append_cancel_left, flatten, map-map}
use mathlib.Core.Path.{subst}
use multivpn.Base64.Encode.{rfc4648}
use multivpn.Base64.Lookup.{Supplies, IsUsable}
use multivpn.Base64.{Malloc}
use multivpn.Globals.{block_size}
use multivpn.Machine.{Machine}
use multivpn.Os.{Os, Call, read}
use multivpn.Prelude.Int.{ℤ, is_pos, int_eq}
use multivpn.Prelude.{
  ℕ, ◌≡◌, refl, sym, ap, ◌∙◌, true, false, List, [], ◌∷◌, ◌++◌, map, Bytes, All, length, some, ok,
  inl, inr, Bool-cases,
}
use multivpn.SipEvents.Delivery.{request, flatten-append, sip_loop_sip_events-Delivers}
use multivpn.SipEvents.{Event, rx_request, sip_loop_sip_events}
use multivpn.SipPlugin.Frames.{IsFrame, BringsBytes, frames, headers, sip_loop_tun_events-Forwards}
use multivpn.SipPlugin.Tunnel.{Sends}
use multivpn.SipPlugin.{sip_loop_tun_events}
use multivpn.TcpPlugin.Relay.{IsPosix}
use multivpn.TcpPlugin.Streams.{fetched, written}
use multivpn.TcpPlugin.{Loop}

-- The arrival of a request with this header.
abbrev pub arrival : Bytes → Event
arrival header = rx_request (record { is_options = true; multivpn_header = some header })

pub fetched-frames : (os : Os) (fd : ℤ) (h : List Call) → fetched os fd h ≡ flatten (frames os fd h)
unfolding flatten
fetched-frames os fd [] = refl
fetched-frames os fd (read x n ∷ h) = elim (Bool-cases (int_eq x fd)) [
  | inr e ↦ rw (e, append-nil, append-nil) (fetched-frames os fd h)
  | inl e ↦ elim (Bool-cases (is_pos (os h (read x n)).ret)) [
    | inl f ↦ rw (e, f, flatten-append, fetched-frames os fd h, append-nil)
    | inr f ↦ rw (e, f, append-nil, append-nil) (fetched-frames os fd h)
  ]
]
fetched-frames os fd (c ∷ h) = fetched-frames os fd h

-- The front of a mapped list is the mapped front.
pub map-front :
    (f : Bytes → Bytes) (xs ys zs : List Bytes)
    → xs ++ ys ≡ map f zs
    → (front : List Bytes) × (back : List Bytes) × (xs ≡ map f front)
      × (ys ≡ map f back)
      × (front ++ back ≡ zs)
map-front f [] ys zs e = ([], zs, refl, e, refl)
map-front f (x ∷ xs) ys [] e = absurd (cc e)
map-front f (x ∷ xs) ys (z ∷ zs) e =
    let (front, back, p, q, r) = map-front f xs ys zs (cc e) in
    let head : x ≡ f z = cc e in (z ∷ front, back, cc, q, cc)

-- So too for the parts that a mapped list is split into.
map-parts :
    (f : Bytes → Bytes) (parts : List (List Bytes)) (zs : List Bytes)
    → flatten parts ≡ map f zs
    → (origins : List (List Bytes)) × (parts ≡ map (map f) origins) × (flatten origins ≡ zs)
unfolding flatten
map-parts f [] [] e = ([], refl, refl)
map-parts f [] (z ∷ zs) e = absurd (cc e)
map-parts f (part ∷ parts) zs e =
    let (front, back, p, q, r) = map-front f part (flatten parts) zs e in
    let (origins, p', q') = map-parts f parts back q in (front ∷ origins, cc, cc)

pub All-split : (P : Bytes → Type 0) (xs ys : List Bytes) → All P (xs ++ ys) → All P xs × All P ys
All-split P [] ys h = (tt, h)
All-split P (x ∷ xs) ys h = let (a, b) = All-split P xs ys h.1 in ((h.0, a), b)

All-parts :
    (P : Bytes → Type 0) (parts : List (List Bytes)) → All P (flatten parts) → All (All P) parts
unfolding flatten
All-parts P [] h = tt
All-parts P (part ∷ parts) h =
    let (a, b) = All-split P part (flatten parts) h in (a, All-parts P parts b)

arrivals-request :
    (origins : List (List Bytes))
    → map (map arrival) (map (map rfc4648) origins) ≡ map (map request) origins
arrivals-request [] = refl
arrivals-request (frames ∷ origins) = cc (map-map arrival rfc4648 frames, arrivals-request origins)

-- Headers that are the texts of frames bring those frames, however they are split into rounds.
arrivals-deliver :
    (malloc : Malloc) (junk : ℕ) (arrivals : List (List Bytes)) (taken : List Bytes) (os : Os)
    (s : Machine)
    → Supplies malloc
    → IsUsable s.decoding_table
    → s.g_complete ≡ false
    → All IsFrame taken
    → flatten arrivals ≡ map rfc4648 taken
    → (s' : Machine) × (sip_loop_sip_events malloc junk (map (map arrival) arrivals) os s
        ≡ ok ([], s'))
      × (written (s.globals.pipe_from_plugin).1 s'.trace
          ≡ written (s.globals.pipe_from_plugin).1 s.trace ++ flatten taken)
arrivals-deliver malloc junk arrivals taken os s m u c framed split =
    let (origins, parts, whole) = map-parts rfc4648 arrivals taken split in
    let frames_all = All-parts IsFrame origins (subst (All IsFrame) (sym whole) framed) in
    let (s', e, d) = sip_loop_sip_events-Delivers malloc junk origins os s m u c frames_all in
    let same = ap (map (map arrival)) parts ∙ arrivals-request origins in
    (
      s',
      ap (λ rounds. sip_loop_sip_events malloc junk rounds os s) same ∙ e,
      d.wrote ∙ ap (λ b. written (s.globals.pipe_from_plugin).1 s.trace ++ flatten b) whole,
    )

-- Whatever the first host's loop took from its pipe in any number of rounds, once the requests that
-- it sent have arrived at the second host in the order sent, in rounds of any number, the second
-- host's loop has handled them all, and has written to the pipe of its main thread the very bytes
-- that the first host read. PJSIP takes the requests, the allocators do not fail, the first host's
-- reads are answered with bytes as POSIX has it, into the buffer's 1505 bytes, the second host's loop
-- is not ended, and its decoding table is unset or was built.
pub sip_stream :
    (malloc malloc' : Malloc) (n junk : ℕ) (maxfd : ℤ) (l l' : Loop) (t : List Call)
    (arrivals : List (List Bytes)) (os os' : Os) (s s' : Machine)
    → Supplies malloc
    → Supplies malloc'
    → Sends os
    → IsPosix os
    → BringsBytes os
    → length l.buffer ≡ block_size
    → IsUsable s'.decoding_table
    → s'.g_complete ≡ false
    → sip_loop_tun_events malloc n maxfd l os s ≡ ok (l', record s { trace = t })
    → headers t ≡ headers s.trace ++ flatten arrivals
    → (bytes : Bytes) × (s'' : Machine) × (sip_loop_sip_events malloc' junk
          (map (map arrival) arrivals)
          os'
          s'
        ≡ ok ([], s''))
      × (fetched os (s.globals.pipe_to_plugin).0 t
          ≡ fetched os (s.globals.pipe_to_plugin).0 s.trace ++ bytes)
      × (written (s'.globals.pipe_from_plugin).1 s''.trace
          ≡ written (s'.globals.pipe_from_plugin).1 s'.trace ++ bytes)
sip_stream malloc malloc' n junk maxfd l l' t arrivals os os' s s' m m' p q o b u c ran arrived =
    let fd : ℤ = (s.globals.pipe_to_plugin).0 in
    let (k, t', e, f) = sip_loop_tun_events-Forwards malloc n maxfd l os s m p q o b in
    let same : t' ≡ t = cc (e, ran) in
    let sent : headers t ≡ headers s.trace ++ map rfc4648 f.taken =
      ap headers (sym same) ∙ f.sent in
    let split = append_cancel_left (headers s.trace) _ _ (sym arrived ∙ sent) in
    let (s'', e', w) =
      arrivals-deliver malloc' junk arrivals f.taken os' s' m' u c f.framed split in
    let took : frames os fd t ≡ frames os fd s.trace ++ f.taken =
      ap (frames os fd) (sym same) ∙ f.took in
    (
      flatten f.taken,
      s'',
      e',
      fetched-frames os fd t
          ∙ ap flatten took
          ∙ flatten-append (frames os fd s.trace) f.taken
          ∙ ap (λ b. b ++ flatten f.taken) (sym (fetched-frames os fd s.trace)),
      w,
    )
