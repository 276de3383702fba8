-- ===== src/SipEvents/Ending.antt =====
-- The loop of the SIP events ends once a session was disconnected, and only then.
use multivpn.Base64.{Malloc}
use multivpn.Machine.{Machine, M, ◌>>=◌}
use multivpn.Os.{Os}
use multivpn.Prelude.{
  ℕ, ◌≡◌, refl, ◌∙◌, Bool, true, false, List, [], ◌∷◌, ◌||◌, ok, arith, inl, inr, Exec-cases,
  Bool-cases, if◌then◌else◌,
}
use multivpn.SipEvents.Delivery.{sip_loop_sip_events-cons}
use multivpn.SipEvents.{
  Event, rx_request, rx_response, tx_message, disconnected, other_state, state_changed,
  dialog_forked, handle_events, sip_loop_sip_events,
}
use multivpn.SipPlugin.{RxData, on_rx_request, copy_payload}

-- Whether an event ends the loop.
abbrev pub ends : Event → Bool
ends (state_changed disconnected) = true
ends _ = false

abbrev pub ends_any : List Event → Bool
ends_any [] = false
ends_any (e ∷ events) = ends e || ends_any events

-- What ran to its end through two actions ran through the first.
ran_through :
    {A B : Type 0} (m : M A) (f : A → M B) (os : Os) (s s' : Machine) (b : B)
    → (m >>= f) os s ≡ ok (b, s')
    → (a : A) × (t : Machine) × (m os s ≡ ok (a, t)) × (f a os t ≡ ok (b, s'))
ran_through m f os s s' b e = elim (Exec-cases (m os s)) [
  | inl ((a, t), h) ↦ (a, t, h, ground (arith, h, e))
  | inr (x, h) ↦ absurd (ground (arith, h, e))
]

on_rx_request-g_complete :
    (malloc : Malloc) (junk : ℕ) (rdata : RxData) (os : Os) (s s' : Machine) (b : Bool)
    → on_rx_request malloc junk rdata os s ≡ ok (b, s')
    → s'.g_complete ≡ s.g_complete
unfolding on_rx_request copy_payload
on_rx_request-g_complete malloc junk rdata os s s' b e = ground arith

-- The flag after some events: it was set, or one of them sets it.
handle_events-g_complete :
    (malloc : Malloc) (junk : ℕ) (events : List Event) (os : Os) (s s' : Machine)
    → handle_events malloc junk events os s ≡ ok (tt, s')
    → s'.g_complete ≡ (s.g_complete || ends_any events)
unfolding handle_events
handle_events-g_complete malloc junk [] os s s' h = ground arith
handle_events-g_complete malloc junk (rx_request rdata ∷ events) os s s' h =
    let (b, t, e, rest) =
      ran_through (on_rx_request malloc junk rdata) (λ _. handle_events malloc junk events) os s s'
        tt h in
    ground (
      arith,
      on_rx_request-g_complete malloc junk rdata os s t b e,
      handle_events-g_complete malloc junk events os t s' rest,
    )
handle_events-g_complete malloc junk (rx_response ∷ events) os s s' h =
    handle_events-g_complete malloc junk events os s s' h
handle_events-g_complete malloc junk (tx_message ∷ events) os s s' h =
    handle_events-g_complete malloc junk events os s s' h
handle_events-g_complete malloc junk (state_changed disconnected ∷ events) os s s' h =
    handle_events-g_complete malloc junk events os (record s { g_complete = true }) s' h
    ∙ ground arith
handle_events-g_complete malloc junk (state_changed other_state ∷ events) os s s' h =
    handle_events-g_complete malloc junk events os s s' h
handle_events-g_complete malloc junk (dialog_forked ∷ events) os s s' h =
    handle_events-g_complete malloc junk events os s s' h

-- A loop that has ended makes no round.
ended :
    (malloc : Malloc) (junk : ℕ) (rounds : List (List Event)) (os : Os) (s : Machine)
    → s.g_complete ≡ true
    → sip_loop_sip_events malloc junk rounds os s ≡ ok (rounds, s)
unfolding sip_loop_sip_events
ended malloc junk [] os s c = refl
ended malloc junk (events ∷ rounds) os s c = ground arith

-- After a round whose callbacks do not fault, the loop stops exactly when one of them was the end of
-- a session: the later rounds are then not made, and otherwise they are. The loop was not ended
-- before.
pub sip_loop_sip_events-ends :
    (malloc : Malloc) (junk : ℕ) (events : List Event) (rounds : List (List Event)) (os : Os)
    (s s' : Machine)
    → s.g_complete ≡ false
    → handle_events malloc junk events os s ≡ ok (tt, s')
    → sip_loop_sip_events malloc junk (events ∷ rounds) os s
      ≡ (if ends_any events then ok (rounds, s') else sip_loop_sip_events malloc junk rounds os s')
sip_loop_sip_events-ends malloc junk events rounds os s s' c e =
    let flag = handle_events-g_complete malloc junk events os s s' e in
    sip_loop_sip_events-cons malloc junk events rounds os s s' c e
    ∙ elim (Bool-cases (ends_any events)) [
      | inl h ↦ rw h (ended malloc junk rounds os s' (ground (arith, flag)))
      | inr h ↦ rw h refl
    ]
