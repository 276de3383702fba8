-- ===== src/Tests/Sip.antt =====
-- The threads of sip_plugin.c at concrete inputs.
use mathlib.Core.List.{flatten}
use multivpn.Base64.{base64_encode, encoded_length, encode_loop, encode_group, digit, fill, pad}
use multivpn.CString.{c_str}
use multivpn.Globals.{zeroed}
use multivpn.Machine.{Machine}
use multivpn.Os.{
  Os, pj, pthread_create, sip_events_thread, pj_init, pjlib_util_init, pjsip_endpt_create,
  pjsip_tsx_layer_init_module, pjsip_ua_init_module, pjsip_inv_usage_init, pjsip_100rel_init_module,
  register_mod_simpleua, register_msg_logger, Call, read, select, create_request, create_uac,
  send_msg, fd_add,
}
use multivpn.Prelude.Int.{pos}
use multivpn.Prelude.{
  ℕ, ◌≡◌, refl, true, false, List, [], ◌∷◌, ◌++◌, map, Bytes, codes, replicate, length-replicate,
  ok, arith, ◌&&◌, if◌then◌else◌,
}
use multivpn.SipEvents.Delivery.{Delivers, request, sip_loop_sip_events-Delivers}
use multivpn.SipEvents.Ending.{ends_any, sip_loop_sip_events-ends}
use multivpn.SipEvents.Stream.{arrival, sip_stream}
use multivpn.SipEvents.{
  Event, rx_response, tx_message, state_changed, disconnected, dialog_forked, handle_events,
  sip_loop_sip_events,
}
use multivpn.SipPlugin.Frames.{IsFrame, Forwards}
use multivpn.SipPlugin.Startup.{set_up, sip_start-refused, sip_start-Forwards}
use multivpn.SipPlugin.{
  sip_start, init_steps, sip_loop_tun_events, sip_loop_tun_round, sip_envia_datos,
}
use multivpn.TcpPlugin.Streams.{fetched, written}
use multivpn.TcpPlugin.{Loop, overlay}
use multivpn.Tests.Setup.{done, give, give-Supplies, calm, chatty, idle}
use multivpn.Tests.Streams.{chatty-IsPosix, chatty-Sends, chatty-BringsBytes, fresh_loop}

ping-IsFrame : IsFrame (codes "ping")
ping-IsFrame = record { bytes = omega arith; some_bytes = omega arith; bounded = omega arith }

pong-IsFrame : IsFrame (codes "pong!")
pong-IsFrame = record { bytes = omega arith; some_bytes = omega arith; bounded = omega arith }

sip_loop_sip_events-Delivers_example :
    (s' : Machine) × (sip_loop_sip_events give 5
        (map (map request) ((codes "ping" ∷ codes "pong!" ∷ []) ∷ [] ∷ (codes "ping" ∷ []) ∷ []))
        calm
        idle
      ≡ ok ([], s'))
    × Delivers
        (flatten ((codes "ping" ∷ codes "pong!" ∷ []) ∷ [] ∷ (codes "ping" ∷ []) ∷ []))
        idle
        s'
unfolding idle
sip_loop_sip_events-Delivers_example =
    sip_loop_sip_events-Delivers give 5
      ((codes "ping" ∷ codes "pong!" ∷ []) ∷ [] ∷ (codes "ping" ∷ []) ∷ []) calm idle give-Supplies
      tt refl ((ping-IsFrame, (pong-IsFrame, tt)), (tt, ((ping-IsFrame, tt), tt)))

abbrev ending : List Event
ending = tx_message ∷ rx_response ∷ state_changed disconnected ∷ dialog_forked ∷ []

sip_loop_sip_events-ends_example :
    sip_loop_sip_events give 5 (ending ∷ (request (codes "ping") ∷ []) ∷ []) calm idle ≡ (
      if ends_any ending
      then ok ((request (codes "ping") ∷ []) ∷ [], record idle { g_complete = true })
      else sip_loop_sip_events give 5
          ((request (codes "ping") ∷ []) ∷ [])
          calm
          (record idle { g_complete = true }))
unfolding idle handle_events
sip_loop_sip_events-ends_example =
    sip_loop_sip_events-ends give 5 ending ((request (codes "ping") ∷ []) ∷ []) calm idle
      (record idle { g_complete = true }) refl refl

-- One round of the loop that sends: two bytes come, and their text goes.
abbrev sent_two : List Call
sent_two =
    send_msg (codes "Bwk=")
    ∷ create_uac
    ∷ create_request [] []
    ∷ read (pos 0) 1504
    ∷ select (pos 9) (fd_add (pos 0) (λ fd. false))
    ∷ []

abbrev sent_loop : Loop
sent_loop = record {
  buffer = overlay (7 ∷ 9 ∷ []) (replicate 1505 0);
  set_reading = λ fd. fd_add (pos 0) (λ fd. false) fd && true;
}

sent_two_run :
    sip_loop_tun_events give 1 (pos 9) fresh_loop chatty idle
    ≡ ok (sent_loop, record idle { trace = sent_two })
unfolding sip_loop_tun_events sip_loop_tun_round sip_envia_datos base64_encode encoded_length
    encode_loop encode_group digit fill pad give idle zeroed c_str
sent_two_run = refl

sip_stream_example :
    (bytes : Bytes) × (s'' : Machine) × (sip_loop_sip_events give 5
        (map (map arrival) ((codes "Bwk=" ∷ []) ∷ []))
        calm
        idle
      ≡ ok ([], s''))
    × (fetched chatty (idle.globals.pipe_to_plugin).0 sent_two
        ≡ fetched chatty (idle.globals.pipe_to_plugin).0 idle.trace ++ bytes)
    × (written (idle.globals.pipe_from_plugin).1 s''.trace
        ≡ written (idle.globals.pipe_from_plugin).1 idle.trace ++ bytes)
unfolding idle flatten
sip_stream_example =
    sip_stream give give 1 5 (pos 9) fresh_loop sent_loop sent_two ((codes "Bwk=" ∷ []) ∷ []) chatty
      calm idle idle give-Supplies give-Supplies chatty-Sends chatty-IsPosix chatty-BringsBytes
      (length-replicate {A = ℕ} 1505 0) tt refl sent_two_run refl

-- PJSIP takes the first two steps and refuses to create its endpoint.
abbrev refusing : Os
refusing h (pj pjsip_endpt_create) = record done { ret = pos 70004 }
refusing h c = done

sip_start-refused_example :
    sip_start give 3 fresh_loop refusing idle
    ≡ ok (
      pos 1,
      record idle { trace = pj pjsip_endpt_create ∷ pj pjlib_util_init ∷ pj pj_init ∷ [] },
    )
unfolding idle
sip_start-refused_example =
    sip_start-refused give 3 fresh_loop refusing idle (pj_init ∷ pjlib_util_init ∷ [])
      pjsip_endpt_create
      (pjsip_tsx_layer_init_module ∷ pjsip_ua_init_module ∷ pjsip_inv_usage_init
        ∷ pjsip_100rel_init_module ∷ register_mod_simpleua ∷ register_msg_logger ∷ [])
      refl ((λ h. refl), ((λ h. refl), tt)) refl

sip_start-Forwards_example :
    (t : List Call) × (sip_start give 3 fresh_loop chatty idle
      ≡ ok (pos 0, record idle { trace = t }))
    × Forwards chatty
        (idle.globals.pipe_to_plugin).0
        (pthread_create sip_events_thread ∷ set_up init_steps idle.trace)
        t
sip_start-Forwards_example =
    sip_start-Forwards give 3 fresh_loop chatty idle give-Supplies chatty-Sends chatty-IsPosix
      chatty-BringsBytes (length-replicate {A = ℕ} 1505 0)
      (
        (λ h. refl),
        (
          (λ h. refl),
          (
            (λ h. refl),
            (
              (λ h. refl),
              ((λ h. refl), ((λ h. refl), ((λ h. refl), ((λ h. refl), ((λ h. refl), tt))))),
            ),
          ),
        ),
      )
