-- ===== src/SipThreads/Rounds.antt =====
-- A thread of sip_plugin.c that is not interrupted makes, call by call, the rounds of its loop.
use multivpn.Base64.{Malloc}
use multivpn.Machine.{Machine, M, pure, ◌>>=◌}
use multivpn.Os.{Os}
use multivpn.Prelude.Int.{ℤ}
use multivpn.Prelude.{ℕ, zero, suc, ◌≡◌, [], ◌∷◌, arith}
use multivpn.SipEvents.{
  Event, rx_request, rx_response, tx_message, state_changed, dialog_forked, handle_events,
}
use multivpn.SipPlugin.{sip_loop_tun_round, sip_envia_datos, on_rx_request}
use multivpn.SipThreads.{
  Sender, tun_select, sender_step, Receiver, rx_handle, receiver_event, receiver_step,
}
use multivpn.TcpPlugin.{Loop}

-- Up to so many steps, until the thread is back at `select`.
unfoldable pub sender_finish : Malloc → ℤ → ℕ → Sender → M Sender
sender_finish malloc maxfd zero pc = pure pc
sender_finish malloc maxfd (suc n) (tun_select l) = pure (tun_select l)
sender_finish malloc maxfd (suc n) pc = do
  pc' ← sender_step malloc maxfd pc
  sender_finish malloc maxfd n pc'

-- Up to so many steps, until the callback has returned.
unfoldable pub receiver_finish : ℕ → Receiver → M Receiver
receiver_finish zero pc = pure pc
receiver_finish (suc n) rx_handle = pure rx_handle
receiver_finish (suc n) pc = do pc' ← receiver_step pc; receiver_finish n pc'

sender_round :
    (malloc : Malloc) (maxfd : ℤ) (l : Loop) (os : Os) (s : Machine)
    → (sender_step malloc maxfd (tun_select l) >>= sender_finish malloc maxfd 4) os s
      ≡ (sip_loop_tun_round malloc maxfd l >>= λ l'. pure (tun_select l')) os s
unfolding sender_step sender_finish sip_loop_tun_round sip_envia_datos
sender_round malloc maxfd l os s = ground arith

receiver_round :
    (malloc : Malloc) (junk : ℕ) (e : Event) (os : Os) (s : Machine)
    → (receiver_event malloc junk e >>= receiver_finish 2) os s
      ≡ (handle_events malloc junk (e ∷ []) >>= λ _. pure rx_handle) os s
unfolding receiver_event receiver_step receiver_finish handle_events on_rx_request
receiver_round malloc junk (rx_request rdata) os s = ground arith
receiver_round malloc junk rx_response os s = ground arith
receiver_round malloc junk tx_message os s = ground arith
receiver_round malloc junk (state_changed state) os s = ground arith
receiver_round malloc junk dialog_forked os s = ground arith

-- A thread of sip_plugin.c that is not interrupted does, step by step, what the source's functions
-- do, faults included: from its `select` to its next one a round of `sip_loop_tun_events`, and from
-- a callback of PJSIP to its return that callback.
pub sip_threads_alone :
    (malloc : Malloc) (maxfd : ℤ) (l : Loop) (junk : ℕ) (e : Event) (os : Os) (s : Machine)
    → ((sender_step malloc maxfd (tun_select l) >>= sender_finish malloc maxfd 4) os s
        ≡ (sip_loop_tun_round malloc maxfd l >>= λ l'. pure (tun_select l')) os s)
      × ((receiver_event malloc junk e >>= receiver_finish 2) os s
          ≡ (handle_events malloc junk (e ∷ []) >>= λ done. pure rx_handle) os s)
sip_threads_alone malloc maxfd l junk e os s =
    (sender_round malloc maxfd l os s, receiver_round malloc junk e os s)
