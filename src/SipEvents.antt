-- ===== src/SipEvents.antt =====
-- sip_plugin.c: the thread of the SIP events, and the callbacks that PJSIP makes in it.
pub mod Delivery
pub mod Ending
pub mod Stream
use multivpn.Base64.{Malloc}
use multivpn.Machine.{Machine, M, pure, ◌>>=◌, ◌>>◌, get, modify}
use multivpn.Prelude.Int.{ℤ, pos}
use multivpn.Prelude.{ℕ, Bool, true, false, List, [], ◌∷◌}
use multivpn.SipPlugin.{RxData, on_rx_request}

-- `inv->state`, as far as the callback tells its values apart.
pub data InvState : Type 0 where
  disconnected other_state : InvState

-- The callbacks that PJSIP makes while it handles its events: the logger's and `mod_simpleua`'s on a
-- request, the logger's on a response and on a message that goes out, and those of an INVITE
-- session.
pub data Event : Type 0 where
  rx_request : RxData → Event
  rx_response : Event
  tx_message : Event
  state_changed : InvState → Event
  dialog_forked : Event

-- `PJ_FALSE`: the next module sees the message, too.
unfoldable pub logging_on_rx_msg : M Bool
logging_on_rx_msg = pure false

unfoldable pub logging_on_tx_msg : M ℤ
logging_on_tx_msg = pure (pos 0)

unfoldable pub call_on_state_changed : InvState → M (Unit {0})
call_on_state_changed disconnected = modify (λ s. record s { g_complete = true })
call_on_state_changed other_state = pure tt

unfoldable pub call_on_forked : M (Unit {0})
call_on_forked = pure tt

-- One callback after the other. `junk` is what `lenDecoded` holds before it is set.
unfoldable pub handle_events : Malloc → ℕ → List Event → M (Unit {0})
unfolding logging_on_rx_msg logging_on_tx_msg call_on_state_changed call_on_forked
handle_events malloc junk [] = pure tt
handle_events malloc junk (rx_request rdata ∷ events) = do
  seen ← logging_on_rx_msg
  taken ← on_rx_request malloc junk rdata
  handle_events malloc junk events
handle_events malloc junk (rx_response ∷ events) = do
  seen ← logging_on_rx_msg
  handle_events malloc junk events
handle_events malloc junk (tx_message ∷ events) = do
  status ← logging_on_tx_msg
  handle_events malloc junk events
handle_events malloc junk (state_changed state ∷ events) = do
  call_on_state_changed state
  handle_events malloc junk events
handle_events malloc junk (dialog_forked ∷ events) = do
  call_on_forked
  handle_events malloc junk events

-- `for (; !g_complete;)`, with the events that each round handles. The result is the rounds that
-- were not made, since the loop had ended.
unfoldable pub sip_loop_sip_events : Malloc → ℕ → List (List Event) → M (List (List Event))
sip_loop_sip_events malloc junk [] = pure []
sip_loop_sip_events malloc junk (events ∷ rounds) = do
  s ← get
  elim s.g_complete [
    | true ↦ pure (events ∷ rounds)
    | false ↦ do handle_events malloc junk events; sip_loop_sip_events malloc junk rounds
  ]
