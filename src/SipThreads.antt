-- ===== src/SipThreads.antt =====
-- The two threads of sip_plugin.c call by call: where a thread stands in its loop, and what its next
-- call does to the program's state.
pub mod Rounds
use multivpn.Base64.{Malloc, Encoded, base64_encode, base64_decode}
use multivpn.CString.{c_str}
use multivpn.Globals.{block_size}
use multivpn.Machine.{Machine, M, pure, ◌>>=◌, ◌>>◌, get, modify, sys, lift}
use multivpn.Os.{
  read, write, write_null, select, respond_stateless, create_request, create_uac, send_msg, fd_add,
  selected,
}
use multivpn.Prelude.Int.{ℤ, pos, is_true, is_pos, pos_part, to_signed}
use multivpn.Prelude.{
  ℕ, ◌-◌, ◌%◌, ◌^◌, Bool, true, false, not, Option, none, some, Bytes, codes, take, if◌then◌else◌,
  deref,
}
use multivpn.SipEvents.{
  Event, rx_request, rx_response, tx_message, state_changed, dialog_forked, logging_on_rx_msg,
  logging_on_tx_msg, call_on_state_changed, call_on_forked,
}
use multivpn.SipPlugin.{RxData, copy_payload}
use multivpn.TcpPlugin.{Loop, overlay}

-- The next call of `sip_loop_tun_events` and of `sip_envia_datos`, with the local variables.
pub data Sender : Type 0 where
  tun_select tun_read : Loop → Sender
  tun_request tun_uac : Encoded → Loop → Sender
  tun_send : Bytes → Loop → Sender

-- As in `sip_envia_datos`, the header's length is the low half of the encoder's.
unfoldable pub sender_step : Malloc → ℤ → Sender → M Sender
sender_step malloc maxfd (tun_select l) = do
  s ← get
  let (pipe_in, _) = s.globals.pipe_to_plugin
  let asked = fd_add pipe_in l.set_reading
  r ← sys (select maxfd asked)
  let ready = selected asked r
  pure (
      if ready pipe_in
      then tun_read (record l { set_reading = ready })
      else tun_select (record l { set_reading = ready }))
sender_step malloc maxfd (tun_read l) = do
  s ← get
  let (pipe_in, _) = s.globals.pipe_to_plugin
  x ← sys (read pipe_in (block_size - 1))
  let filled = overlay x.bytes l.buffer
  if is_pos x.ret
      then (do
        e ← lift (base64_encode malloc (take (pos_part x.ret) filled))
        pure (tun_request e (record l { buffer = filled })))
      else pure (tun_select (record l { buffer = filled }))
sender_step malloc maxfd (tun_request e l) = do
  s ← get
  t ← sys (create_request (c_str s.globals.sip_remoteuri) (c_str s.globals.sip_fromuri))
  pure (if is_true t.ret then tun_select l else tun_uac e l)
sender_step malloc maxfd (tun_uac e l) = do
  u ← sys create_uac
  if is_true u.ret then pure (tun_select l) else (do
    payload ← lift (deref e.encoded_data)
    pure (tun_send (take (pos_part (to_signed (e.output_length % 2 ^ 32))) payload) l))
sender_step malloc maxfd (tun_send header l) = do m ← sys (send_msg header); pure (tun_select l)

-- Where the thread of the SIP events stands: in front of the test of its loop, inside of
-- `pjsip_endpt_handle_events`, in front of a call of `on_rx_request`, or behind the loop.
pub data Receiver : Type 0 where
  rx_test rx_handle rx_end : Receiver
  rx_write : Option Bytes → ℤ → Receiver
  rx_respond : ℕ → Bytes → Receiver

-- `on_rx_request` up to its first call
unfoldable pub receive : Malloc → ℕ → RxData → M Receiver
receive malloc junk rdata =
    if not rdata.is_options
    then pure (rx_respond 500 (codes "Go home"))
    else elim rdata.multivpn_header [
      | none ↦ pure (rx_respond 500 (codes "Go home and sleep"))
      | some value ↦ do
        payload ← copy_payload value
        s ← get
        d ← lift (base64_decode malloc s.decoding_table junk payload)
        modify (λ s'. record s' { decoding_table = d.table })
        pure (rx_write d.decoded_data (to_signed (d.output_length % 2 ^ 32)))
    ]

-- A callback that PJSIP makes, up to its first call.
unfoldable pub receiver_event : Malloc → ℕ → Event → M Receiver
unfolding receive logging_on_rx_msg logging_on_tx_msg call_on_state_changed call_on_forked
receiver_event malloc junk (rx_request rdata) = do
  seen ← logging_on_rx_msg
  receive malloc junk rdata
receiver_event malloc junk rx_response = do seen ← logging_on_rx_msg; pure rx_handle
receiver_event malloc junk tx_message = do status ← logging_on_tx_msg; pure rx_handle
receiver_event malloc junk (state_changed state) = do call_on_state_changed state; pure rx_handle
receiver_event malloc junk dialog_forked = do call_on_forked; pure rx_handle

-- What the thread does next by itself; inside of `pjsip_endpt_handle_events` it returns from there.
unfoldable pub receiver_step : Receiver → M Receiver
receiver_step rx_test = do s ← get; pure (if s.g_complete then rx_end else rx_handle)
receiver_step rx_handle = pure rx_test
receiver_step rx_end = pure rx_end
receiver_step (rx_write data_out n_bytes) = do
  s ← get
  let (_, pipe_out) = s.globals.pipe_from_plugin
  w ← sys (elim data_out [
    | none ↦ write_null pipe_out n_bytes
    | some bytes ↦ write pipe_out (take (pos_part n_bytes) bytes)
  ])
  pure (rx_respond 666 (codes "Traffic Accepted"))
receiver_step (rx_respond code text) = do r ← sys (respond_stateless code text); pure rx_handle
