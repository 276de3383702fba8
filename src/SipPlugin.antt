-- ===== src/SipPlugin.antt =====
-- sip_plugin.c: the tunnel over SIP OPTIONS requests, whose header `Multivpn` carries a frame in
-- base64. `malloc` is the allocator that the codec uses.
pub mod Header
pub mod Tunnel
pub mod Refusals
pub mod Frames
pub mod Startup
use multivpn.Base64.{Malloc, base64_encode, base64_decode}
use multivpn.CString.{c_str, contains, strncpy}
use multivpn.Globals.{GlobalV, block_size}
use multivpn.Machine.{Machine, Owner, sip, M, pure, ◌>>=◌, ◌>>◌, get, modify, sys, lift, fail}
use multivpn.Os.{
  Reply, PjInit, pj_init, pjlib_util_init, pjsip_endpt_create, pjsip_tsx_layer_init_module,
  pjsip_ua_init_module, pjsip_inv_usage_init, pjsip_100rel_init_module, register_mod_simpleua,
  register_msg_logger, sip_events_thread, read, write, write_null, select, pthread_create, pj,
  respond_stateless, create_request, create_uac, send_msg, fd_add, selected,
}
use multivpn.Prelude.Int.{ℤ, pos, minus_one, is_true, is_pos, int_suc, pos_part, to_signed}
use multivpn.Prelude.{
  ℕ, zero, suc, ◌-◌, ◌%◌, ◌^◌, Bool, true, false, not, List, [], ◌∷◌, Option, none, some, Bytes,
  codes, length, take, replicate, ltb, ◌==◌, if◌then◌else◌, deref, out_of_bounds,
}
use multivpn.TcpPlugin.{Loop, overlay}
use multivpn.TunTap.{tun_open, tun_up, tun_set_ip, tun_set_netmask}

-- `PJ_ASSERT_RETURN` of each call in turn: the first status that is not PJ_SUCCESS (0) ends the
-- setting up with 1, or with the status itself for the 100rel module.
unfoldable pub sip_init : List PjInit → M ℤ
sip_init [] = pure (pos 0)
sip_init (pjsip_100rel_init_module ∷ steps) = do
  r ← sys (pj pjsip_100rel_init_module)
  if is_true r.ret then pure r.ret else sip_init steps
sip_init (step ∷ steps) = do
  r ← sys (pj step)
  if is_true r.ret then pure (pos 1) else sip_init steps

abbrev pub init_steps : List PjInit
init_steps =
    pj_init ∷ pjlib_util_init ∷ pjsip_endpt_create ∷ pjsip_tsx_layer_init_module
    ∷ pjsip_ua_init_module ∷ pjsip_inv_usage_init ∷ pjsip_100rel_init_module ∷ register_mod_simpleua
    ∷ register_msg_logger ∷ []

-- What `on_rx_request` reads of a request: whether its method is OPTIONS, and the value of its
-- `Multivpn` header.
pub record RxData : Type 0 where
  pub is_options : Bool
  pub multivpn_header : Option Bytes

-- `memset(payload, 0, n)`
unfoldable pub zeros : ℕ → Bytes
zeros n = replicate n 0

-- `char payload[2048]`, after `strncpy(payload, id.ptr, id.slen)`, and its string
unfoldable pub copy_payload : Bytes → M Bytes
copy_payload value =
    let payload = strncpy (zeros 2048) value (length value) in
    if ltb 2048 (length value)
    then fail out_of_bounds
    else if contains 0 payload
    then pure (c_str payload)
    else fail out_of_bounds

-- `junk` is what `lenDecoded` holds before it is set. The result is PJ_TRUE on every path.
unfoldable pub on_rx_request : Malloc → ℕ → RxData → M Bool
on_rx_request malloc junk rdata =
    if not rdata.is_options
    then (do r ← sys (respond_stateless 500 (codes "Go home")); pure true)
    else elim rdata.multivpn_header [
      | none ↦ do r ← sys (respond_stateless 500 (codes "Go home and sleep")); pure true
      | some value ↦ do
        payload ← copy_payload value
        s ← get
        d ← lift (base64_decode malloc s.decoding_table junk payload)
        modify (λ s'. record s' { decoding_table = d.table })
        let n_bytes = to_signed (d.output_length % 2 ^ 32)
        let (_, pipe_out) = s.globals.pipe_from_plugin
        w ← sys (elim d.decoded_data [
          | none ↦ write_null pipe_out n_bytes
          | some bytes ↦ write pipe_out (take (pos_part n_bytes) bytes)
        ])
        r ← sys (respond_stateless 666 (codes "Traffic Accepted"))
        pure true
    ]

-- `longitudEncodeado` is an `int`: the header's length is the low half of the encoder's `size_t`, and the
-- high half falls on bytes that are taken to be read by nobody. A header from NULL faults in PJSIP's copy.
unfoldable pub sip_envia_datos : Malloc → Bytes → M ℤ
sip_envia_datos malloc datos = do
  e ← lift (base64_encode malloc datos)
  s ← get
  t ← sys (create_request (c_str s.globals.sip_remoteuri) (c_str s.globals.sip_fromuri))
  if is_true t.ret then pure (pos 1) else (do
    u ← sys create_uac
    if is_true u.ret then pure (pos 1) else (do
      payload ← lift (deref e.encoded_data)
      m ← sys (send_msg (take (pos_part (to_signed (e.output_length % 2 ^ 32))) payload))
      pure (if is_true m.ret then pos 1 else pos 0)))

-- One round of `sip_loop_tun_events`.
unfoldable pub sip_loop_tun_round : Malloc → ℤ → Loop → M Loop
sip_loop_tun_round malloc maxfd l = do
  s ← get
  let (pipe_in, _) = s.globals.pipe_to_plugin
  let asked = fd_add pipe_in l.set_reading
  r ← sys (select maxfd asked)
  let ready = selected asked r
  if ready pipe_in
      then (do
        x ← sys (read pipe_in (block_size - 1))
        let filled = overlay x.bytes l.buffer
        if is_pos x.ret
            then (do
              sent ← sip_envia_datos malloc (take (pos_part x.ret) filled)
              pure (record { buffer = filled; set_reading = ready }))
            else pure (record { buffer = filled; set_reading = ready }))
      else pure (record { buffer = l.buffer; set_reading = ready })

unfoldable pub sip_loop_tun_events : Malloc → ℕ → ℤ → Loop → M Loop
sip_loop_tun_events malloc zero maxfd l = pure l
sip_loop_tun_events malloc (suc n) maxfd l = do
  l' ← sip_loop_tun_round malloc maxfd l
  sip_loop_tun_events malloc n maxfd l'

-- The thread of the SIP events is started, and so many rounds of the other loop are made.
-- `maxfd` of `sip_loop_tun_events`
abbrev pub tun_maxfd : Machine → ℤ
tun_maxfd s = int_suc (s.globals.pipe_to_plugin).0

unfoldable pub sip_start : Malloc → ℕ → Loop → M ℤ
sip_start malloc n l = do
  status ← sip_init init_steps
  if is_true status then pure status else (do
    t ← sys (pthread_create sip_events_thread)
    s ← get
    l' ← sip_loop_tun_events malloc n (tun_maxfd s) l
    pure (pos 0))

-- `!global_v.sip_transport` and `!global_v.sip_remoteuri` test the addresses of arrays: never NULL.
unfoldable pub sip_check_parameters : GlobalV → ℤ
sip_check_parameters g = if g.sip_port == 0 then minus_one else pos 0

unfoldable pub sip_build : M ℤ
sip_build = do
  t ← tun_open
  if is_true t then pure minus_one else (do
    u ← tun_up
    if is_true u then pure minus_one else (do
      s ← get
      a ← tun_set_ip (c_str s.globals.local_ip)
      b ← tun_set_netmask (c_str s.globals.local_netmask)
      pure (pos 0)))

unfoldable pub sip_get_tun_tap : M ℤ
sip_get_tun_tap = pure (pos 0)

-- The functions that plugin.c can ask for; three of them are not there.
abbrev pub sip_plugin_get_start : Option Owner
sip_plugin_get_start = some sip

abbrev pub sip_plugin_get_check_parameters : Option Owner
sip_plugin_get_check_parameters = some sip

abbrev pub sip_plugin_get_fill_fdset : Option Owner
sip_plugin_get_fill_fdset = none

abbrev pub sip_plugin_get_check_fdisset : Option Owner
sip_plugin_get_check_fdisset = none

abbrev pub sip_plugin_get_tun_tap : Option Owner
sip_plugin_get_tun_tap = none

abbrev pub sip_plugin_get_build : Option Owner
sip_plugin_get_build = some sip
