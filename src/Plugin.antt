-- ===== src/Plugin.antt =====
-- plugin.c: the choice of the plugin, and the calls that go through it.
pub mod Choice
use multivpn.CString.{strncmp_eq}
use multivpn.Globals.{tcp_plugin, sip_plugin}
use multivpn.Machine.{Machine, M, Owner, tcp, sip, pure, ◌>>=◌, ◌>>◌, get, modify, sys, fail}
use multivpn.Os.{FdSet, plugin_thread, pipe, pthread_create}
use multivpn.Prelude.Int.{ℤ, pos, minus_one, is_true}
use multivpn.Prelude.{Bool, ◌||◌, Option, none, some, codes, if◌then◌else◌, null_pointer}
use multivpn.SipPlugin
use multivpn.TcpConfig
use multivpn.TcpPlugin
use multivpn.TunTap.{tun_get_file}

-- `active_plugin_build()`
unfoldable pub call_build : Option Owner → M ℤ
call_build none = fail null_pointer
call_build (some tcp) = TcpPlugin.tcp_build
call_build (some sip) = SipPlugin.sip_build

-- `active_plugin_check_parameters()`
unfoldable pub call_check_parameters : Option Owner → M ℤ
call_check_parameters none = fail null_pointer
call_check_parameters (some tcp) = do
  s ← get
  pure (TcpConfig.tcp_check_parameters s.globals).result
call_check_parameters (some sip) = do s ← get; pure (SipPlugin.sip_check_parameters s.globals)

-- `active_plugin_fillFDSET(set)`; the SIP plugin has no such function.
unfoldable pub call_fill_fdset : Option Owner → FdSet → M FdSet
call_fill_fdset (some tcp) set = TcpConfig.tcp_fill_fdset set
call_fill_fdset _ set = fail null_pointer

unfoldable pub plugin_check_config : M ℤ
unfolding call_check_parameters
plugin_check_config = do
  s ← get
  if strncmp_eq s.globals.plugin_name (codes "tcp") 3
      then (do
        modify (λ s'. record s' {
          globals = record s'.globals { plugin = tcp_plugin };
          active_plugin_start = TcpConfig.tcp_plugin_get_start;
          active_plugin_build = TcpConfig.tcp_plugin_get_build;
          active_plugin_check_parameters = TcpConfig.tcp_plugin_get_check_parameters;
          active_plugin_fill_fdset = TcpConfig.tcp_plugin_get_fill_fdset;
          active_plugin_check_fdisset = TcpConfig.tcp_plugin_get_check_fdisset;
          active_plugin_get_tun_tap = TcpConfig.tcp_plugin_get_tun_tap;
        })
        s' ← get
        call_check_parameters s'.active_plugin_check_parameters)
      else if strncmp_eq s.globals.plugin_name (codes "sip") 3
      then (do
        modify (λ s'. record s' {
          globals = record s'.globals { plugin = sip_plugin };
          active_plugin_start = SipPlugin.sip_plugin_get_start;
          active_plugin_build = SipPlugin.sip_plugin_get_build;
          active_plugin_check_parameters = SipPlugin.sip_plugin_get_check_parameters;
        })
        s' ← get
        call_check_parameters s'.active_plugin_check_parameters)
      else pure minus_one

-- The two pipes are made in this order; the second is not tried where the first fails.
unfoldable pub plugin_build : M ℤ
unfolding call_build
plugin_build = do
  a ← sys pipe
  if is_true a.ret then pure minus_one else (do
    modify (λ s. record s { globals = record s.globals { pipe_from_plugin = a.ends } })
    b ← sys pipe
    if is_true b.ret then pure minus_one else (do
      modify (λ s. record s { globals = record s.globals { pipe_to_plugin = b.ends } })
      s ← get
      r ← call_build s.active_plugin_build
      pure (if is_true r then minus_one else pos 0)))

unfoldable pub plugin_start : M ℤ
plugin_start = do
  s ← get
  elim s.active_plugin_start [
    | none ↦ pure minus_one
    | some h ↦ do t ← sys (pthread_create plugin_thread); pure (pos 0)
  ]

-- `plugin_fillFDSET`, by the set that it leaves
unfoldable pub plugin_fill_fdset : FdSet → M FdSet
unfolding call_fill_fdset
plugin_fill_fdset set = do s ← get; call_fill_fdset s.active_plugin_fill_fdset set

-- These do no more than log.
unfoldable pub plugin_get_tun_tap : M ℤ
plugin_get_tun_tap = pure (pos 0)

unfoldable pub plugin_stop : M (Unit {0})
plugin_stop = pure tt

unfoldable pub plugin_check_fdisset : FdSet → M ℤ
plugin_check_fdisset set = pure (pos 0)
