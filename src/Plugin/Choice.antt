-- ===== src/Plugin/Choice.antt =====
-- Which plugin plugin.c chooses, and what then can be called.
use multivpn.CString.{strncmp_eq}
use multivpn.Globals.{sip_plugin}
use multivpn.Machine.{Machine, sip}
use multivpn.Os.{Os, FdSet, pipe}
use multivpn.Plugin.{plugin_check_config, plugin_build, plugin_fill_fdset}
use multivpn.Prelude.Int.{minus_one, is_true}
use multivpn.Prelude.{
  ◌≡◌, refl, true, false, none, some, codes, ok, fault, null_pointer, if◌then◌else◌, ◌∷◌, arith,
}
use multivpn.SipPlugin.{sip_check_parameters}

-- Where the configuration names the SIP plugin, `plugin_checkConfig` returns that plugin's verdict
-- on the configuration, and a call of `plugin_fillFDSET` afterwards goes through a NULL pointer.
-- The pointer is NULL before the choice.
pub plugin_fill_fdset_sip :
    (set : FdSet) (os : Os) (s : Machine)
    → strncmp_eq s.globals.plugin_name (codes "tcp") 3 ≡ false
    → strncmp_eq s.globals.plugin_name (codes "sip") 3 ≡ true
    → s.active_plugin_fill_fdset ≡ none
    → (s' : Machine) × (plugin_check_config os s
        ≡ ok (sip_check_parameters (record s.globals { plugin = sip_plugin }), s'))
      × (s'.active_plugin_build ≡ some sip)
      × (plugin_fill_fdset set os s' ≡ fault null_pointer)
unfolding plugin_check_config plugin_fill_fdset
plugin_fill_fdset_sip set os s t p n = (
  record s {
    globals = record s.globals { plugin = sip_plugin };
    active_plugin_start = some sip;
    active_plugin_build = some sip;
    active_plugin_check_parameters = some sip;
  },
  rw (t, plugin_check_config, p),
  refl,
  rw (n, plugin_fill_fdset),
)

-- Without a choice made before, `plugin_build` calls through a NULL pointer once both pipes are
-- made, and returns -1 where one cannot be made.
pub plugin_build_unchosen :
    (os : Os) (s : Machine)
    → s.active_plugin_build ≡ none
    → plugin_build os s ≡ (
        if is_true (os s.trace pipe).ret
        then ok (minus_one, record s { trace = pipe ∷ s.trace })
        else if is_true (os (pipe ∷ s.trace) pipe).ret
        then ok (
          minus_one,
          record s {
            trace = pipe ∷ pipe ∷ s.trace;
            globals = record s.globals { pipe_from_plugin = (os s.trace pipe).ends };
          },
        )
        else fault null_pointer)
unfolding plugin_build
plugin_build_unchosen os s n = ground arith
