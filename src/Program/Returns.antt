-- ===== src/Program/Returns.antt =====
-- The phases of main.c come to their end without a fault.
use multivpn.CString.{c_str, strncmp_eq}
use multivpn.GenericTunnel.{no_connections, store_connection_information}
use multivpn.Globals.{server_mode, client_mode}
use multivpn.Machine.{◌>>=◌, Machine, Owner, tcp, sip}
use multivpn.Os.{set_addr, set_netmask, Os, pipe, pthread_create, plugin_thread}
use multivpn.Plugin.{plugin_check_config, plugin_build, call_build}
use multivpn.Prelude.Int.{ℤ, is_true, int_eq, minus_one, pos}
use multivpn.Prelude.{
  ℕ, zero, suc, ◌≡◌, ◌∙◌, refl, false, [], ◌∷◌, Bytes, codes, some, ok, arith, inl, inr, Bool-cases,
  Exec-cases, if◌then◌else◌,
}
use multivpn.Program.Phases.{plugin_build-pipes, plugin_start-threads, Phased, run_plugin_lem}
use multivpn.Program.{left, looping, Outcome, main_round, main_rounds, main_loop, run_plugin}
use multivpn.SipPlugin.{sip_build}
use multivpn.TcpPlugin.{Loop, relay, tcp_build, tcp_build_client, tcp_build_server}
use multivpn.TunTap.{tun_set_ip, tun_set_netmask, tun_get_file}
use multivpn.TunTap.Returns.{
  IsUnix, Returns, Named, returned, tun_open-Returns, tun_open-Named, tun_up-Returns,
  tun_up-iface_name, set_address-Returns, set_address-iface_name, tun_open-plugindata,
}

sip_build-Returns : (os : Os) (s : Machine) → IsUnix os → Returns (sip_build os s)
unfolding sip_build tun_set_ip tun_set_netmask
sip_build-Returns os s h =
    let (a, t, e) = tun_open-Returns os s in
    elim (Bool-cases (is_true a)) [
      | inl f ↦ (minus_one, t, ground (arith, e, f))
      | inr f ↦
          let named = tun_open-Named os s t a h e f in
          let (b, u, g) = tun_up-Returns os t named in
          let named_up : Named u = rw (tun_up-iface_name os t u b g) named in
          elim (Bool-cases (is_true b)) [
            | inl k ↦ (minus_one, u, ground (arith, e, f, g, k))
            | inr k ↦
                let ip = c_str u.globals.local_ip in
                let mask = c_str u.globals.local_netmask in
                let (c, v, m) = set_address-Returns set_addr ip os u named_up in
                let named_ip : Named v =
                  rw (set_address-iface_name set_addr ip os u v c m) named_up in
                let (d, w, q) = set_address-Returns set_netmask mask os v named_ip in
                (pos 0, w, ground (arith, e, f, g, k, m, q))
          ]
    ]

tcp_build_server-Returns : (port : ℕ) (os : Os) (s : Machine) → Returns (tcp_build_server port os s)
unfolding tcp_build_server
tcp_build_server-Returns port os s = returned (tcp_build_server port os s) (λ x e. ground arith)

tcp_build_client-Returns :
    (host : Bytes) (port : ℕ) (os : Os) (s : Machine)
    → s.plugindata ≡ no_connections ∷ []
    → Returns (tcp_build_client host port os s)
unfolding tcp_build_client store_connection_information
tcp_build_client-Returns host port os s t =
    returned (tcp_build_client host port os s) (λ x e. ground (arith, t, e))

tcp_build-Returns :
    (os : Os) (s : Machine) → s.plugindata ≡ no_connections ∷ [] → Returns (tcp_build os s)
unfolding tcp_build
tcp_build-Returns os s p =
    let (a, t, e) = tun_open-Returns os s in
    let q = tun_open-plugindata os s t a e ∙ p in
    elim (Bool-cases (is_true a)) [
      | inl g ↦ (minus_one, t, ground (arith, e, g))
      | inr g ↦ elim (Bool-cases (int_eq t.globals.mode server_mode)) [
        | inl k ↦
            let (b, u, f) = tcp_build_server-Returns t.globals.local_port os t in
            (b, u, ground (arith, e, g, k, f))
        | inr k ↦ elim (Bool-cases (int_eq t.globals.mode client_mode)) [
          | inr m ↦ (minus_one, t, ground (arith, e, g, k, m))
          | inl m ↦
              let (b, u, f) =
                tcp_build_client-Returns (c_str t.globals.remote_host) t.globals.remote_port os t
                  q in
              (if is_true b then minus_one else pos 0, u, ground (arith, e, g, k, m, f))
        ]
      ]
    ]

main_round-Returns :
    (fd maxfd : ℤ) (l : Loop) (os : Os) (s : Machine) → Returns (main_round fd maxfd l os s)
unfolding main_round relay
main_round-Returns fd maxfd l os s = returned (main_round fd maxfd l os s) (λ x e. ground arith)

main_rounds-Returns :
    (n : ℕ) (fd maxfd : ℤ) (l : Loop) (os : Os) (s : Machine)
    → Returns (main_rounds n fd maxfd l os s)
unfolding main_rounds
main_rounds-Returns zero fd maxfd l os s = (l, s, refl)
main_rounds-Returns (suc n) fd maxfd l os s =
    let (m, t, e) = main_round-Returns fd maxfd l os s in
    let (l', u, f) = main_rounds-Returns n fd maxfd m os t in (l', u, rw (e, ◌>>=◌, f))

main_loop-Returns : (n : ℕ) (l : Loop) (os : Os) (s : Machine) → Returns (main_loop n l os s)
unfolding main_loop tun_get_file
main_loop-Returns n l os s = main_rounds-Returns n s.tfd _ l os s

-- The choice of the plugin returns; where it succeeds, `plugin_build` has a function to call.
plugin_check_config-Returns :
    (os : Os) (s : Machine)
    → (r : ℤ) × (t : Machine) × (plugin_check_config os s ≡ ok (r, t))
      × (t.plugindata ≡ s.plugindata)
      × (is_true r ≡ false
          → (o : Owner) × (t.active_plugin_build ≡ some o) × (t.active_plugin_start ≡ some o))
unfolding plugin_check_config
plugin_check_config-Returns os s = elim (Exec-cases (plugin_check_config os s)) [
  | inr (x, e) ↦ absurd (ground arith)
  | inl ((r, t), e) ↦ (
    r,
    t,
    e,
    ground arith,
    elim (Bool-cases (strncmp_eq s.globals.plugin_name (codes "tcp") 3)) [
      | inl f ↦ λ z. (tcp, ground arith, ground arith)
      | inr f ↦ elim (Bool-cases (strncmp_eq s.globals.plugin_name (codes "sip") 3)) [
        | inl g ↦ λ z. (sip, ground arith, ground arith)
        | inr g ↦ λ z. absurd (ground arith)
      ]
    ],
  )
]

call_build-Returns :
    (o : Owner) (os : Os) (s : Machine)
    → IsUnix os
    → s.plugindata ≡ no_connections ∷ []
    → Returns (call_build (some o) os s)
unfolding call_build
call_build-Returns tcp os s h p = tcp_build-Returns os s p
call_build-Returns sip os s h p = sip_build-Returns os s h

plugin_build-Returns :
    (o : Owner) (os : Os) (s : Machine)
    → IsUnix os
    → s.plugindata ≡ no_connections ∷ []
    → s.active_plugin_build ≡ some o
    → Returns (plugin_build os s)
unfolding plugin_build
plugin_build-Returns o os s h p c =
    let a = os s.trace pipe in
    let b = os (pipe ∷ s.trace) pipe in
    let t : Machine = record s {
      globals = record s.globals { pipe_from_plugin = a.ends; pipe_to_plugin = b.ends };
      trace = pipe ∷ pipe ∷ s.trace;
    } in
    let (r, u, e) = call_build-Returns o os t h p in
    returned (plugin_build os s) (λ x f. ground (arith, c, e, f))

run_plugin-ok :
    (n : ℕ) (l : Loop) (os : Os) (s : Machine)
    → IsUnix os
    → s.plugindata ≡ no_connections ∷ []
    → Returns (run_plugin n l os s)
unfolding run_plugin
run_plugin-ok n l os s h p =
    let (r, t, e, q, chosen) = plugin_check_config-Returns os s in
    elim (Bool-cases (is_true r)) [
      | inl f ↦ (left minus_one, t, ground (arith, e, f))
      | inr f ↦
          let (o, c, c') = chosen f in
          let (b, u, g) = plugin_build-Returns o os t h (q ∙ p) c in
          let kept = (plugin_build-pipes os t u b g).1 in
          elim (Bool-cases (is_true b)) [
            | inl k ↦ (left minus_one, u, ground (arith, e, f, g, k))
            | inr k ↦
                let start = plugin_start-threads o os u (kept ∙ c') in
                let (l', v, m) =
                  main_loop-Returns n l os
                    (record u { trace = pthread_create plugin_thread ∷ u.trace }) in
                (looping l', v, ground (arith, e, f, g, k, start, m))
          ]
    ]

-- Behind its configuration `main` never faults, however the system answers: it either leaves with -1
-- and has started no thread of the plugin, or it gets into `MainLoop`, has asked for both pipes on
-- the way and has started the thread once. The table of connections is as it was declared, the
-- system names an interface with fewer than 16 bytes, and the `errno` of a failed call is not 0.
pub run_plugin-Phased :
    (n : ℕ) (l : Loop) (os : Os) (s : Machine)
    → IsUnix os
    → s.plugindata ≡ no_connections ∷ []
    → (o : Outcome) × (s' : Machine) × (run_plugin n l os s ≡ ok (o, s')) × Phased s s' o
run_plugin-Phased n l os s h p =
    let (o, s', e) = run_plugin-ok n l os s h p in (o, s', e, run_plugin_lem n l os s s' o e)
