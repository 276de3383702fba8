-- ===== src/Program/Silent.antt =====
-- What main.c does in front of its loop carries no byte, and leaves the decoding table.
use multivpn.CString.{c_str, strncmp_eq}
use multivpn.Machine.{Machine}
use multivpn.Os.{Os, pipe}
use multivpn.Plugin.{plugin_check_config, plugin_build, plugin_start, call_build}
use multivpn.Prelude.Int.{ℤ, is_true}
use multivpn.Prelude.{◌≡◌, List, ◌∷◌, ok, arith, codes, inl, inr, Bool-cases, Exec-cases}
use multivpn.Parser.{parse_config_file}
use multivpn.Program.Building.{call_build-Keeps}
use multivpn.Program.Keeps.{Silent, Silent-trans, same-Silent}
use multivpn.Program.Startup.{Started-cases}
use multivpn.Program.{
  Files, Opt, Outcome, main_loop, main_rounds, run_plugin, configured, command_line, program,
}
use multivpn.TcpPlugin.{Loop}
use multivpn.TunTap.{tun_get_file}

plugin_check_config-Silent :
    (os : Os) (s s' : Machine) (r : ℤ) → plugin_check_config os s ≡ ok (r, s') → Silent s s'
unfolding plugin_check_config
plugin_check_config-Silent os s s' r e =
    elim (Bool-cases (strncmp_eq s.globals.plugin_name (codes "tcp") 3)) [
      | inl t ↦ record { same_transfers = ground arith; same_table = ground arith }
      | inr t ↦ elim (Bool-cases (strncmp_eq s.globals.plugin_name (codes "sip") 3)) [
        | inl p ↦ record { same_transfers = ground arith; same_table = ground arith }
        | inr p ↦ record { same_transfers = ground arith; same_table = ground arith }
      ]
    ]

plugin_build-Silent :
    (os : Os) (s s' : Machine) (r : ℤ) → plugin_build os s ≡ ok (r, s') → Silent s s'
unfolding plugin_build
plugin_build-Silent os s s' r e =
    let a = os s.trace pipe in
    let b = os (pipe ∷ s.trace) pipe in
    let t : Machine = record s {
      globals = record s.globals { pipe_from_plugin = a.ends; pipe_to_plugin = b.ends };
      trace = pipe ∷ pipe ∷ s.trace;
    } in
    elim (Bool-cases (is_true a.ret)) [
      | inl f ↦ record { same_transfers = ground arith; same_table = ground arith }
      | inr f ↦ elim (Bool-cases (is_true b.ret)) [
        | inl g ↦ record { same_transfers = ground arith; same_table = ground arith }
        | inr g ↦ elim (Exec-cases (call_build s.active_plugin_build os t)) [
          | inr (x, h) ↦ absurd (ground arith)
          | inl ((q, u), h) ↦
              let k = (call_build-Keeps s.active_plugin_build os t u q h).silent in
              record {
                same_transfers = ground (arith, k.same_transfers);
                same_table = ground (arith, k.same_table);
              }
        ]
      ]
    ]

plugin_start-Silent :
    (os : Os) (s s' : Machine) (r : ℤ) → plugin_start os s ≡ ok (r, s') → Silent s s'
unfolding plugin_start
plugin_start-Silent os s s' r e = record {
  same_transfers = ground arith;
  same_table = ground arith;
}

-- The loop before its first round.
main_loop-Silent :
    (l l' : Loop) (os : Os) (s s' : Machine) → main_loop 0 l os s ≡ ok (l', s') → Silent s s'
unfolding main_loop main_rounds tun_get_file
main_loop-Silent l l' os s s' e = record {
  same_transfers = ground arith;
  same_table = ground arith;
}

run_plugin-Silent :
    (l : Loop) (os : Os) (s s' : Machine) (o : Outcome)
    → run_plugin 0 l os s ≡ ok (o, s')
    → Silent s s'
unfolding run_plugin
run_plugin-Silent l os s s' o e = elim (Exec-cases (plugin_check_config os s)) [
  | inr (x, f) ↦ absurd (ground (arith, f, e))
  | inl ((c, t), f) ↦
      Silent-trans (plugin_check_config-Silent os s t c f) (elim (Bool-cases (is_true c)) [
        | inl g ↦ same-Silent t s' (ground (arith, f, g, e))
        | inr g ↦ elim (Exec-cases (plugin_build os t)) [
          | inr (x, h) ↦ absurd (ground (arith, f, g, h, e))
          | inl ((b, u), h) ↦
              Silent-trans (plugin_build-Silent os t u b h) (elim (Bool-cases (is_true b)) [
                | inl k ↦ same-Silent u s' (ground (arith, f, g, h, k, e))
                | inr k ↦ elim (Exec-cases (plugin_start os u)) [
                  | inr (x, m) ↦ absurd (ground (arith, f, g, h, k, m, e))
                  | inl ((a, v), m) ↦
                      Silent-trans (plugin_start-Silent os u v a m)
                        (elim (Exec-cases (main_loop 0 l os v)) [
                          | inr (x, n) ↦ absurd (ground (arith, f, g, h, k, m, n, e))
                          | inl ((l', y), n) ↦
                              Silent-trans (main_loop-Silent l l' os v y n)
                                (same-Silent y s' (ground (arith, f, g, h, k, m, n, e)))
                        ])
                ]
              ])
        ]
      ])
]

-- From the command line to the loop, before its first round.
pub program-Silent :
    (files : Files) (opts : List Opt) (l : Loop) (os : Os) (s s' : Machine) (o : Outcome)
    → program files opts 0 l os s ≡ ok (o, s')
    → Silent s s'
unfolding program
program-Silent files opts l os s s' o e = elim (Started-cases (command_line opts s.globals)) [
  | inl (status, f) ↦ same-Silent s s' (ground (arith, f, e))
  | inr (g, f) ↦
      elim (Exec-cases (configured (parse_config_file (files (c_str g.configfile)) g) g)) [
        | inr (x, h) ↦ absurd (ground (arith, f, h, e))
        | inl (g', h) ↦
            let v =
              run_plugin-Silent l os (record s { globals = g' }) s' o (ground (arith, f, h, e)) in
            record { same_transfers = v.same_transfers; same_table = v.same_table }
      ]
]
