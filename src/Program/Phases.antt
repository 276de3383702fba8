-- ===== src/Program/Phases.antt =====
-- When main.c starts the plugin's thread.
use multivpn.CString.{strncmp_eq}
use multivpn.Machine.{Machine, Owner, tcp, sip}
use multivpn.Os.{Os, pipe, pthread_create, plugin_thread}
use multivpn.Plugin.{plugin_check_config, plugin_build, plugin_start, call_build}
use mathlib.Core.Path.{subst}
use multivpn.Prelude.Int.{ℤ, pos, minus_one, is_true}
use multivpn.Prelude.{
  ℕ, ◌+◌, ◌≡◌, ◌∙◌, false, ◌∷◌, ok, arith, inl, inr, Bool-cases, Exec-cases, some, codes,
}
use multivpn.Program.{Outcome, left, looping, main_loop, run_plugin}
use multivpn.TcpPlugin.{Loop}
use multivpn.Program.Building.{call_build-Keeps}
use multivpn.Program.Keeps.{threads, pipes, main_loop-Keeps}

-- The choice of the plugin makes no call, and where it succeeds the thread's function is set.
plugin_check_config-start :
    (os : Os) (s s' : Machine) (r : ℤ)
    → plugin_check_config os s ≡ ok (r, s')
    → (s'.trace ≡ s.trace) × (is_true r ≡ false → (o : Owner) × (s'.active_plugin_start ≡ some o))
unfolding plugin_check_config
plugin_check_config-start os s s' r e =
    elim (Bool-cases (strncmp_eq s.globals.plugin_name (codes "tcp") 3)) [
      | inl t ↦ (ground arith, λ z. (tcp, ground arith))
      | inr t ↦ elim (Bool-cases (strncmp_eq s.globals.plugin_name (codes "sip") 3)) [
        | inl p ↦ (ground arith, λ z. (sip, ground arith))
        | inr p ↦ (ground arith, λ z. absurd (ground arith))
      ]
    ]

-- The pipes that `plugin_build` asks for: one where the first fails, else both; it succeeds only
-- with both.
pub plugin_build-pipes :
    (os : Os) (s s' : Machine) (r : ℤ)
    → plugin_build os s ≡ ok (r, s')
    → (threads s'.trace ≡ threads s.trace)
      × (s'.active_plugin_start ≡ s.active_plugin_start)
      × (is_true r ≡ false → pipes s'.trace ≡ pipes s.trace + 2)
unfolding plugin_build
plugin_build-pipes os s s' r e =
    let a = os s.trace pipe in
    let b = os (pipe ∷ s.trace) pipe in
    let t : Machine = record s {
      globals = record s.globals { pipe_from_plugin = a.ends; pipe_to_plugin = b.ends };
      trace = pipe ∷ pipe ∷ s.trace;
    } in
    elim (Bool-cases (is_true a.ret)) [
      | inl f ↦ (ground arith, ground arith, λ z. absurd (ground arith))
      | inr f ↦ elim (Bool-cases (is_true b.ret)) [
        | inl g ↦ (ground arith, ground arith, λ z. absurd (ground arith))
        | inr g ↦ elim (Exec-cases (call_build s.active_plugin_build os t)) [
          | inr (x, h) ↦ absurd (ground arith)
          | inl ((q, u), h) ↦
              let k = call_build-Keeps s.active_plugin_build os t u q h in
              (
                ground (arith, k.same_threads),
                ground (arith, k.same_start),
                λ z. ground (arith, k.same_pipes),
              )
        ]
      ]
    ]

-- What has become of the setting up: the program has left with -1 and has started no thread, or it is
-- in its loop, with both pipes and one thread made on the way.
pub data Phased (s s' : Machine) : Outcome → Type 0 where
  refused : threads s'.trace ≡ threads s.trace → Phased s s' (left minus_one)
  started :
      {l : Loop}
      → threads s'.trace ≡ threads s.trace + 1
      → pipes s'.trace ≡ pipes s.trace + 2
      → Phased s s' (looping l)

pub plugin_start-threads :
    (o : Owner) (os : Os) (s : Machine)
    → s.active_plugin_start ≡ some o
    → plugin_start os s ≡ ok (pos 0, record s { trace = pthread_create plugin_thread ∷ s.trace })
unfolding plugin_start
plugin_start-threads o os s e = ground arith

pub run_plugin_lem :
    (n : ℕ) (l : Loop) (os : Os) (s s' : Machine) (o : Outcome)
    → run_plugin n l os s ≡ ok (o, s')
    → Phased s s' o
unfolding run_plugin
run_plugin_lem n l os s s' o e = elim (Exec-cases (plugin_check_config os s)) [
  | inr (x, f) ↦ absurd (ground (arith, f, e))
  | inl ((c, t), f) ↦
      let (quiet, chosen) = plugin_check_config-start os s t c f in
      elim (Bool-cases (is_true c)) [
        | inl g ↦
            subst (Phased s s') (ground (arith, f, g, e)) (refused (ground (arith, f, g, e, quiet)))
        | inr g ↦ elim (Exec-cases (plugin_build os t)) [
          | inr (x, h) ↦ absurd (ground (arith, f, g, h, e))
          | inl ((b, u), h) ↦
              let (same, kept, both) = plugin_build-pipes os t u b h in
              elim (Bool-cases (is_true b)) [
                | inl k ↦
                    subst (Phased s s') (ground (arith, f, g, h, k, e))
                      (refused (ground (arith, f, g, h, k, e, quiet, same)))
                | inr k ↦
                    let (w, set) = chosen g in
                    let v : Machine = record u { trace = pthread_create plugin_thread ∷ u.trace } in
                    let start = plugin_start-threads w os u (kept ∙ set) in
                    elim (Exec-cases (main_loop n l os v)) [
                      | inr (x, m) ↦ absurd (ground (arith, f, g, h, k, start, m, e))
                      | inl ((l', y), m) ↦
                          let z = main_loop-Keeps n l l' os v y m in
                          subst (Phased s s') (ground (arith, f, g, h, k, start, m, e)) (
                            started {l = l'}
                              (ground (arith, f, g, h, k, start, m, e, quiet, same, z.same_threads))
                              (ground
                                (arith, f, g, h, k, start, m, e, quiet, both k, z.same_pipes)))
                    ]
              ]
        ]
      ]
]
