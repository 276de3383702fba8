-- ===== src/Host/Effort.antt =====
-- The turns that a TCP host still takes for the bytes that are under way in it.
use mathlib.Core.List.{append-nil}
use multivpn.Host.Order.{IsReady}
use multivpn.Host.{Fds, Host, by_main, by_plugin}
use multivpn.Os.{Os, Call, recv, write, send}
use multivpn.Prelude.Int.{int_eq_ne}
use multivpn.Prelude.{
  ℕ, ◌+◌, ◌-◌, ◌<◌, ◌≤◌, ◌≡◌, refl, sym, ap, List, [], ◌∷◌, length, false, arith,
}
use multivpn.TcpPlugin.Nfds.{max_fd_second}
use multivpn.TcpPlugin.{Loop, max_fd}
use multivpn.Threads.Draining.{Since, Since-cons, IsIdle}
use multivpn.Threads.Progress.{
  before_clear, behind, effort, Nearer, next_pc-before_clear, next_pc-Nearer,
}
use multivpn.Host.MainTurn.{main_pc-before_clear, main_pc-Nearer, main-Skips}
use multivpn.Host.Turns.{
  Turn, main_turn, plugin_turn, by_turn, take_turns, main_turns, plugin_turns, plugin-Skips,
}

-- Bytes that are behind in the pipe to the plugin, and in the one from it.
abbrev pub behind_up : Os → Fds → Host → ℕ
behind_up os d s = behind os d.to_in d.to_out s.plugin s.calls

abbrev pub behind_down : Os → Fds → Host → ℕ
behind_down os d s = behind os d.from_in d.from_out s.main s.calls

abbrev pub effort_up : Os → Fds → Host → ℕ
effort_up os d s = effort os d.to_in d.to_out s.plugin s.calls

abbrev pub effort_down : Os → Fds → Host → ℕ
effort_down os d s = effort os d.from_in d.from_out s.main s.calls

-- Nothing new is under way.
pub record IsClear (base : List Call) (s : Host) : Type 0 where
  pub since : Since base s.calls
  pub main_clear : before_clear s.main ≡ 0
  pub plugin_clear : before_clear s.plugin ≡ 0

module _ (os : Os) (d : Fds) {h₀ : List Call} {l₀ m₀ : Loop} (k : IsReady os d h₀ l₀ m₀)
    (base : List Call) (idle_sock : IsIdle os base d.sock d.to_in d.to_out)
    (idle_tun : IsIdle os base d.tun d.from_in d.from_out) where
  main-before_clear :
      (s : Host) → Since base s.calls → before_clear (by_main os d s).main ≤ before_clear s.main - 1
  main-before_clear s b = main_pc-before_clear os d base idle_tun s.main s.calls b

  plugin-before_clear :
      (s : Host)
      → Since base s.calls
      → before_clear (by_plugin os d s).plugin ≤ before_clear s.plugin - 1
  plugin-before_clear s b =
      next_pc-before_clear (max_fd d.sock d.to_in) d.sock
        (record { source = recv d.sock 1504; sink = write d.from_out }) false d.to_in 1503
        (send d.sock) os base d.to_out idle_sock s.plugin s.calls b

  pub take_turns-before_clear :
      (order : List Turn) (s : Host)
      → Since base s.calls
      → (before_clear (take_turns os d order s).main ≤ before_clear s.main - main_turns order)
        × (before_clear (take_turns os d order s).plugin
            ≤ before_clear s.plugin - plugin_turns order)
  take_turns-before_clear [] s b = (omega arith, omega arith)
  take_turns-before_clear (main_turn ∷ order) s b =
      let (m, p) = take_turns-before_clear order (by_main os d s) (Since-cons _ b) in
      let less = main-before_clear s b in (omega (arith, m, less), p)
  take_turns-before_clear (plugin_turn ∷ order) s b =
      let (m, p) = take_turns-before_clear order (by_plugin os d s) (Since-cons _ b) in
      let less = plugin-before_clear s b in (m, omega (arith, p, less))

  by_turn-IsClear : (x : Turn) (s : Host) → IsClear base s → IsClear base (by_turn os d x s)
  by_turn-IsClear main_turn s c = record {
    since = Since-cons _ c.since;
    main_clear = let less = main-before_clear s c.since in omega (arith, less, c.main_clear);
    plugin_clear = c.plugin_clear;
  }
  by_turn-IsClear plugin_turn s c = record {
    since = Since-cons _ c.since;
    main_clear = c.main_clear;
    plugin_clear = let less = plugin-before_clear s c.since in omega (arith, less, c.plugin_clear);
  }

  plugin-Nearer :
      (s : Host)
      → Since base s.calls
      → let t = by_plugin os d s in Nearer os d.to_in d.to_out s.plugin s.calls t.plugin t.calls
  plugin-Nearer s b =
      next_pc-Nearer (max_fd d.sock d.to_in) d.sock
        (record { source = recv d.sock 1504; sink = write d.from_out }) false d.to_in 1503
        (send d.sock) os base d.to_out idle_sock (max_fd_second d.sock d.to_in) k.posix k.to_plugin
        (record { fetched_same = λ h. refl; written_same = λ h. refl })
        (λ bytes. record {
          fetched_same = λ h. refl;
          written_same = λ h.
              rw (int_eq_ne d.from_out d.to_out (λ e. k.apart.to_from_out (sym e)), append-nil)
                refl;
        })
        (λ bytes. record { fetched_same = λ h. refl; written_same = λ h. refl }) s.plugin s.calls b

  main-Nearer :
      (s : Host)
      → Since base s.calls
      → let t = by_main os d s in Nearer os d.from_in d.from_out s.main s.calls t.main t.calls
  main-Nearer s b = main_pc-Nearer os d base idle_tun s.main s.calls k.apart k.posix k.from_plugin b

  -- Each turn of the plugin is one less to go on the way up, and each turn of the main thread one
  -- less on the way down; the other's turns change nothing.
  by_turn-effort :
      (x : Turn) (s : Host) (i j : ℕ)
      → IsClear base s
      → (0 < behind_up os d s → effort_up os d s ≤ i + plugin_turns (x ∷ []))
      → (0 < behind_down os d s → effort_down os d s ≤ j + main_turns (x ∷ []))
      → let t = by_turn os d x s in
        (0 < behind_up os d t → effort_up os d t ≤ i)
        × (0 < behind_down os d t → effort_down os d t ≤ j)
  by_turn-effort main_turn s i j c up down =
      let n = main-Nearer s c.since in
      let skips = main-Skips os d s.main k.apart c.main_clear in
      let f = ap {B = ℕ} length (skips.fetched_same s.calls) in
      let w = ap {B = ℕ} length (skips.written_same s.calls) in
      (
        λ some. let u = up (omega (arith, f, w, some)) in omega (arith, f, w, u),
        λ some.
            let before : 0 < behind_down os d s = omega (arith, n.fewer, some) in
            omega (arith, n.sooner before, down before),
      )
  by_turn-effort plugin_turn s i j c up down =
      let n = plugin-Nearer s c.since in
      let skips = plugin-Skips os d s.plugin k.apart c.plugin_clear in
      let f = ap {B = ℕ} length (skips.fetched_same s.calls) in
      let w = ap {B = ℕ} length (skips.written_same s.calls) in
      (
        λ some.
            let before : 0 < behind_up os d s = omega (arith, n.fewer, some) in
            omega (arith, n.sooner before, up before),
        λ some. let u = down (omega (arith, f, w, some)) in omega (arith, f, w, u),
      )

  pub take_turns-effort :
      (order : List Turn) (s : Host) (i j : ℕ)
      → IsClear base s
      → (0 < behind_up os d s → effort_up os d s ≤ i + plugin_turns order)
      → (0 < behind_down os d s → effort_down os d s ≤ j + main_turns order)
      → let t = take_turns os d order s in
        (0 < behind_up os d t → effort_up os d t ≤ i)
        × (0 < behind_down os d t → effort_down os d t ≤ j)
        × IsClear base t
  take_turns-effort [] s i j c up down =
      (λ some. omega (arith, up some), λ some. omega (arith, down some), c)
  take_turns-effort (main_turn ∷ order) s i j c up down =
      let (up', down') =
        by_turn-effort main_turn s (i + plugin_turns order) (j + main_turns order) c
          (λ some. omega (arith, up some)) (λ some. omega (arith, down some)) in
      take_turns-effort order (by_main os d s) i j (by_turn-IsClear main_turn s c) up' down'
  take_turns-effort (plugin_turn ∷ order) s i j c up down =
      let (up', down') =
        by_turn-effort plugin_turn s (i + plugin_turns order) (j + main_turns order) c
          (λ some. omega (arith, up some)) (λ some. omega (arith, down some)) in
      take_turns-effort order (by_plugin os d s) i j (by_turn-IsClear plugin_turn s c) up' down'
