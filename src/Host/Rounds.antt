-- ===== src/Host/Rounds.antt =====
-- Many steps of a TCP host: each thread comes back to its `select`, and makes its rounds by itself.
use mathlib.Core.List.{append-nil, IsPrefix}
use mathlib.Core.Path.{subst}
use multivpn.Host.Main.{plan_of}
use multivpn.Host.Order.{IsPrefix-trans}
use multivpn.Host.Tcp.{tcp_plan_of}
use multivpn.Host.{Fds, Host, by_main, by_plugin, Step, main_call, plugin_call, Reach, later}
use multivpn.Os.{Os, Call, read, recv, write, send}
use multivpn.Prelude.Int.{ℤ}
use multivpn.Prelude.{ℕ, zero, suc, ◌≡◌, refl, sym, List, [], ◌∷◌, ◌++◌, Bytes}
use multivpn.TcpPlugin.Streams.{fetched, received}
use multivpn.TcpPlugin.{Loop}
use multivpn.Threads.Draining.{Since, Since-cons, Drives, still, round}
use multivpn.Threads.Rounds.{finish, finish-served, solo_round}
use multivpn.Threads.{Plan, Pc, at_select, at_source, at_sink}

-- Steps of the two threads, from one state to a later one.
pub data Steps (os : Os) (d : Fds) (s : Host) : Host → Type 0 where
  here : Steps os d s s
  then : (t : Host) {u : Host} → Steps os d s t → Step os d t u → Steps os d s u

module _ {os : Os} {d : Fds} where
  pub Steps-trans : {s t u : Host} → Steps os d s t → Steps os d t u → Steps os d s u
  Steps-trans a here = a
  Steps-trans a (then x b st) = then x (Steps-trans a b) st

  pub Reach-Steps :
      {h : List Call} {l m : Loop} {s t : Host}
      → Reach os d h l m s
      → Steps os d s t
      → Reach os d h l m t
  Reach-Steps r here = r
  Reach-Steps r (then x b st) = later (Reach-Steps r b) st

-- What a host has read only grows.
fetched-cons-IsPrefix :
    (os : Os) (fd : ℤ) (c : Call) (h : List Call)
    → IsPrefix (fetched os fd h) (fetched os fd (c ∷ h))
fetched-cons-IsPrefix os fd (read x n) h = (_, refl)
fetched-cons-IsPrefix os fd c h = ([], append-nil (fetched os fd h))

received-cons-IsPrefix :
    (os : Os) (fd : ℤ) (c : Call) (h : List Call)
    → IsPrefix (received os fd h) (received os fd (c ∷ h))
received-cons-IsPrefix os fd (recv x n) h = (_, refl)
received-cons-IsPrefix os fd c h = ([], append-nil (received os fd h))

pub Steps-Since :
    {os : Os} {d : Fds} {base : List Call} {s t : Host}
    → Since base s.calls
    → Steps os d s t
    → Since base t.calls
Steps-Since b here = b
Steps-Since b (then u a main_call) = Since-cons _ (Steps-Since b a)
Steps-Since b (then u a plugin_call) = Since-cons _ (Steps-Since b a)

Since-IsPrefix :
    (count : List Call → Bytes)
    → ((c : Call) (h : List Call) → IsPrefix (count h) (count (c ∷ h)))
    → (base new : List Call) → IsPrefix (count base) (count (new ++ base))
Since-IsPrefix count grows base [] = ([], append-nil (count base))
Since-IsPrefix count grows base (c ∷ new) =
    IsPrefix-trans _ _ _ (Since-IsPrefix count grows base new) (grows c (new ++ base))

pub Steps-IsPrefix :
    (os : Os) (d : Fds) (s t : Host)
    → Steps os d s t
    → IsPrefix (fetched os d.tun s.calls) (fetched os d.tun t.calls)
      × IsPrefix (received os d.sock s.calls) (received os d.sock t.calls)
Steps-IsPrefix os d s t a =
    let (new, e) = Steps-Since {base = s.calls} ([], refl) a in
    (
      subst (λ h. IsPrefix (fetched os d.tun s.calls) (fetched os d.tun h)) (sym e)
          (Since-IsPrefix (fetched os d.tun) (fetched-cons-IsPrefix os d.tun) s.calls new),
      subst (λ h. IsPrefix (received os d.sock s.calls) (received os d.sock h)) (sym e)
          (Since-IsPrefix (received os d.sock) (received-cons-IsPrefix os d.sock) s.calls new),
    )

-- A state, by where its threads stand.
abbrev pub at : Pc → Pc → List Call → Host
at p q h = record { main = p; plugin = q; calls = h }

module _ (os : Os) (d : Fds) where
  -- The calls that a thread makes up to its `select` are steps, the other standing still.
  main-Steps :
      (n : ℕ) (p q : Pc) (h : List Call)
      → let (p', h') = finish (plan_of d) os n p h in Steps os d (at p q h) (at p' q h')
  unfolding finish
  main-Steps zero p q h = here
  main-Steps (suc n) (at_select l) q h = here
  main-Steps (suc n) (at_source side l) q h =
      Steps-trans (then _ here main_call) (main-Steps n _ q _)
  main-Steps (suc n) (at_sink side bytes l) q h =
      Steps-trans (then _ here main_call) (main-Steps n _ q _)

  plugin-Steps :
      (n : ℕ) (p q : Pc) (h : List Call)
      → let (q', h') = finish (tcp_plan_of d) os n q h in Steps os d (at p q h) (at p q' h')
  unfolding finish
  plugin-Steps zero p q h = here
  plugin-Steps (suc n) p (at_select l) h = here
  plugin-Steps (suc n) p (at_source side l) h =
      Steps-trans (then _ here plugin_call) (plugin-Steps n p _ _)
  plugin-Steps (suc n) p (at_sink side bytes l) h =
      Steps-trans (then _ here plugin_call) (plugin-Steps n p _ _)

  -- Two calls are enough.
  finish-at_select :
      (p : Plan) (pc : Pc) (h : List Call)
      → (l : Loop) × (h' : List Call) × (finish p os 2 pc h ≡ (at_select l, h'))
  unfolding finish
  finish-at_select p (at_select l) h = (_, _, refl)
  finish-at_select p (at_source side l) h = (_, _, finish-served p os side l h)
  finish-at_select p (at_sink side bytes l) h = (_, _, refl)

  -- So each thread comes back to its `select` by itself.
  pub threads-at_select :
      (p q : Pc) (h : List Call)
      → (l : Loop) × (m : Loop) × (h' : List Call) × Steps os d
          (at p q h)
          (at (at_select l) (at_select m) h')
  threads-at_select p q h =
      let (l, h', e) = finish-at_select (plan_of d) p h in
      let (m, h'', f) = finish-at_select (tcp_plan_of d) q h' in
      (
        l,
        m,
        h'',
        Steps-trans (subst (λ x. Steps os d (at p q h) (at x.0 q x.1)) e (main-Steps 2 p q h)) (
            subst (λ x. Steps os d (at (at_select l) q h') (at (at_select l) x.0 x.1)) f
              (plugin-Steps 2 (at_select l) q h')),
      )

  -- Rounds that empty a pipe are steps of the thread.
  pub main-Drives-Steps :
      {l : Loop} {h : List Call} {l' : Loop} {t : List Call} (q : Pc)
      → Drives os (plan_of d) d.from_in 1504 (write d.tun) l h l' t
      → Steps os d (at (at_select l) q h) (at (at_select l') q t)
  unfolding solo_round
  main-Drives-Steps q still = here
  main-Drives-Steps q (round {l'} {l''} {t} a bytes set e) = Steps-trans (main-Drives-Steps q a) (
      Steps-trans (then (at (at_select l') q t) here main_call) (
        subst (λ x. Steps os d (by_main os d (at (at_select l') q t)) (at x.0 q x.1)) e
          (main-Steps 2 _ q _)))

  pub plugin-Drives-Steps :
      {l : Loop} {h : List Call} {l' : Loop} {t : List Call} (p : Pc)
      → Drives os (tcp_plan_of d) d.to_in 1503 (send d.sock) l h l' t
      → Steps os d (at p (at_select l) h) (at p (at_select l') t)
  unfolding solo_round
  plugin-Drives-Steps p still = here
  plugin-Drives-Steps p (round {l'} {l''} {t} a bytes set e) =
      Steps-trans (plugin-Drives-Steps p a) (
        Steps-trans (then (at p (at_select l') t) here plugin_call) (
          subst (λ x. Steps os d (by_plugin os d (at p (at_select l') t)) (at p x.0 x.1)) e
            (plugin-Steps 2 p _ _)))
