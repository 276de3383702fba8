-- ===== src/Host/Settling.antt =====
-- Whatever the threads of a TCP host have done, what was read on either side can still leave it.
use mathlib.Core.List.{append-nil, IsPrefix}
use multivpn.Host.Order.{IsReady, Reach-settled}
use multivpn.Host.Rounds.{
  Steps, Steps-trans, Reach-Steps, Steps-Since, Steps-IsPrefix, threads-at_select,
  main-Drives-Steps, plugin-Drives-Steps, at,
}
use multivpn.Host.{Apart, Fds, Host, Reach}
use multivpn.Os.{Os, Call, FdSet, read, recv, write, send, select}
use multivpn.Prelude.Int.{int_eq_ne}
use multivpn.Prelude.{◌≡◌, ◌∙◌, refl, sym, List, [], ◌∷◌, Bytes, length, true, false, arith}
use multivpn.TcpPlugin.Streams.{fetched, received, written, sent}
use multivpn.TcpPlugin.Nfds.{max_fd_second}
use multivpn.TcpPlugin.{Loop, max_fd}
use multivpn.Threads.Draining.{IsIdle, Since, Drives-same, Drives-Since, drains}
use multivpn.Threads.{Pc, at_select}

-- The main thread's rounds leave the pipe to the plugin alone.
main_keeps_fetched :
    (os : Os) (d : Fds)
    → Apart d
    → (bytes : Bytes) (set : FdSet) (h : List Call)
    → fetched os d.to_in
        (write d.tun bytes ∷ read d.from_in 1505 ∷ select (max_fd d.tun d.from_in) set ∷ h)
      ≡ fetched os d.to_in h
main_keeps_fetched os d apart bytes set h =
    rw (int_eq_ne d.from_in d.to_in (λ e. apart.from_to e), append-nil) refl

main_keeps_written :
    (d : Fds)
    → Apart d
    → (bytes : Bytes) (set : FdSet) (h : List Call)
    → written d.to_out
        (write d.tun bytes ∷ read d.from_in 1505 ∷ select (max_fd d.tun d.from_in) set ∷ h)
      ≡ written d.to_out h
main_keeps_written d apart bytes set h =
    rw (int_eq_ne d.tun d.to_out apart.tun_to_out, append-nil) refl

module _ (os : Os) (d : Fds) {h₀ : List Call} {l₀ m₀ : Loop} (k : IsReady os d h₀ l₀ m₀)
    (base : List Call) where
  -- The plugin empties its pipe while the main thread stands still.
  plugin-empties :
      (p : Pc) (m : Loop) (h : List Call)
      → Since base h
      → IsIdle os base d.sock d.to_in d.to_out
      → (m' : Loop) × (t : List Call) × Since base t
        × Steps os d (at p (at_select m) h) (at p (at_select m') t)
        × (fetched os d.to_in t ≡ written d.to_out t)
  plugin-empties p m h b idle =
      let (m', t, a, done) =
        drains (max_fd d.sock d.to_in) d.sock
          (record { source = recv d.sock 1504; sink = write d.from_out }) false d.to_in 1503
          (send d.sock) os base d.to_out idle (max_fd_second d.sock d.to_in) k.posix k.to_plugin
          (λ bytes h. refl) (λ bytes h. refl) (length (written d.to_out h)) m h b (omega arith) in
      (m', t, Drives-Since os _ d.to_in 1503 (send d.sock) b a, plugin-Drives-Steps os d p a, done)

  -- The main thread empties its pipe while the plugin stands still, and the other stays empty.
  main-empties :
      (q : Pc) (l : Loop) (h : List Call)
      → Since base h
      → IsIdle os base d.tun d.from_in d.from_out
      → fetched os d.to_in h ≡ written d.to_out h
      → (l' : Loop) × (t : List Call) × Steps os d (at (at_select l) q h) (at (at_select l') q t)
        × (fetched os d.to_in t ≡ written d.to_out t)
        × (fetched os d.from_in t ≡ written d.from_out t)
  main-empties q l h b idle e =
      let (l', t, a, done) =
        drains (max_fd d.tun d.from_in) d.tun
          (record { source = read d.tun 1504; sink = write d.to_out }) true d.from_in 1504
          (write d.tun) os base d.from_out idle (max_fd_second d.tun d.from_in) k.posix
          k.from_plugin (λ bytes h. refl)
          (λ bytes h. rw (int_eq_ne d.tun d.from_out k.apart.tun_from_out, append-nil) refl)
          (length (written d.from_out h)) l h b (omega arith) in
      (
        l',
        t,
        main-Drives-Steps os d q a,
        Drives-same os _ d.from_in 1504 (write d.tun) (fetched os d.to_in)
              (main_keeps_fetched os d k.apart) a
            ∙ e
            ∙ sym (
                Drives-same os _ d.from_in 1504 (write d.tun) (written d.to_out)
                  (main_keeps_written d k.apart) a),
        done,
      )

-- From every state that a ready host reaches, whatever the order of the calls so far, its two
-- threads have steps to a state in which all that was read from the interface was sent on the
-- socket, and all that was received from the socket was written to the interface, what had come in
-- so far and possibly more. From that state on `select` does not fail and finds neither the
-- interface nor the socket ready; where bytes wait in a pipe it finds the pipe ready, and a read
-- brings one.
pub Reach-settles :
    (os : Os) (d : Fds) (h : List Call) (l m : Loop) (s : Host)
    → IsReady os d h l m
    → IsIdle os s.calls d.sock d.to_in d.to_out
    → IsIdle os s.calls d.tun d.from_in d.from_out
    → Reach os d h l m s
    → (t : Host) × Steps os d s t
      × (sent d.sock t.calls ≡ fetched os d.tun t.calls)
      × (written d.tun t.calls ≡ received os d.sock t.calls)
      × IsPrefix (fetched os d.tun s.calls) (fetched os d.tun t.calls)
      × IsPrefix (received os d.sock s.calls) (received os d.sock t.calls)
Reach-settles os d h l m s k idle_sock idle_tun r =
    let (l₁, m₁, t₁, a) = threads-at_select os d s.main s.plugin s.calls in
    let b₁ = Steps-Since {base = s.calls} ([], refl) a in
    let (m₂, t₂, b₂, b, to) = plugin-empties os d k s.calls (at_select l₁) m₁ t₁ b₁ idle_sock in
    let (l₃, t₃, c, to', from) = main-empties os d k s.calls (at_select m₂) l₁ t₂ b₂ idle_tun to in
    let steps = Steps-trans (Steps-trans a b) c in
    let (up, down) = Reach-settled os d h l m l₃ m₂ t₃ k (Reach-Steps r steps) to' from in
    let (grown, grown') = Steps-IsPrefix os d s _ steps in
    (at (at_select l₃) (at_select m₂) t₃, steps, up, down, grown, grown')
