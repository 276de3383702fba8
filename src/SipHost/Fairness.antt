-- ===== src/SipHost/Fairness.antt =====
-- A SIP host settles in whatever order its three threads take their turns, if each has enough of them.
use mathlib.Core.List.{append-nil, flatten}
use mathlib.Core.Path.{subst}
use multivpn.Base64.Encode.{rfc4648}
use multivpn.Base64.{Malloc}
use multivpn.Host.Fairness.{clear-held}
use multivpn.Host.Main.{held}
use multivpn.Host.Order.{IsPipe}
use multivpn.Host.{Fds}
use multivpn.Machine.{Machine}
use multivpn.Os.{Os, Call}
use multivpn.Prelude.Int.{ℤ}
use multivpn.Prelude.{
  ℕ, zero, suc, ◌+◌, ◌-◌, ◌*◌, ◌<◌, ◌≤◌, ◌≡◌, ◌∙◌, refl, sym, ap, List, [], ◌∷◌, ◌++◌, map, Bytes,
  All, length, ok, arith,
}
use multivpn.SipEvents.Stream.{fetched-frames}
use multivpn.SipHost.Effort.{rank, rank-le, waits}
use multivpn.SipHost.Ledgers.{IsReady, HostLedger, Reach-HostLedger}
use multivpn.SipHost.Receiving as Receiving
use multivpn.SipHost.Receiving.{arrived}
use multivpn.SipHost.Sending.{Holding}
use multivpn.SipHost.Leaving.{before_written}
use multivpn.SipHost.Turning.{IsCalm, behind_down, effort_down, rest_up, effort_up}
use multivpn.SipHost.Turns.{Turn, take_turns, main_turns, sender_turns, receiver_turns}
use multivpn.SipHost.{fds_of, SipHost, Reach}
use multivpn.SipPlugin.Frames.{IsFrame, headers}
use multivpn.SipThreads.{
  Sender, tun_select, tun_read, tun_request, tun_uac, tun_send, Receiver, rx_test, rx_handle,
  rx_end, rx_write, rx_respond,
}
use multivpn.SipPlugin.{tun_maxfd}
use multivpn.TcpPlugin.Nfds.{int_gt-int_suc}
use multivpn.TcpPlugin.Streams.{fetched, written}
use multivpn.TcpPlugin.{Loop}
use multivpn.Threads.Draining.{no_rest}
use multivpn.Threads.Progress.{before_clear, before_clear-le}
use multivpn.Threads.Progress as Progress
use multivpn.Threads.{second}
use multivpn.SipHost.Taking.{Taken, take_turns-Taken}

none_held : (pc : Sender) (fs : List Bytes) → rank pc ≤ 2 → Holding pc fs → fs ≡ []
none_held (tun_select l) fs h e = e
none_held (tun_read l) fs h e = e
none_held (tun_request x l) fs h e = absurd (omega (arith, h))
none_held (tun_uac x l) fs h e = absurd (omega (arith, h))
none_held (tun_send header l) fs h e = absurd (omega (arith, h))

before_written-le : (pc : Receiver) → before_written pc ≤ 1
before_written-le rx_test = omega arith
before_written-le rx_handle = omega arith
before_written-le rx_end = omega arith
before_written-le (rx_write frame n) = omega arith
before_written-le (rx_respond code text) = omega arith

none_to_write : (pc : Receiver) → before_written pc ≡ 0 → Receiving.held pc ≡ []
none_to_write rx_test e = refl
none_to_write rx_handle e = refl
none_to_write rx_end e = refl
none_to_write (rx_write frame n) e = absurd (omega (arith, e))
none_to_write (rx_respond code text) e = refl

-- A pipe in which no byte waits.
drained :
    (os : Os) (reading writing : ℤ) (h : List Call)
    → IsPipe os reading writing
    → length (written writing h) - length (fetched os reading h) ≡ 0
    → fetched os reading h ≡ written writing h
drained os reading writing h pipe e =
    let (rest, f) = pipe h in no_rest _ rest _ f (omega (arith, e))

empty_of : (xs : Bytes) → length xs ≡ 0 → xs ≡ []
empty_of [] e = refl
empty_of (x ∷ xs) e = absurd (omega (arith, e))

nothing_left : (r e : ℕ) → (0 < r → e ≤ 0) → (0 < r → 0 < e) → r ≡ 0
nothing_left zero e h less = refl
nothing_left (suc r) e h less = absurd (omega (arith, h (omega arith), less (omega arith)))

-- What a SIP host has carried once nothing is under way in it.
pub record IsSettled (os : Os) (m : Machine) (t : SipHost) : Type 0 where
  pub gone : List Bytes
  pub sent : headers t.machine.trace ≡ map rfc4648 gone
  pub framed : All IsFrame gone
  pub whole : flatten gone ≡ fetched os (fds_of m).tun t.machine.trace
  pub came :
      (fs : List Bytes)
      → All IsFrame fs
      → arrived t.events ≡ map rfc4648 fs
      → written (fds_of m).tun t.machine.trace ≡ flatten fs

module _ (os : Os) (m : Machine) (t : SipHost) (v : HostLedger os m t) (base : List Call)
    (calm : IsCalm os base (fds_of t.machine)) (main_clear : before_clear t.main ≡ 0)
    (receiver_clear : before_written t.receiver ≡ 0) (up : 0 < rest_up os t → effort_up os t ≤ 0)
    (down : 0 < behind_down os t → effort_down os t ≤ 0) where
  all_sent :
      let u = v.sender_ledger in
      (u.here ≡ []) × (flatten u.gone ≡ fetched os (fds_of t.machine).tun t.machine.trace)
  all_sent =
      let u = v.sender_ledger in
      let d : Fds = fds_of t.machine in
      let done = nothing_left _ _ up (λ some. omega (arith, some)) in
      let none_waits : waits os t.machine ≡ 0 = omega (arith, done) in
      let small : rank t.sender ≤ 2 = omega (arith, done) in
      let none = none_held t.sender u.here small u.holding in
      let taken : fetched os d.to_in t.machine.trace ≡ flatten u.gone =
        fetched-frames os d.to_in t.machine.trace
        ∙ ap flatten (u.took ∙ ap (λ fs. u.gone ++ fs) none ∙ append-nil u.gone) in
      let passed = drained os d.to_in d.to_out t.machine.trace calm.to_plugin none_waits in
      (
        none,
        sym taken
            ∙ passed
            ∙ sym (append-nil _)
            ∙ ap (λ b. written d.to_out t.machine.trace ++ b) (sym (clear-held t.main main_clear))
            ∙ sym v.main_ledger.up,
      )

  all_written :
      written (fds_of t.machine).tun t.machine.trace
      ≡ written (fds_of t.machine).from_out t.machine.trace
  all_written =
      let d : Fds = fds_of t.machine in
      let none_behind = nothing_left _ _ down (λ some. omega (arith, some)) in
      let passed =
        drained os d.from_in d.from_out t.machine.trace calm.from_plugin
          (omega (arith, none_behind)) in
      let none = empty_of (held second t.main) (omega (arith, none_behind)) in
      sym (append-nil _)
      ∙ ap (λ b. written d.tun t.machine.trace ++ b) (sym none)
      ∙ sym v.main_ledger.down
      ∙ passed

  settled : IsSettled os m t
  settled =
      let u = v.sender_ledger in
      let (none, all) = all_sent in
      record {
        gone = u.gone;
        sent = u.sent;
        framed = subst (All IsFrame) (ap (λ fs. u.gone ++ fs) none ∙ append-nil u.gone) u.framed;
        whole = all ∙ ap (λ (d : Fds). fetched os d.tun t.machine.trace) v.same_fds;
        came = λ fs framed e.
            let (w, usable) = v.receiver_ledger fs framed e in
            sym (ap (λ (d : Fds). written d.tun t.machine.trace) v.same_fds)
            ∙ all_written
            ∙ sym (append-nil _)
            ∙ ap (λ b. written (fds_of t.machine).from_out t.machine.trace ++ b)
                (sym (none_to_write t.receiver receiver_clear))
            ∙ w;
      }

-- From every state `s` that a ready SIP host reaches, in whatever order its three threads then take
-- their turns while PJSIP makes no callback: once the main thread has had two and the thread of the
-- SIP events one, which brings the host to `u`, and then the sending thread six for each byte that
-- waits in its pipe and five more, and the main thread five for each byte behind in the other pipe and
-- four more, no turn has faulted; the headers sent are the RFC 4648 texts of frames that together are
-- all that was read from the interface; and where the headers that have arrived are the texts of
-- frames, exactly those frames were written to the interface. From `s` on `select` does not fail and
-- does not find the interface ready; where bytes wait in a pipe that is below its first argument
-- and in its set it finds the pipe ready, and a read brings one.
pub sip_turns-settle :
    (malloc : Malloc) (junk : ℕ) (os : Os) (m : Machine) (l k : Loop) (s u : SipHost)
    (early late : List Turn)
    → IsReady malloc os m l k
    → Reach malloc junk (tun_maxfd m) os m l k s
    → IsCalm os s.machine.trace (fds_of m)
    → 2 ≤ main_turns early
    → 1 ≤ receiver_turns early
    → take_turns malloc (tun_maxfd m) os early s ≡ ok u
    → 6 * waits os u.machine + 5 ≤ sender_turns late
    → 5 * behind_down os u + 4 ≤ main_turns late
    → (t : SipHost) × (take_turns malloc (tun_maxfd m) os late u ≡ ok t) × IsSettled os m t
sip_turns-settle malloc junk os m l k s u early late ready r calm two one begun up down =
    let above = int_gt-int_suc (fds_of m).to_in in
    let base : List Call = s.machine.trace in
    let (u₁, e, r₁, a) =
      take_turns-Taken malloc junk (tun_maxfd m) os m l k ready base calm above early s r
        ([], refl) in
    let same : u₁ ≡ u = cc (e, begun) in
    let reach = subst (Reach malloc junk (tun_maxfd m) os m l k) same r₁ in
    let took = subst (Taken os base early s) same a in
    let main_done : before_clear u.main ≡ 0 =
      omega (arith, took.main_before, two, before_clear-le s.main) in
    let receiver_done : before_written u.receiver ≡ 0 =
      omega (arith, took.receiver_before, one, before_written-le s.receiver) in
    let (t, f, r₂, b) =
      take_turns-Taken malloc junk (tun_maxfd m) os m l k ready base calm above late u reach
        took.since in
    let v = Reach-HostLedger malloc junk (tun_maxfd m) os m l k ready r₂ in
    let here = subst (IsCalm os base) (sym v.same_fds) calm in
    (
      t,
      f,
      settled os m t v base here (omega (arith, b.main_before, main_done))
          (omega (arith, b.receiver_before, receiver_done))
          (b.up main_done 0 (λ some. omega (arith, up, rank-le u.sender)))
          (b.down receiver_done 0 (λ some. omega (arith, down, Progress.rank-le u.main))),
    )
