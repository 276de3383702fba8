-- ===== src/SipHost/Delivery.antt =====
-- Two SIP hosts: what came in on the one side has all come out on the other.
use mathlib.Core.Path.{subst}
use multivpn.Base64.{Malloc}
use multivpn.Machine.{Machine}
use multivpn.Os.{Os}
use multivpn.Prelude.{ℕ, ◌+◌, ◌*◌, ◌≤◌, ◌≡◌, ◌∙◌, List, ok}
use multivpn.SipHost.Effort.{waits}
use multivpn.SipHost.Fairness.{IsSettled, sip_turns-settle}
use multivpn.SipHost.Ledgers.{IsReady}
use multivpn.SipHost.Receiving.{arrived}
use multivpn.SipHost.Turning.{IsCalm, behind_down}
use multivpn.SipHost.Turns.{Turn, take_turns, main_turns, sender_turns, receiver_turns}
use multivpn.SipHost.{fds_of, SipHost, Reach}
use multivpn.SipPlugin.Frames.{headers}
use multivpn.SipPlugin.{tun_maxfd}
use multivpn.TcpPlugin.Streams.{fetched, written}
use multivpn.TcpPlugin.{Loop}

-- A host that was ready and has come to `s`, from where nothing new comes in; the first turns bring
-- it to `u`, and then turns enough to `t`.
pub record IsResting (malloc : Malloc) (junk : ℕ) (os : Os) (m : Machine) (l k : Loop)
    (s u t : SipHost) (early late : List Turn) : Type 0 where
  pub ready : IsReady malloc os m l k
  pub reach : Reach malloc junk (tun_maxfd m) os m l k s
  pub calm : IsCalm os s.machine.trace (fds_of m)
  pub two_main : 2 ≤ main_turns early
  pub one_receiver : 1 ≤ receiver_turns early
  pub to_u : take_turns malloc (tun_maxfd m) os early s ≡ ok u
  pub enough_sender : 6 * waits os u.machine + 5 ≤ sender_turns late
  pub enough_main : 5 * behind_down os u + 4 ≤ main_turns late
  pub to_t : take_turns malloc (tun_maxfd m) os late u ≡ ok t

resting-IsSettled :
    (malloc : Malloc) (junk : ℕ) (os : Os) (m : Machine) (l k : Loop) (s u t : SipHost)
    (early late : List Turn)
    → IsResting malloc junk os m l k s u t early late
    → IsSettled os m t
resting-IsSettled malloc junk os m l k s u t early late r =
    let (t₁, e, v) =
      sip_turns-settle malloc junk os m l k s u early late r.ready r.reach r.calm r.two_main
        r.one_receiver r.to_u r.enough_sender r.enough_main in
    let same : t₁ ≡ t = cc (e, r.to_t) in subst (IsSettled os m) same v

-- Two SIP hosts that were ready and whose interfaces have become quiet, in whatever order their threads
-- then take their turns while PJSIP makes no callback: once the main thread has had two and the thread
-- of the SIP events one, and then the sending thread six for each byte that waits in its pipe and five
-- more, and the main thread five for each byte behind in the other pipe and four more, and where the
-- headers that have arrived at each host are those that the other has sent, each once and in the order
-- sent, all that was read from the
-- one interface was written to the other, both ways, unchanged and in order. While a host is quiet
-- `select` does not fail and does not find the interface ready; where bytes wait in a pipe that
-- is below its first argument and in its set it finds the pipe ready, and a read brings one.
pub sip_hosts-deliver :
    (malloc malloc' : Malloc) (junk junk' : ℕ) (os os' : Os) (m m' : Machine) (l k l' k' : Loop)
    (s u t s' u' t' : SipHost) (early late early' late' : List Turn)
    → IsResting malloc junk os m l k s u t early late
    → IsResting malloc' junk' os' m' l' k' s' u' t' early' late'
    → arrived t'.events ≡ headers t.machine.trace
    → arrived t.events ≡ headers t'.machine.trace
    → (written (fds_of m').tun t'.machine.trace ≡ fetched os (fds_of m).tun t.machine.trace)
      × (written (fds_of m).tun t.machine.trace ≡ fetched os' (fds_of m').tun t'.machine.trace)
sip_hosts-deliver malloc malloc' junk junk' os os' m m' l k l' k' s u t s' u' t' early late early'
      late' r r' there back =
    let v = resting-IsSettled malloc junk os m l k s u t early late r in
    let v' = resting-IsSettled malloc' junk' os' m' l' k' s' u' t' early' late' r' in
    (
      v'.came v.gone v.framed (there ∙ v.sent) ∙ v.whole,
      v.came v'.gone v'.framed (back ∙ v'.sent) ∙ v'.whole,
    )
