-- ===== src/Host/Delivery.antt =====
-- Two TCP hosts over one connection: what came in on the one side has all come out on the other.
use multivpn.Host.Fairness.{unsent, unwritten, take_turns-settles}
use multivpn.Host.Order.{IsReady}
use multivpn.Host.Turns.{Turn, take_turns, main_turns, plugin_turns}
use multivpn.Host.{Fds, Host, Reach}
use multivpn.Os.{Os, Call}
use multivpn.Prelude.{◌+◌, ◌*◌, ◌≤◌, ◌≡◌, ◌∙◌, List}
use multivpn.TcpPlugin.Streams.{fetched, received, written, sent}
use multivpn.TcpPlugin.{Loop}
use multivpn.Threads.Draining.{IsIdle}

-- A host that was ready and has come to `s`, from where nothing new comes in; its threads then have
-- two turns each, and after them five for each byte under way, and five more.
pub record IsResting (os : Os) (d : Fds) (h : List Call) (l m : Loop) (s : Host)
    (early late : List Turn) : Type 0 where
  pub ready : IsReady os d h l m
  pub idle_sock : IsIdle os s.calls d.sock d.to_in d.to_out
  pub idle_tun : IsIdle os s.calls d.tun d.from_in d.from_out
  pub reach : Reach os d h l m s
  pub two_main : 2 ≤ main_turns early
  pub two_plugin : 2 ≤ plugin_turns early
  pub enough_plugin : 5 * unsent os d (take_turns os d early s) + 5 ≤ plugin_turns late
  pub enough_main : 5 * unwritten os d (take_turns os d early s) + 5 ≤ main_turns late

-- Two hosts that were ready and whose interfaces and sockets have become quiet, in whatever order their
-- threads then take their turns: once each thread has had two, the plugin five for each byte from the
-- interface that is not yet sent and five more, and the main thread five for each byte from the socket
-- that is not yet written and five more, and where by then each host has received all that the other
-- has sent, all that was read from the one interface was written to the other, both ways, unchanged
-- and in order. While a host is quiet `select` does not fail and finds neither the interface nor the
-- socket ready; where bytes wait in a pipe that is below its first argument and in its set it finds the
-- pipe ready, and a read brings one.
pub tunnel-delivers :
    (os os' : Os) (d d' : Fds) (h h' : List Call) (l m l' m' : Loop) (s s' : Host)
    (early late early' late' : List Turn)
    → IsResting os d h l m s early late
    → IsResting os' d' h' l' m' s' early' late'
    → received os' d'.sock (take_turns os' d' late' (take_turns os' d' early' s')).calls
      ≡ sent d.sock (take_turns os d late (take_turns os d early s)).calls
    → received os d.sock (take_turns os d late (take_turns os d early s)).calls
      ≡ sent d'.sock (take_turns os' d' late' (take_turns os' d' early' s')).calls
    → let t = take_turns os d late (take_turns os d early s) in
      let t' = take_turns os' d' late' (take_turns os' d' early' s') in
      (written d'.tun t'.calls ≡ fetched os d.tun t.calls)
      × (written d.tun t.calls ≡ fetched os' d'.tun t'.calls)
tunnel-delivers os os' d d' h h' l m l' m' s s' early late early' late' k k' there back =
    let (sent_all, written_all, _, _) =
      take_turns-settles os d h l m s early late k.ready k.idle_sock k.idle_tun k.reach k.two_main
        k.two_plugin k.enough_plugin k.enough_main in
    let (sent_all', written_all', _, _) =
      take_turns-settles os' d' h' l' m' s' early' late' k'.ready k'.idle_sock k'.idle_tun k'.reach
        k'.two_main k'.two_plugin k'.enough_plugin k'.enough_main in
    (written_all' ∙ there ∙ sent_all, written_all ∙ back ∙ sent_all')
