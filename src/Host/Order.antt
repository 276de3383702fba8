-- ===== src/Host/Order.antt =====
-- In every reachable state of a TCP host, what has left it is the beginning of what came in.
use mathlib.Core.List.{append-nil, append_assoc}
use mathlib.Core.List.{IsPrefix}
use multivpn.Globals.{block_size}
use multivpn.Host.Main.{MainLedger, next_pc-MainLedger}
use multivpn.Host.Tcp.{TcpLedger, next_pc-TcpLedger, call_of-TcpLedger, call_of-MainLedger}
use multivpn.Host.{Fds, Apart, Host, Step, main_call, plugin_call, Reach, start, later}
use multivpn.Os.{Os, Call}
use multivpn.Prelude.Int.{ℤ}
use multivpn.Prelude.{◌≡◌, ◌∙◌, sym, ap, List, [], ◌++◌, Bytes, length}
use multivpn.TcpPlugin.Relay.{IsPosix}
use multivpn.TcpPlugin.Streams.{fetched, received, written, sent}
use multivpn.TcpPlugin.{Loop}
use multivpn.Threads.{at_select}

-- A pipe: what was read from its one end is the beginning of what was written to the other.
abbrev pub IsPipe : Os → ℤ → ℤ → Type 0
IsPipe os reading writing = (h : List Call) → IsPrefix (fetched os reading h) (written writing h)

-- Nothing was carried before the threads begin.
pub record IsFresh (os : Os) (d : Fds) (h : List Call) : Type 0 where
  pub fetched_tun : fetched os d.tun h ≡ []
  pub fetched_from : fetched os d.from_in h ≡ []
  pub fetched_to : fetched os d.to_in h ≡ []
  pub received_sock : received os d.sock h ≡ []
  pub written_tun : written d.tun h ≡ []
  pub written_from : written d.from_out h ≡ []
  pub written_to : written d.to_out h ≡ []
  pub sent_sock : sent d.sock h ≡ []

pub record HostLedger (os : Os) (d : Fds) (s : Host) : Type 0 where
  pub main_ledger : MainLedger os d s.main s.calls
  pub tcp_ledger : TcpLedger os d s.plugin s.calls

module _ {os : Os} {d : Fds} (apart : Apart d) (posix : IsPosix os) where
  Step-HostLedger : {s t : Host} → Step os d s t → HostLedger os d s → HostLedger os d t
  Step-HostLedger {s} main_call v = record {
    main_ledger = next_pc-MainLedger os d apart posix s.main s.calls v.main_ledger;
    tcp_ledger = call_of-TcpLedger os d apart s.main s.plugin s.calls v.tcp_ledger;
  }
  Step-HostLedger {s} plugin_call v = record {
    main_ledger = call_of-MainLedger os d apart s.plugin s.main s.calls v.main_ledger;
    tcp_ledger = next_pc-TcpLedger os d posix s.plugin s.calls v.tcp_ledger;
  }

  pub Reach-HostLedger :
      {h : List Call} {l m : Loop} {s : Host}
      → IsFresh os d h
      → length l.buffer ≡ block_size
      → length m.buffer ≡ block_size
      → Reach os d h l m s
      → HostLedger os d s
  Reach-HostLedger f b c start = record {
    main_ledger = record {
      up = rw (f.fetched_tun, f.written_to);
      down = rw (f.fetched_from, f.written_tun);
      sized = b;
    };
    tcp_ledger = record {
      up = rw (f.fetched_to, f.sent_sock);
      down = rw (f.received_sock, f.written_from);
      sized = c;
    };
  }
  Reach-HostLedger f b c (later r st) = Step-HostLedger st (Reach-HostLedger f b c r)

-- Through two holders and a pipe the order is kept.
pub chain :
    (came entered left went a b : Bytes)
    → came ≡ entered ++ a
    → IsPrefix left entered
    → left ≡ went ++ b
    → IsPrefix went came
chain came entered left went a b e (rest, p) f =
    (b ++ (rest ++ a), rw (e, ← p, f) (simp append_assoc))

-- A host as the threads find it: its descriptors are different ones, its pipes hand on what is
-- written to them, reads are answered as POSIX has it, nothing was carried before, and the buffers
-- have their size.
pub record IsReady (os : Os) (d : Fds) (h : List Call) (l m : Loop) : Type 0 where
  pub apart : Apart d
  pub posix : IsPosix os
  pub to_plugin : IsPipe os d.to_in d.to_out
  pub from_plugin : IsPipe os d.from_in d.from_out
  pub fresh : IsFresh os d h
  pub main_buffer : length l.buffer ≡ block_size
  pub plugin_buffer : length m.buffer ≡ block_size

-- Whatever the order of the calls of the two threads, at every moment what was sent on the socket
-- is the beginning of what was read from the interface, and what was written to the interface is
-- the beginning of what was received from the socket. The threads start in a host that is ready.
pub Reach-IsPrefix :
    (os : Os) (d : Fds) (h : List Call) (l m : Loop) (s : Host)
    → IsReady os d h l m
    → Reach os d h l m s
    → IsPrefix (sent d.sock s.calls) (fetched os d.tun s.calls)
      × IsPrefix (written d.tun s.calls) (received os d.sock s.calls)
Reach-IsPrefix os d h l m s k r =
    let v = Reach-HostLedger k.apart k.posix k.fresh k.main_buffer k.plugin_buffer r in
    (
      chain _ _ _ _ _ _ v.main_ledger.up (k.to_plugin s.calls) v.tcp_ledger.up,
      chain _ _ _ _ _ _ v.tcp_ledger.down (k.from_plugin s.calls) v.main_ledger.down,
    )

-- At every moment at which both threads are in front of `select` and the pipes are empty, all that
-- was read from the interface was sent on the socket, and all that was received from it was written
-- to the interface. The threads start in a host that is ready.
pub Reach-settled :
    (os : Os) (d : Fds) (h : List Call) (l m l' m' : Loop) (t : List Call)
    → IsReady os d h l m
    → Reach os d h l m (record { main = at_select l'; plugin = at_select m'; calls = t })
    → fetched os d.to_in t ≡ written d.to_out t
    → fetched os d.from_in t ≡ written d.from_out t
    → (sent d.sock t ≡ fetched os d.tun t) × (written d.tun t ≡ received os d.sock t)
Reach-settled os d h l m l' m' t k r to from =
    let v = Reach-HostLedger k.apart k.posix k.fresh k.main_buffer k.plugin_buffer r in
    (
      sym (
          v.main_ledger.up
          ∙ ap (λ b. b ++ []) (sym to ∙ v.tcp_ledger.up)
          ∙ append-nil _
          ∙ append-nil _),
      sym (
          v.tcp_ledger.down
          ∙ ap (λ b. b ++ []) (sym from ∙ v.main_ledger.down)
          ∙ append-nil _
          ∙ append-nil _),
    )

pub IsPrefix-trans : (a b c : Bytes) → IsPrefix a b → IsPrefix b c → IsPrefix a c
IsPrefix-trans a b c (x, p) (y, q) = (x ++ y, rw (← append_assoc, p) q)

-- Two hosts over one connection: where the second has received a beginning of what the first has
-- sent, what it has written to its interface is a beginning of what the first read from its own, in
-- whatever order the four threads made their calls. Each host was ready.
pub tunnel-IsPrefix :
    (os os' : Os) (d d' : Fds) (h h' : List Call) (l m l' m' : Loop) (s s' : Host)
    → IsReady os d h l m
    → IsReady os' d' h' l' m'
    → Reach os d h l m s
    → Reach os' d' h' l' m' s'
    → IsPrefix (received os' d'.sock s'.calls) (sent d.sock s.calls)
    → IsPrefix (written d'.tun s'.calls) (fetched os d.tun s.calls)
tunnel-IsPrefix os os' d d' h h' l m l' m' s s' k k' r r' link =
    let here = (Reach-IsPrefix os d h l m s k r).0 in
    let there = (Reach-IsPrefix os' d' h' l' m' s' k' r').1 in
    IsPrefix-trans _ _ _ there (IsPrefix-trans _ _ _ link here)
