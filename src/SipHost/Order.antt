-- ===== src/SipHost/Order.antt =====
-- In every reachable state of a SIP host, what has left it is the beginning of what came in.
use mathlib.Core.List.{IsPrefix, flatten}
use mathlib.Core.Path.{subst}
use multivpn.Base64.Encode.{rfc4648}
use multivpn.Base64.{Malloc}
use multivpn.Host.Order.{IsPipe, chain, IsPrefix-trans}
use multivpn.Host.{Fds}
use multivpn.Machine.{Machine}
use multivpn.Os.{Os}
use multivpn.Prelude.Int.{ℤ}
use multivpn.Prelude.{ℕ, ◌≡◌, ◌∙◌, sym, ap, List, ◌++◌, map, Bytes, All}
use multivpn.SipEvents.Delivery.{flatten-append}
use multivpn.SipEvents.Stream.{fetched-frames, map-front, All-split}
use multivpn.SipHost.Ledgers.{IsReady, Reach-HostLedger}
use multivpn.SipHost.Receiving.{arrived}
use multivpn.SipHost.{fds_of, SipHost, Reach}
use multivpn.SipPlugin.Frames.{IsFrame, headers}
use multivpn.TcpPlugin.Streams.{fetched, written}
use multivpn.TcpPlugin.{Loop}

module _ (malloc : Malloc) (junk : ℕ) (maxfd : ℤ) (os : Os) (m : Machine) (l k : Loop) (s : SipHost)
    (ready : IsReady malloc os m l k) (reach : Reach malloc junk maxfd os m l k s) where
  -- Whatever the order of the steps of the three threads and of PJSIP's callbacks, at every moment the
  -- headers that were sent are the RFC 4648 texts of frames which together are the beginning of what
  -- was read from the interface; and where the headers that have arrived are the texts of frames,
  -- what was written to the interface is the beginning of those frames. The threads start in a host
  -- that is ready.
  pub sip_Reach-IsPrefix :
      ((gone : List Bytes) × (headers s.machine.trace ≡ map rfc4648 gone)
        × All IsFrame gone
        × IsPrefix (flatten gone) (fetched os (fds_of m).tun s.machine.trace))
      × ((fs : List Bytes)
          → All IsFrame fs
          → arrived s.events ≡ map rfc4648 fs
          → IsPrefix (written (fds_of m).tun s.machine.trace) (flatten fs))
  sip_Reach-IsPrefix =
      let v = Reach-HostLedger malloc junk maxfd os m l k ready reach in
      let d : Fds = fds_of s.machine in
      let h = s.machine.trace in
      let to_plugin : IsPipe os d.to_in d.to_out =
        subst (λ (x : Fds). IsPipe os x.to_in x.to_out) (sym v.same_fds) ready.to_plugin in
      let from_plugin : IsPipe os d.from_in d.from_out =
        subst (λ (x : Fds). IsPipe os x.from_in x.from_out) (sym v.same_fds) ready.from_plugin in
      let u = v.sender_ledger in
      let took : fetched os d.to_in h ≡ flatten u.gone ++ flatten u.here =
        fetched-frames os d.to_in h ∙ ap flatten u.took ∙ flatten-append u.gone u.here in
      (
        (
          u.gone,
          u.sent,
          (All-split IsFrame u.gone u.here u.framed).0,
          subst (λ (x : Fds). IsPrefix (flatten u.gone) (fetched os x.tun h)) v.same_fds
              (chain _ _ _ _ _ _ v.main_ledger.up (to_plugin h) took),
        ),
        λ fs framed e.
            let (w, usable) = v.receiver_ledger fs framed e in
            subst (λ (x : Fds). IsPrefix (written x.tun h) (flatten fs)) v.same_fds
              (chain _ _ _ _ _ _ (sym w) (from_plugin h) v.main_ledger.down),
      )

flatten-IsPrefix : (xs ys zs : List Bytes) → xs ++ ys ≡ zs → IsPrefix (flatten xs) (flatten zs)
flatten-IsPrefix xs ys zs e = (flatten ys, sym (flatten-append xs ys) ∙ ap flatten e)

-- Two SIP hosts: where the headers that have arrived at the second are a beginning of those that the
-- first has sent, what the second has written to its interface is a beginning of what the first read
-- from its own, in whatever order the six threads made their steps. Each host was ready.
pub sip_hosts-IsPrefix :
    (malloc malloc' : Malloc) (junk junk' : ℕ) (maxfd maxfd' : ℤ) (os os' : Os) (m m' : Machine)
    (l k l' k' : Loop) (s s' : SipHost)
    → IsReady malloc os m l k
    → IsReady malloc' os' m' l' k'
    → Reach malloc junk maxfd os m l k s
    → Reach malloc' junk' maxfd' os' m' l' k' s'
    → IsPrefix (arrived s'.events) (headers s.machine.trace)
    → IsPrefix
        (written (fds_of m').tun s'.machine.trace)
        (fetched os (fds_of m).tun s.machine.trace)
sip_hosts-IsPrefix malloc malloc' junk junk' maxfd maxfd' os os' m m' l k l' k' s s' ready ready'
      reach reach' (rest, link) =
    let (gone, sent, framed, here) =
      (sip_Reach-IsPrefix malloc junk maxfd os m l k s ready reach).0 in
    let (front, back, p, q, r) = map-front rfc4648 (arrived s'.events) rest gone (link ∙ sent) in
    let (front_framed, _) = All-split IsFrame front back (subst (All IsFrame) (sym r) framed) in
    let there =
      (sip_Reach-IsPrefix malloc' junk' maxfd' os' m' l' k' s' ready' reach').1 front front_framed
        p in
    IsPrefix-trans _ _ _ there (IsPrefix-trans _ _ _ (flatten-IsPrefix front back gone r) here)
