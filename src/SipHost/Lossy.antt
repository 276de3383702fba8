-- ===== src/SipHost/Lossy.antt =====
-- Two SIP hosts between which requests may be lost, repeated or come in another order.
use mathlib.Core.List.{IsPrefix, Memᴰ, flatten}
use mathlib.Core.List.Memᴰ
use mathlib.Core.Path.{subst}
use multivpn.Base64.Encode.{rfc4648}
use multivpn.Base64.{Malloc}
use multivpn.Machine.{Machine}
use multivpn.Os.{Os}
use multivpn.Prelude.Int.{ℤ}
use multivpn.Prelude.{ℕ, ◌≡◌, refl, sym, List, [], ◌∷◌, map, Bytes, All}
use multivpn.SipHost.Ledgers.{IsReady}
use multivpn.SipHost.Order.{sip_Reach-IsPrefix}
use multivpn.SipHost.Receiving.{arrived}
use multivpn.SipHost.{fds_of, SipHost, Reach}
use multivpn.SipPlugin.Frames.{IsFrame, headers}
use multivpn.TcpPlugin.Streams.{fetched, written}
use multivpn.TcpPlugin.{Loop}

-- Elements of a mapped list come from elements of the list.
origins :
    (f : Bytes → Bytes) (xs zs : List Bytes)
    → All (λ x. Memᴰ x (map f zs)) xs
    → (ys : List Bytes) × (xs ≡ map f ys) × All (λ y. Memᴰ y zs) ys
origins f [] zs h = ([], refl, tt)
origins f (x ∷ xs) zs h =
    let (y, m, e) = Memᴰ.of_map f zs h.0 in
    let (ys, p, q) = origins f xs zs h.1 in (y ∷ ys, cc (e, p), (m, q))

framed_one : (x : Bytes) (zs : List Bytes) → All IsFrame zs → Memᴰ x zs → IsFrame x
framed_one x [] h m = elim m [ ]
framed_one x (z ∷ zs) h (Memᴰ.head e) = subst IsFrame (sym e) h.0
framed_one x (z ∷ zs) h (Memᴰ.tail m) = framed_one x zs h.1 m

framed_all : (xs zs : List Bytes) → All IsFrame zs → All (λ x. Memᴰ x zs) xs → All IsFrame xs
framed_all [] zs h m = tt
framed_all (x ∷ xs) zs h m = (framed_one x zs h m.0, framed_all xs zs h m.1)

-- Two SIP hosts: where each header that has arrived at the second is one of those that the first has
-- sent, however many of them were lost, repeated or overtaken, what the second has written to its
-- interface is the beginning of frames each of which is a frame that the first has sent, and the frames
-- sent are, in order, the beginning of what the first read from its interface; in whatever order the six
-- threads made their steps. Each host was ready.
pub sip_hosts-carry :
    (malloc malloc' : Malloc) (junk junk' : ℕ) (maxfd maxfd' : ℤ) (os os' : Os) (m m' : Machine)
    (l k l' k' : Loop) (s s' : SipHost)
    → IsReady malloc os m l k
    → IsReady malloc' os' m' l' k'
    → Reach malloc junk maxfd os m l k s
    → Reach malloc' junk' maxfd' os' m' l' k' s'
    → All (λ header. Memᴰ header (headers s.machine.trace)) (arrived s'.events)
    → (gone fs : List Bytes) × (headers s.machine.trace ≡ map rfc4648 gone)
      × IsPrefix (flatten gone) (fetched os (fds_of m).tun s.machine.trace)
      × (arrived s'.events ≡ map rfc4648 fs)
      × All (λ frame. Memᴰ frame gone) fs
      × IsPrefix (written (fds_of m').tun s'.machine.trace) (flatten fs)
sip_hosts-carry malloc malloc' junk junk' maxfd maxfd' os os' m m' l k l' k' s s' ready ready' reach
      reach' link =
    let (gone, sent, framed, here) =
      (sip_Reach-IsPrefix malloc junk maxfd os m l k s ready reach).0 in
    let known =
      subst (λ (hs : List Bytes). All (λ header. Memᴰ header hs) (arrived s'.events)) sent link in
    let (fs, come, from) = origins rfc4648 (arrived s'.events) gone known in
    let there =
      (sip_Reach-IsPrefix malloc' junk' maxfd' os' m' l' k' s' ready' reach').1 fs
        (framed_all fs gone framed from) come in
    (gone, fs, sent, here, come, from, there)
