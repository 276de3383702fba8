-- ===== src/Program/SipCarries.antt =====
-- The program with the SIP plugin from the command line on, with its three threads in any order.
use mathlib.Core.List.{IsPrefix, flatten}
use mathlib.Core.Path.{subst}
use multivpn.Base64.Encode.{rfc4648}
use multivpn.Base64.Lookup.{Supplies, IsUsable}
use multivpn.Base64.{Malloc, unset}
use multivpn.Globals.{block_size}
use multivpn.Host.Order.{IsPipe}
use multivpn.Host.{Apart}
use multivpn.Machine.{Machine}
use multivpn.Os.{Os, PjInit, pj}
use multivpn.Prelude.Int.{ℤ, pos, is_true}
use multivpn.Prelude.{
  ℕ, ◌≡◌, ◌∙◌, refl, sym, ap, List, [], ◌∷◌, map, Bytes, All, length, ok, arith, inl, inr,
  Bool-cases, Exec-cases,
}
use multivpn.Program.Empty.{none_fetched, none_written, none_framed, none_headed}
use multivpn.Program.Keeps.{transfers, Silent, Silent-trans, same-Silent}
use multivpn.Program.Silent.{program-Silent}
use multivpn.Program.{Files, Opt, looping, program}
use multivpn.SipHost.Bytes.{ReadsBytes}
use multivpn.SipHost.Ledgers.{IsReady}
use multivpn.SipHost.Order.{sip_Reach-IsPrefix}
use multivpn.SipHost.Receiving.{arrived}
use multivpn.SipHost.{fds_of, SipHost, Reach}
use multivpn.SipPlugin.Frames.{IsFrame, headers}
use multivpn.SipPlugin.Startup.{sip_init-cons}
use multivpn.SipPlugin.Tunnel.{Sends}
use multivpn.SipPlugin.{sip_start, sip_init, init_steps, sip_loop_tun_events}
use multivpn.TcpPlugin.Relay.{IsPosix}
use multivpn.TcpPlugin.Streams.{fetched, written}
use multivpn.TcpPlugin.{Loop}

sip_init-Silent :
    (steps : List PjInit) (os : Os) (s s' : Machine) (r : ℤ)
    → sip_init steps os s ≡ ok (r, s')
    → Silent s s'
unfolding sip_init
sip_init-Silent [] os s s' r e = same-Silent s s' (ground (arith, e))
sip_init-Silent (step ∷ steps) os s s' r e =
    let t : Machine = record s { trace = pj step ∷ s.trace } in
    let stepped : Silent s t = record { same_transfers = refl; same_table = refl } in
    let begins = sip_init-cons step steps os s in
    Silent-trans stepped (elim (Bool-cases (is_true (os s.trace (pj step)).ret)) [
      | inl f ↦ same-Silent t s' (ground (arith, begins, f, e))
      | inr f ↦ sip_init-Silent steps os t s' r (ground (arith, begins, f, e))
    ])

-- The plugin in front of its loop.
sip_start-Silent :
    (malloc : Malloc) (l : Loop) (os : Os) (s s' : Machine) (r : ℤ)
    → sip_start malloc 0 l os s ≡ ok (r, s')
    → Silent s s'
unfolding sip_start sip_loop_tun_events
sip_start-Silent malloc l os s s' r e = elim (Exec-cases (sip_init init_steps os s)) [
  | inr (x, f) ↦ absurd (ground (arith, f, e))
  | inl ((a, t), f) ↦
      Silent-trans (sip_init-Silent init_steps os s t a f) (elim (Bool-cases (is_true a)) [
        | inl g ↦ same-Silent t s' (ground (arith, f, g, e))
        | inr g ↦ record {
          same_transfers = ground (arith, f, g, e);
          same_table = ground (arith, f, g, e);
        }
      ])
]

-- The program is started with a memory that holds no calls and no decoding table, and comes to its
-- main loop; the plugin's thread sets PJSIP up and comes to its own loop; then the three threads and
-- PJSIP's callbacks make their steps, in any order. At every moment the headers that were sent are the
-- RFC 4648 texts of frames which together are the beginning of what was read from the interface; and
-- where the headers that have arrived are the texts of frames, what was written to the interface is
-- the beginning of those frames. The descriptors that the system gave out are different ones, its
-- reads are as POSIX has them, the interface gives bytes, the pipes hand on what is written to them,
-- PJSIP takes requests, the allocator does not fail, and the buffers have their size.
pub sip_program-carries :
    (files : Files) (opts : List Opt) (malloc : Malloc) (junk : ℕ) (maxfd : ℤ) (l k : Loop)
    (os : Os) (s s' s'' : Machine) (t : SipHost)
    → s.trace ≡ []
    → s.decoding_table ≡ unset
    → program files opts 0 l os s ≡ ok (looping l, s')
    → sip_start malloc 0 k os s' ≡ ok (pos 0, s'')
    → Apart (fds_of s'')
    → IsPosix os
    → ReadsBytes os (fds_of s'').tun
    → Sends os
    → Supplies malloc
    → IsPipe os (fds_of s'').to_in (fds_of s'').to_out
    → IsPipe os (fds_of s'').from_in (fds_of s'').from_out
    → length l.buffer ≡ block_size
    → length k.buffer ≡ block_size
    → Reach malloc junk maxfd os s'' l k t
    → ((gone : List Bytes) × (headers t.machine.trace ≡ map rfc4648 gone)
        × All IsFrame gone
        × IsPrefix (flatten gone) (fetched os (fds_of s'').tun t.machine.trace))
      × ((fs : List Bytes)
          → All IsFrame fs
          → arrived t.events ≡ map rfc4648 fs
          → IsPrefix (written (fds_of s'').tun t.machine.trace) (flatten fs))
sip_program-carries files opts malloc junk maxfd l k os s s' s'' t none unbuilt run start apart
      posix reads sends supplies to from b c reach =
    let v =
      Silent-trans (program-Silent files opts l os s s' (looping l) run)
        (sip_start-Silent malloc k os s' s'' (pos 0) start) in
    let e : transfers s''.trace ≡ 0 = v.same_transfers ∙ ap transfers none in
    let ready : IsReady malloc os s'' l k = record {
      apart = apart;
      posix = posix;
      brings = reads;
      sends = sends;
      supplies = supplies;
      to_plugin = to;
      from_plugin = from;
      usable = subst IsUsable (sym (v.same_table ∙ unbuilt)) tt;
      fetched_tun = none_fetched os (fds_of s'').tun s''.trace e;
      fetched_from = none_fetched os (fds_of s'').from_in s''.trace e;
      frames_to = none_framed os (fds_of s'').to_in s''.trace e;
      written_tun = none_written os (fds_of s'').tun s''.trace e;
      written_from = none_written os (fds_of s'').from_out s''.trace e;
      written_to = none_written os (fds_of s'').to_out s''.trace e;
      sent_headers = none_headed s''.trace e;
      main_buffer = b;
      sender_buffer = c;
    } in
    sip_Reach-IsPrefix malloc junk maxfd os s'' l k t ready reach
