-- ===== src/SipPlugin/Startup.antt =====
-- How `sip_start` sets PJSIP up, and what follows when that succeeds.
use multivpn.Base64.Lookup.{Supplies}
use multivpn.Base64.{Malloc}
use multivpn.Globals.{block_size}
use multivpn.Machine.{Machine, ◌>>=◌}
use multivpn.Os.{Os, Call, PjInit, pjsip_100rel_init_module, pj, pthread_create, sip_events_thread}
use multivpn.Prelude.Int.{pos, is_true, int_suc}
use multivpn.Prelude.{
  inl, inr, Bool-cases, ℕ, ◌≡◌, refl, ◌∙◌, Bool, true, false, List, [], ◌∷◌, ◌++◌, All, length, ok,
  arith, if◌then◌else◌,
}
use multivpn.SipPlugin.Frames.{BringsBytes, Forwards, sip_loop_tun_events-Forwards}
use multivpn.SipPlugin.Tunnel.{Sends}
use multivpn.SipPlugin.{sip_init, init_steps, sip_start}
use multivpn.TcpPlugin.Relay.{IsPosix}
use multivpn.TcpPlugin.{Loop}

-- The calls after these steps, the latest first.
abbrev pub set_up : List PjInit → List Call → List Call
set_up [] h = h
set_up (step ∷ steps) h = set_up steps (pj step ∷ h)

-- PJSIP takes this step.
abbrev pub Takes : Os → PjInit → Type 0
Takes os step = (h : List Call) → (os h (pj step)).ret ≡ pos 0

-- The step that returns its status where it fails; the others return 1.
abbrev pub is_100rel : PjInit → Bool
is_100rel pjsip_100rel_init_module = true
is_100rel _ = false

pub sip_init-cons :
    (step : PjInit) (steps : List PjInit) (os : Os) (s : Machine)
    → sip_init (step ∷ steps) os s ≡ (
        if is_true (os s.trace (pj step)).ret
        then ok (
          if is_100rel step then (os s.trace (pj step)).ret else pos 1,
          record s { trace = pj step ∷ s.trace },
        )
        else sip_init steps os (record s { trace = pj step ∷ s.trace }))
unfolding sip_init
sip_init-cons pjsip_100rel_init_module steps os s = ground arith
sip_init-cons step steps os s = ground arith

sip_init-append :
    (before after : List PjInit) (os : Os) (s : Machine)
    → All (Takes os) before
    → sip_init (before ++ after) os s
      ≡ sip_init after os (record s { trace = set_up before s.trace })
sip_init-append [] after os s h = refl
sip_init-append (step ∷ before) after os s h =
    sip_init-cons step (before ++ after) os s
    ∙ rw (h.0 s.trace)
        (sip_init-append before after os (record s { trace = pj step ∷ s.trace }) h.1)

-- `sip_start` stops at the first step of PJSIP's setting up that fails: the steps behind it are not
-- made, no thread is started and nothing is relayed. The result is 1, or the status itself where the
-- step is the 100rel module's.
pub sip_start-refused :
    (malloc : Malloc) (n : ℕ) (l : Loop) (os : Os) (s : Machine) (before : List PjInit)
    (step : PjInit) (after : List PjInit)
    → init_steps ≡ before ++ step ∷ after
    → All (Takes os) before
    → is_true (os (set_up before s.trace) (pj step)).ret ≡ true
    → sip_start malloc n l os s
      ≡ ok (
        if is_100rel step then (os (set_up before s.trace) (pj step)).ret else pos 1,
        record s { trace = pj step ∷ set_up before s.trace },
      )
unfolding sip_start
sip_start-refused malloc n l os s before step after e h f =
    let s' : Machine = record s { trace = set_up before s.trace } in
    elim (Bool-cases (is_100rel step)) [
      | inl g ↦ rw (
        ◌>>=◌,
        e,
        sip_init-append before (step ∷ after) os s h,
        sip_init-cons step after os s',
        f,
        g,
        f,
      )
      | inr g ↦ rw (
        ◌>>=◌,
        e,
        sip_init-append before (step ∷ after) os s h,
        sip_init-cons step after os s',
        f,
        g,
      )
    ]

-- Where PJSIP takes all nine steps, `sip_start` returns 0: it makes them in order, starts the thread
-- of the SIP events once behind them, and then forwards each frame that comes from the pipe, one
-- request for each, in order. The allocator does not fail, PJSIP takes the requests, and reads are
-- answered with bytes as POSIX has it, into the buffer's 1505 bytes.
pub sip_start-Forwards :
    (malloc : Malloc) (n : ℕ) (l : Loop) (os : Os) (s : Machine)
    → Supplies malloc
    → Sends os
    → IsPosix os
    → BringsBytes os
    → length l.buffer ≡ block_size
    → All (Takes os) init_steps
    → (t : List Call) × (sip_start malloc n l os s ≡ ok (pos 0, record s { trace = t }))
      × Forwards os
          (s.globals.pipe_to_plugin).0
          (pthread_create sip_events_thread ∷ set_up init_steps s.trace)
          t
unfolding sip_start sip_init
sip_start-Forwards malloc n l os s m p q o b h =
    let begun : List Call = pthread_create sip_events_thread ∷ set_up init_steps s.trace in
    let (l', t, e, f) =
      sip_loop_tun_events-Forwards malloc n (int_suc (s.globals.pipe_to_plugin).0) l os
        (record s { trace = begun }) m p q o b in
    (t, rw (sip_init-append init_steps [] os s h, ◌>>=◌, e), f)
