-- ===== src/Program/Keeps.antt =====
-- The functions of main.c that start no thread of the plugin and make no pipe.
use multivpn.Machine.{Machine}
use multivpn.Os.{
  Os, Call, read, recv, write, write_null, send, send_msg, pipe, pthread_create, plugin_thread,
}
use multivpn.Prelude.Int.{ℤ}
use multivpn.Prelude.{
  ℕ, zero, suc, ◌+◌, ◌≡◌, ◌∙◌, sym, ap, List, [], ◌∷◌, ok, arith, inl, inr, Exec-cases,
}
use multivpn.Program.{main_round, main_rounds, main_loop}
use multivpn.TcpPlugin.{Loop, relay}
use multivpn.TunTap.{tun_get_file}

-- How many times the plugin's thread was started.
abbrev pub threads : List Call → ℕ
threads [] = 0
threads (pthread_create plugin_thread ∷ h) = threads h + 1
threads (c ∷ h) = threads h

-- How many pipes were asked for.
abbrev pub pipes : List Call → ℕ
pipes [] = 0
pipes (pipe ∷ h) = pipes h + 1
pipes (c ∷ h) = pipes h

-- How many calls carry bytes.
abbrev pub transfers : List Call → ℕ
transfers [] = 0
transfers (read fd n ∷ h) = transfers h + 1
transfers (recv fd n ∷ h) = transfers h + 1
transfers (write fd bytes ∷ h) = transfers h + 1
transfers (write_null fd n ∷ h) = transfers h + 1
transfers (send fd bytes ∷ h) = transfers h + 1
transfers (send_msg header ∷ h) = transfers h + 1
transfers (c ∷ h) = transfers h

-- Neither the plugin's thread nor a pipe is made, and the choice of the plugin stands.
pub record KeepsPlugin (s s' : Machine) : Type 0 where
  pub same_threads : threads s'.trace ≡ threads s.trace
  pub same_pipes : pipes s'.trace ≡ pipes s.trace
  pub same_start : s'.active_plugin_start ≡ s.active_plugin_start

KeepsPlugin-trans : {s t u : Machine} → KeepsPlugin s t → KeepsPlugin t u → KeepsPlugin s u
KeepsPlugin-trans a b = record {
  same_threads = b.same_threads ∙ a.same_threads;
  same_pipes = b.same_pipes ∙ a.same_pipes;
  same_start = b.same_start ∙ a.same_start;
}

-- No byte is carried, and the decoding table stays.
pub record Silent (s s' : Machine) : Type 0 where
  pub same_transfers : transfers s'.trace ≡ transfers s.trace
  pub same_table : s'.decoding_table ≡ s.decoding_table

pub Silent-trans : {s t u : Machine} → Silent s t → Silent t u → Silent s u
Silent-trans a b = record {
  same_transfers = b.same_transfers ∙ a.same_transfers;
  same_table = b.same_table ∙ a.same_table;
}

pub same-Silent : (s s' : Machine) → s ≡ s' → Silent s s'
same-Silent s s' e = record {
  same_transfers = ap (λ t. transfers t.trace) (sym e);
  same_table = ap (λ t. t.decoding_table) (sym e);
}

-- All of this.
pub record Keeps (s s' : Machine) : Type 0 where
  pub silent : Silent s s'
  pub same_threads : threads s'.trace ≡ threads s.trace
  pub same_pipes : pipes s'.trace ≡ pipes s.trace
  pub same_start : s'.active_plugin_start ≡ s.active_plugin_start

pub Keeps-trans : {s t u : Machine} → Keeps s t → Keeps t u → Keeps s u
Keeps-trans a b = record {
  silent = Silent-trans a.silent b.silent;
  same_threads = b.same_threads ∙ a.same_threads;
  same_pipes = b.same_pipes ∙ a.same_pipes;
  same_start = b.same_start ∙ a.same_start;
}

pub stays : (s s' : Machine) → s ≡ s' → Keeps s s'
stays s s' e = record {
  silent = same-Silent s s' e;
  same_threads = ap (λ t. threads t.trace) (sym e);
  same_pipes = ap (λ t. pipes t.trace) (sym e);
  same_start = ap (λ t. t.active_plugin_start) (sym e);
}

main_round-Keeps :
    (fd maxfd : ℤ) (l l' : Loop) (os : Os) (s s' : Machine)
    → main_round fd maxfd l os s ≡ ok (l', s')
    → KeepsPlugin s s'
unfolding main_round relay
main_round-Keeps fd maxfd l l' os s s' e = record {
  same_threads = ground arith;
  same_pipes = ground arith;
  same_start = ground arith;
}

main_rounds-Keeps :
    (n : ℕ) (fd maxfd : ℤ) (l l' : Loop) (os : Os) (s s' : Machine)
    → main_rounds n fd maxfd l os s ≡ ok (l', s')
    → KeepsPlugin s s'
unfolding main_rounds
main_rounds-Keeps zero fd maxfd l l' os s s' e = record {
  same_threads = ground arith;
  same_pipes = ground arith;
  same_start = ground arith;
}
main_rounds-Keeps (suc n) fd maxfd l l' os s s' e = elim (Exec-cases (main_round fd maxfd l os s)) [
  | inl ((m, t), h) ↦
      KeepsPlugin-trans (main_round-Keeps fd maxfd l m os s t h)
        (main_rounds-Keeps n fd maxfd m l' os t s' (ground (arith, h, e)))
  | inr (x, h) ↦ absurd (ground (arith, h, e))
]

pub main_loop-Keeps :
    (n : ℕ) (l l' : Loop) (os : Os) (s s' : Machine)
    → main_loop n l os s ≡ ok (l', s')
    → KeepsPlugin s s'
unfolding main_loop tun_get_file
main_loop-Keeps n l l' os s s' e = main_rounds-Keeps n s.tfd _ l l' os s s' e
