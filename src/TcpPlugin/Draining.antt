-- ===== src/TcpPlugin/Draining.antt =====
-- Whether bytes wait in a pipe, and what `select` leaves of a set.
use multivpn.Os.{Os, Call, Reply, FdSet, fd_add, selected}
use multivpn.Prelude.Int.{ℤ, is_neg, int_eq, int_eq_refl}
use multivpn.Prelude.{◌<◌, ◌≡◌, true, false, List, length, inl, inr, Bool-cases}
use multivpn.TcpPlugin.Streams.{fetched, written}

-- Fewer bytes were read from the pipe than were written to it.
abbrev pub Waiting : Os → ℤ → ℤ → List Call → Type 0
Waiting os reading writing h = length (fetched os reading h) < length (written writing h)

pub selected-silent :
    (asked : FdSet) (r : Reply) (fd : ℤ)
    → is_neg r.ret ≡ false
    → r.ready fd ≡ false
    → selected asked r fd ≡ false
selected-silent asked r fd n q = elim (Bool-cases (asked fd)) [
  | inl e ↦ rw (n, e, q)
  | inr e ↦ rw (n, e)
]

pub selected-woken :
    (sock fd : ℤ) (set : FdSet) (r : Reply)
    → is_neg r.ret ≡ false
    → r.ready fd ≡ true
    → selected (fd_add sock (fd_add fd set)) r fd ≡ true
selected-woken sock fd set r n w = elim (Bool-cases (int_eq sock fd)) [
  | inl e ↦ rw (n, e, w)
  | inr e ↦ rw (n, e, int_eq_refl fd, w)
]
