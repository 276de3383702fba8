-- ===== src/TunTap/Descriptors.antt =====
-- The descriptors that tuntap.c opens and closes.
use multivpn.Machine.{Machine}
use multivpn.Os.{
  Os, Call, Request, socket, datagram, inet_aton, open_path, close, ioctl, tun_set_iff,
}
use multivpn.Prelude.Int.{ℤ, pos, minus_one, is_neg, is_true}
use multivpn.Prelude.{ℕ, ◌+◌, ◌≡◌, true, false, List, [], ◌∷◌, Bytes, ok, arith, ◌⊎◌, if◌then◌else◌}
use multivpn.TunTap.{tun_alloc, tun_up, set_address}

-- The descriptors given to `close`, the latest first, and how many calls of `socket` there were.
abbrev pub closings : List Call → List ℤ
closings [] = []
closings (close fd ∷ h) = fd ∷ closings h
closings (c ∷ h) = closings h

abbrev pub sockets : List Call → ℕ
sockets [] = 0
sockets (socket k ∷ h) = sockets h + 1
sockets (c ∷ h) = sockets h

-- Bringing the interface up calls `socket` once and never `close`, on every path on which it
-- returns: the control socket stays open.
pub tun_up_leaks :
    (os : Os) (s s' : Machine) (r : ℤ)
    → tun_up os s ≡ ok (r, s')
    → (sockets s'.trace ≡ sockets s.trace + 1) × (closings s'.trace ≡ closings s.trace)
unfolding tun_up
tun_up_leaks os s s' r e = (ground arith, ground arith)

-- Setting an address closes the control socket that it opens exactly when it succeeds: a call that
-- returns 0 opens one socket, and closes that one and nothing else; one that returns -1 closes nothing.
pub set_address_balance :
    (request : Bytes → ℕ → Request) (text : Bytes) (os : Os) (s s' : Machine) (r : ℤ)
    → set_address request text os s ≡ ok (r, s')
    → ((r ≡ pos 0)
        × (sockets s'.trace ≡ sockets s.trace + 1)
        × (closings s'.trace
            ≡ (os (inet_aton text ∷ s.trace) (socket datagram)).ret ∷ closings s.trace))
      ⊎ ((r ≡ minus_one) × (closings s'.trace ≡ closings s.trace))
unfolding set_address
set_address_balance request text os s s' r e = ground arith

-- `tun_alloc` keeps a descriptor exactly when it succeeds. With result 0 it leaves `tfd` at the
-- device's descriptor, which is not negative, and closes nothing; with any other result `tfd` is
-- negative, and the device's descriptor, where it was opened, and nothing else is closed. A failed
-- call's `errno` is not 0.
pub tun_alloc_keeps :
    (path : Bytes) (os : Os) (s s' : Machine) (r : ℤ)
    → ((h : List Call) (c : Call) → is_neg (os h c).ret ≡ true → is_true (os h c).errno ≡ true)
    → tun_alloc path os s ≡ ok (r, s')
    → let fd = (os s.trace (open_path path)).ret in
      ((r ≡ pos 0)
        × (s'.tfd ≡ fd)
        × (is_neg s'.tfd ≡ false)
        × (closings s'.trace ≡ closings s.trace))
      ⊎ ((is_true r ≡ true)
          × (is_neg s'.tfd ≡ true)
          × (closings s'.trace ≡ (if is_neg fd then closings s.trace else fd ∷ closings s.trace)))
unfolding tun_alloc
tun_alloc_keeps path os s s' r errs e =
    let fd = (os s.trace (open_path path)).ret in
    let opened : List Call = open_path path ∷ s.trace in
    ground
      (arith, errs opened (ioctl fd tun_set_iff), errs (ioctl fd tun_set_iff ∷ opened) (close fd))
