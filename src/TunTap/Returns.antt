-- ===== src/TunTap/Returns.antt =====
-- The functions of tuntap.c return, where the interface's name fits.
use multivpn.CString.{c_str, strncpy}
use multivpn.Machine.{Machine}
use multivpn.Os.{Request, Os, Call, close, ioctl, tun_set_iff, open_path}
use multivpn.Prelude.Int.{ℤ, is_true, is_neg}
use multivpn.Prelude.{
  ℕ, ◌<◌, ◌≡◌, refl, true, false, List, ◌∷◌, Bytes, codes, length, Exec, ok, fault, Fault, arith,
}
use multivpn.TunTap.{tun_alloc, tun_open, tun_up, copy_iface_name, set_address}

-- The system names an interface with fewer than sixteen bytes (IFNAMSIZ with the NUL), and the
-- `errno` of a failed call is not 0.
pub record IsUnix (os : Os) : Type 0 where
  pub names :
      (buffer : Bytes) (h : List Call) (fd : ℤ)
      → length (c_str (strncpy buffer (os h (ioctl fd tun_set_iff)).bytes 100)) < 16
  pub errors :
      (h : List Call) (c : Call) → is_neg (os h c).ret ≡ true → is_true (os h c).errno ≡ true

-- A function that ran returned.
abbrev pub Returns : {A : Type 0} → Exec (A × Machine) → Type 0
Returns {A} m = (a : A) × (s : Machine) × (m ≡ ok (a, s))

pub returned : {A : Type 0} (m : Exec (A × Machine)) → ((e : Fault) → m ≡ fault e → ⊥) → Returns m
returned (ok (a, s)) h = (a, s, refl)
returned (fault e) h = absurd (h e refl)

pub tun_open-Returns : (os : Os) (s : Machine) → Returns (tun_open os s)
unfolding tun_open tun_alloc
tun_open-Returns os s = returned (tun_open os s) (λ x e. ground arith)

-- The interface's name fits.
abbrev pub Named : Machine → Type 0
Named s = length (c_str s.iface_name) < 16

pub tun_open-Named :
    (os : Os) (s s' : Machine) (r : ℤ)
    → IsUnix os
    → tun_open os s ≡ ok (r, s')
    → is_true r ≡ false
    → Named s'
unfolding tun_open tun_alloc
tun_open-Named os s s' r h e z =
    let path = codes "/dev/net/tun" in
    let fd : ℤ = (os s.trace (open_path path)).ret in
    let opened : List Call = open_path path ∷ s.trace in
    let asked : List Call = ioctl fd tun_set_iff ∷ opened in
    let c = h.names s.iface_name opened fd in
    let d = h.errors opened (ioctl fd tun_set_iff) in
    let f = h.errors asked (close fd) in ground (arith, e, z, c, d, f)

pub tun_up-Returns : (os : Os) (s : Machine) → Named s → Returns (tun_up os s)
unfolding tun_up copy_iface_name
tun_up-Returns os s h = returned (tun_up os s) (λ x e. ground arith)

pub tun_up-iface_name :
    (os : Os) (s s' : Machine) (r : ℤ) → tun_up os s ≡ ok (r, s') → s'.iface_name ≡ s.iface_name
unfolding tun_up copy_iface_name
tun_up-iface_name os s s' r e = ground arith

pub set_address-Returns :
    (request : Bytes → ℕ → Request) (text : Bytes) (os : Os) (s : Machine)
    → Named s
    → Returns (set_address request text os s)
unfolding set_address copy_iface_name
set_address-Returns request text os s h =
    returned (set_address request text os s) (λ x e. ground arith)

pub set_address-iface_name :
    (request : Bytes → ℕ → Request) (text : Bytes) (os : Os) (s s' : Machine) (r : ℤ)
    → set_address request text os s ≡ ok (r, s')
    → s'.iface_name ≡ s.iface_name
unfolding set_address copy_iface_name
set_address-iface_name request text os s s' r e = ground arith

pub tun_open-plugindata :
    (os : Os) (s s' : Machine) (r : ℤ) → tun_open os s ≡ ok (r, s') → s'.plugindata ≡ s.plugindata
unfolding tun_open tun_alloc
tun_open-plugindata os s s' r e = ground arith
