-- ===== src/TcpPlugin/Nfds.antt =====
-- The first argument of `select` in the loops is above the descriptors that they wait for.
use multivpn.Os.{FdSet, fd_add}
use multivpn.Prelude.Int.{ℤ, pos, negsuc, int_eq, int_eq_refl, int_gt, int_suc}
use multivpn.Prelude.{◌≡◌, refl, true, false, arith, inl, inr, Bool-cases, ◌==◌}
use multivpn.TcpPlugin.{max_fd}

pub int_gt-int_suc : (a : ℤ) → int_gt (int_suc a) a ≡ true
int_gt-int_suc (pos a) = ground arith
int_gt-int_suc (negsuc a) = elim (Bool-cases (a == 0)) [
  | inl e ↦ rw e refl
  | inr e ↦ rw e (ground (arith, e))
]

int_gt-suc_trans : (a b : ℤ) → int_gt a b ≡ true → int_gt (int_suc a) b ≡ true
int_gt-suc_trans (pos a) (pos b) e = ground arith
int_gt-suc_trans (pos a) (negsuc b) e = refl
int_gt-suc_trans (negsuc a) (pos b) e = absurd (ground arith)
int_gt-suc_trans (negsuc a) (negsuc b) e = elim (Bool-cases (a == 0)) [
  | inl f ↦ rw f refl
  | inr f ↦ rw f (ground (arith, e, f))
]

suc_of_not_above : (a b : ℤ) → int_gt a b ≡ false → int_gt (int_suc b) a ≡ true
suc_of_not_above (pos a) (pos b) e = ground arith
suc_of_not_above (pos a) (negsuc b) e = absurd (ground arith)
suc_of_not_above (negsuc a) (pos b) e = refl
suc_of_not_above (negsuc a) (negsuc b) e = elim (Bool-cases (b == 0)) [
  | inl f ↦ rw f refl
  | inr f ↦ rw f (ground (arith, e, f))
]

pub max_fd_first : (a b : ℤ) → int_gt (max_fd a b) a ≡ true
max_fd_first a b = elim (Bool-cases (int_gt a b)) [
  | inl e ↦ rw e (int_gt-int_suc a)
  | inr e ↦ rw e (suc_of_not_above a b e)
]

pub max_fd_second : (a b : ℤ) → int_gt (max_fd a b) b ≡ true
max_fd_second a b = elim (Bool-cases (int_gt a b)) [
  | inl e ↦ rw e (int_gt-suc_trans a b e)
  | inr e ↦ rw e (int_gt-int_suc b)
]

-- The descriptors that were put into the set are in it.
pub added_first : (fd : ℤ) (set : FdSet) → fd_add fd set fd ≡ true
added_first fd set = rw (int_eq_refl fd) refl

pub added_second : (fd reading : ℤ) (set : FdSet) → fd_add fd (fd_add reading set) reading ≡ true
added_second fd reading set = elim (Bool-cases (int_eq fd reading)) [
  | inl e ↦ rw e refl
  | inr e ↦ rw (e, int_eq_refl reading) refl
]
