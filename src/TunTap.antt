-- ===== src/TunTap.antt =====
-- tuntap.c: the TAP interface.
pub mod Descriptors
pub mod Returns
use Prim.Native.Nat.{bit_or}
use multivpn.CString.{c_str, strncpy}
use multivpn.Machine.{Machine, M, pure, ◌>>=◌, ◌>>◌, get, modify, sys, fail}
use multivpn.Os.{
  Reply, Request, datagram, socket, open_path, close, ioctl, read, write, inet_aton, tun_set_iff,
  get_flags, set_flags, set_addr, set_netmask,
}
use multivpn.Prelude.Int.{ℤ, pos, is_neg, is_true, is_minus_one, minus_one}
use multivpn.Prelude.{ℕ, Bytes, codes, length, ltb, if◌then◌else◌, out_of_bounds}

-- `IFF_UP`
abbrev pub iff_up : ℕ
iff_up = 1

-- On a refused `TUNSETIFF` the device is closed again, and the result is `errno`, which a failing
-- `close` overwrites.
unfoldable pub tun_alloc : Bytes → M ℤ
tun_alloc path = do
  r ← sys (open_path path)
  modify (λ s. record s { tfd = r.ret })
  if is_neg r.ret then pure minus_one else (do
    q ← sys (ioctl r.ret tun_set_iff)
    if is_neg q.ret
        then (do
          c ← sys (close r.ret)
          modify (λ s. record s { tfd = minus_one })
          pure (if is_neg c.ret then c.errno else q.errno))
        else (do
          modify (λ s. record s { iface_name = strncpy s.iface_name q.bytes 100 })
          pure (pos 0)))

unfoldable pub tun_open : M ℤ
tun_open = tun_alloc (codes "/dev/net/tun")

unfoldable pub tun_write : Bytes → M ℤ
tun_write buffer = do s ← get; r ← sys (write s.tfd buffer); pure r.ret

unfoldable pub tun_read : ℕ → M Reply
tun_read numbytes = do s ← get; sys (read s.tfd numbytes)

unfoldable pub tun_get_file : M ℤ
tun_get_file = do s ← get; pure s.tfd

-- `strcpy(ifr_name, iface_name)`, into sixteen bytes
unfoldable pub copy_iface_name : M Bytes
copy_iface_name = do
  s ← get
  let name = c_str s.iface_name
  if ltb (length name) 16 then pure name else fail out_of_bounds

-- The control socket is not closed.
unfoldable pub tun_up : M ℤ
unfolding copy_iface_name
tun_up = do
  ctrl_sock ← sys (socket datagram)
  if is_neg ctrl_sock.ret then pure minus_one else (do
    name ← copy_iface_name
    flags ← sys (ioctl ctrl_sock.ret (get_flags name))
    if is_minus_one flags.ret then pure minus_one else (do
      up ← sys (ioctl ctrl_sock.ret (set_flags name (bit_or flags.value iff_up)))
      pure (if is_minus_one up.ret then minus_one else pos 0)))

-- The common text of `tun_setIP` and `tun_setNETMASK`, which differ in the request.
unfoldable pub set_address : (Bytes → ℕ → Request) → Bytes → M ℤ
unfolding copy_iface_name
set_address request text = do
  ipaddr ← sys (inet_aton text)
  if is_true ipaddr.ret
      then (do
        ctrl_sock ← sys (socket datagram)
        if is_neg ctrl_sock.ret then pure minus_one else (do
          name ← copy_iface_name
          done ← sys (ioctl ctrl_sock.ret (request name ipaddr.value))
          if is_neg done.ret
              then pure minus_one
              else (do c ← sys (close ctrl_sock.ret); pure (pos 0))))
      else pure minus_one

unfoldable pub tun_set_ip : Bytes → M ℤ
unfolding set_address
tun_set_ip = set_address set_addr

unfoldable pub tun_set_netmask : Bytes → M ℤ
unfolding set_address
tun_set_netmask = set_address set_netmask
