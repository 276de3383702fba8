-- ===== src/Os.antt =====
-- The operating system as the program meets it: a call is answered by `Os`, a parameter of every
-- definition that makes one, from the calls made before it and the call itself.
use multivpn.Prelude.{ℕ, Bool, ◌&&◌, ◌||◌, List, Bytes, if◌then◌else◌}
use multivpn.Prelude.Int.{ℤ, is_neg, int_eq}

pub data SocketKind : Type 0 where
  stream datagram : SocketKind

-- The requests that tuntap.c makes of a device, with what the `struct ifreq` carries.
pub data Request : Type 0 where
  tun_set_iff : Request
  get_flags : Bytes → Request
  set_flags : Bytes → ℕ → Request
  set_addr : Bytes → ℕ → Request
  set_netmask : Bytes → ℕ → Request

-- What the program starts with `pthread_create`.
pub data Thread : Type 0 where
  plugin_thread sip_events_thread : Thread

-- The calls of PJSIP with which sip_plugin.c sets itself up.
pub data PjInit : Type 0 where
  pj_init pjlib_util_init pjsip_endpt_create pjsip_tsx_layer_init_module : PjInit
  pjsip_ua_init_module pjsip_inv_usage_init pjsip_100rel_init_module : PjInit
  register_mod_simpleua register_msg_logger : PjInit

-- An `fd_set`, by its members.
abbrev pub FdSet : Type 0
FdSet = ℤ → Bool

-- The Unix calls, the C library's resolvers, and PJSIP's; a buffer that is passed on is
-- the list of its bytes.
pub data Call : Type 0 where
  open_path : Bytes → Call
  socket : SocketKind → Call
  connect : ℤ → ℕ → ℕ → Call
  bind : ℤ → ℕ → Call
  listen : ℤ → ℕ → Call
  accept : ℤ → Call
  close : ℤ → Call
  ioctl : ℤ → Request → Call
  read : ℤ → ℕ → Call
  recv : ℤ → ℕ → Call
  write : ℤ → Bytes → Call
  write_null : ℤ → ℤ → Call
  send : ℤ → Bytes → Call
  select : ℤ → FdSet → Call
  pipe : Call
  gethostbyname : Bytes → Call
  inet_aton : Bytes → Call
  pthread_create : Thread → Call
  pj : PjInit → Call
  respond_stateless : ℕ → Bytes → Call
  create_request : Bytes → Bytes → Call
  create_uac : Call
  send_msg : Bytes → Call

-- `ret` is the call's result. The other fields are what a call may leave in memory: `errno`, the
-- bytes of a read or an interface's name, an address or flags, the two ends of a pipe, and the
-- descriptors that a `select` left in its set.
pub record Reply : Type 0 where
  pub ret : ℤ
  pub errno : ℤ
  pub bytes : Bytes
  pub value : ℕ
  pub ends : ℤ × ℤ
  pub ready : FdSet

-- `FD_SET(fd, &set)`
abbrev pub fd_add : ℤ → FdSet → FdSet
fd_add fd set x = int_eq fd x || set x

-- The set after `select`: on an error as it was, else those of its members that are ready. Its first
-- argument stands in the call, and the system's reply depends on it.
abbrev pub selected : FdSet → Reply → FdSet
selected set r fd = if is_neg r.ret then set fd else set fd && r.ready fd

abbrev pub Os : Type 0
Os = List Call → Call → Reply
