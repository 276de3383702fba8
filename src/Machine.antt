-- ===== src/Machine.antt =====
-- The program's static state, and the monad of its functions: they read and write that state, call
-- the operating system, and may fault.
use multivpn.Base64.{Table}
use multivpn.Globals.{GlobalV}
use multivpn.Os.{Call, Reply, Os}
use multivpn.Prelude.Int.{ℤ}
use multivpn.Prelude.{ℕ, Bool, List, ◌∷◌, Option, Bytes, Exec, ok, fault, Fault}

-- `tnconnection` of generictunel.c; a pointer to a connection's data is its address, NULL is none.
pub record Connection : Type 0 where
  pub connectiondata : Option ℕ
  pub sendsocket : ℤ
  pub recvsocket : ℤ
  pub active : ℕ

-- A plugin, as the owner of the function that one of plugin.c's pointers holds.
pub data Owner : Type 0 where
  tcp sip : Owner

-- The globals, the static variables of each file, the blocks given to `free`, and the calls made of
-- the system, the latest first.
pub record Machine : Type 0 where
  pub globals : GlobalV
  pub trace : List Call
  pub plugindata : List (List Connection)
  pub freed : List ℕ
  pub iface_name : Bytes
  pub tfd : ℤ
  pub socket_connected : ℤ
  pub socket_remote : ℤ
  pub socket_server : ℤ
  pub mode_server : Bool
  pub remote_client_connected : Bool
  pub server_port : ℕ
  pub client_id : ℕ
  pub active_plugin_start : Option Owner
  pub active_plugin_build : Option Owner
  pub active_plugin_check_parameters : Option Owner
  pub active_plugin_get_tun_tap : Option Owner
  pub active_plugin_fill_fdset : Option Owner
  pub active_plugin_check_fdisset : Option Owner
  pub decoding_table : Table
  pub g_complete : Bool

abbrev pub M : Type 0 → Type 0
M A = Os → Machine → Exec (A × Machine)

abbrev pub pure : {A : Type 0} → A → M A
pure a os s = ok (a, s)

-- One action after another: the second starts in the state that the first leaves.
infixl 5 ◌>>=◌
abbrev pub ◌>>=◌ : {A : Type 0} {B : Type 0} → M A → (A → M B) → M B
◌>>=◌ first next os s = elim (first os s) [ fault e ↦ fault e | ok (a, after) ↦ next a os after ]

infixl 5 ◌>>◌
abbrev pub ◌>>◌ : {A : Type 0} → M (Unit {0}) → M A → M A
first >> second = first >>= λ done. second

abbrev pub get : M Machine
get os s = ok (s, s)

abbrev pub modify : (Machine → Machine) → M (Unit {0})
modify f os s = ok (tt, f s)

-- A call of the system.
abbrev pub sys : Call → M Reply
sys c os s = ok (os s.trace c, record s { trace = c ∷ s.trace })

abbrev pub lift : {A : Type 0} → Exec A → M A
lift (ok a) os s = ok (a, s)
lift (fault e) os s = fault e

abbrev pub fail : {A : Type 0} → Fault → M A
fail e os s = fault e
