-- ===== src/SipHost/Sending.antt =====
-- The frames that the sending thread has taken from its pipe and sent.
use multivpn.Base64.Encode.{rfc4648}
use multivpn.Base64.{Encoded}
use multivpn.CString.{c_str}
use multivpn.Globals.{block_size}
use multivpn.Machine.{Machine}
use multivpn.Os.{Os, Call, read, select, create_request, create_uac, send_msg, fd_add}
use multivpn.Prelude.Int.{ℤ}
use multivpn.Prelude.{◌≡◌, List, [], ◌∷◌, ◌++◌, map, Bytes, All, length, some}
use multivpn.SipPlugin.Frames.{IsFrame, frames, headers}
use multivpn.SipThreads.{Sender, tun_select, tun_read, tun_request, tun_uac, tun_send}
use multivpn.TcpPlugin.{Loop}

-- What the encoder makes of a frame.
abbrev pub encoded : Bytes → Encoded
encoded frame = record {
  output_length = length (rfc4648 frame);
  encoded_data = some (rfc4648 frame);
}

-- The thread holds this frame, and has sent nothing of it.
abbrev pub Holding : Sender → List Bytes → Type 0
Holding (tun_request e l) fs = (frame : Bytes) × (fs ≡ frame ∷ []) × (e ≡ encoded frame)
Holding (tun_uac e l) fs = (frame : Bytes) × (fs ≡ frame ∷ []) × (e ≡ encoded frame)
Holding (tun_send header l) fs = (frame : Bytes) × (fs ≡ frame ∷ []) × (header ≡ rfc4648 frame)
Holding _ fs = fs ≡ []

abbrev pub loop_of : Sender → Loop
loop_of (tun_select l) = l
loop_of (tun_read l) = l
loop_of (tun_request e l) = l
loop_of (tun_uac e l) = l
loop_of (tun_send header l) = l

-- Of the frames that came from the pipe all are sent but those held.
pub record SenderLedger (os : Os) (pc : Sender) (m : Machine) : Type 0 where
  pub gone : List Bytes
  pub here : List Bytes
  pub took : frames os (m.globals.pipe_to_plugin).0 m.trace ≡ gone ++ here
  pub sent : headers m.trace ≡ map rfc4648 gone
  pub holding : Holding pc here
  pub framed : All IsFrame (gone ++ here)
  pub sized : length (loop_of pc).buffer ≡ block_size

-- The call that the thread makes.
abbrev pub sender_call_of : ℤ → Machine → Sender → Call
sender_call_of maxfd m (tun_select l) =
    select maxfd (fd_add (m.globals.pipe_to_plugin).0 l.set_reading)
sender_call_of maxfd m (tun_read l) = read (m.globals.pipe_to_plugin).0 1504
sender_call_of maxfd m (tun_request e l) =
    create_request (c_str m.globals.sip_remoteuri) (c_str m.globals.sip_fromuri)
sender_call_of maxfd m (tun_uac e l) = create_uac
sender_call_of maxfd m (tun_send header l) = send_msg header
