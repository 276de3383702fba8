-- ===== src/SipHost/Receiving.antt =====
-- The frames that have arrived in requests, and that the thread of the SIP events has written to its
-- pipe.
use mathlib.Core.List.{append-nil, append_assoc, flatten}
use multivpn.Base64.Encode.{rfc4648}
use multivpn.Base64.Lookup.{IsUsable}
use multivpn.Machine.{Machine}
use multivpn.Os.{Os, write, write_null, respond_stateless}
use multivpn.Prelude.Int.{pos_part, int_eq_refl}
use multivpn.Prelude.{
  ◌≡◌, refl, sym, ◌∙◌, ap, List, [], ◌∷◌, ◌++◌, map, none, some, Bytes, All, codes, take, ok, inl,
  inr, Bool-cases, if◌then◌else◌,
}
use multivpn.SipEvents.{Event, rx_request}
use multivpn.SipPlugin.Frames.{IsFrame}
use multivpn.SipThreads.{Receiver, rx_test, rx_handle, rx_end, rx_write, rx_respond, receiver_step}
use multivpn.TcpPlugin.Streams.{written}

-- The header that an event brings.
abbrev pub header_of : Event → List Bytes
header_of (rx_request rdata) =
    if rdata.is_options
    then elim rdata.multivpn_header [ none ↦ [] | some value ↦ value ∷ [] ]
    else []
header_of _ = []

abbrev pub arrived : List Event → List Bytes
arrived [] = []
arrived (e ∷ events) = header_of e ++ arrived events

pub arrived-append :
    (events : List Event) (e : Event) → arrived (events ++ e ∷ []) ≡ arrived events ++ header_of e
arrived-append [] e = append-nil (header_of e)
arrived-append (x ∷ events) e =
    ap (λ hs. header_of x ++ hs) (arrived-append events e)
    ∙ sym (append_assoc (header_of x) (arrived events) (header_of e))

-- The bytes that the thread is about to write.
abbrev pub held : Receiver → Bytes
held (rx_write (some bytes) n) = take (pos_part n) bytes
held _ = []

-- Where the headers that arrived are the texts of frames, those frames are what was written, but for
-- what is held.
abbrev pub ReceiverLedger : Receiver → Machine → List Event → Type 0
ReceiverLedger pc m events =
    (fs : List Bytes)
    → All IsFrame fs
    → arrived events ≡ map rfc4648 fs
    → (written (m.globals.pipe_from_plugin).1 m.trace ++ held pc ≡ flatten fs)
      × IsUsable m.decoding_table

-- What the thread's next step leaves.
abbrev pub receiver_next : Receiver → Machine → Receiver × Machine
receiver_next rx_test m = (if m.g_complete then rx_end else rx_handle, m)
receiver_next rx_handle m = (rx_test, m)
receiver_next rx_end m = (rx_end, m)
receiver_next (rx_write none n) m = (
  rx_respond 666 (codes "Traffic Accepted"),
  record m { trace = write_null (m.globals.pipe_from_plugin).1 n ∷ m.trace },
)
receiver_next (rx_write (some bytes) n) m = (
  rx_respond 666 (codes "Traffic Accepted"),
  record m { trace = write (m.globals.pipe_from_plugin).1 (take (pos_part n) bytes) ∷ m.trace },
)
receiver_next (rx_respond code text) m =
    (rx_handle, record m { trace = respond_stateless code text ∷ m.trace })

pub receiver_step-next :
    (pc : Receiver) (os : Os) (m : Machine) → receiver_step pc os m ≡ ok (receiver_next pc m)
unfolding receiver_step
receiver_step-next rx_test os m = refl
receiver_step-next rx_handle os m = refl
receiver_step-next rx_end os m = refl
receiver_step-next (rx_write none n) os m = refl
receiver_step-next (rx_write (some bytes) n) os m = refl
receiver_step-next (rx_respond code text) os m = refl

pub receiver_next-ReceiverLedger :
    (pc : Receiver) (m : Machine) (events : List Event)
    → ReceiverLedger pc m events
    → ReceiverLedger (receiver_next pc m).0 (receiver_next pc m).1 events
receiver_next-ReceiverLedger rx_test m events v = elim (Bool-cases m.g_complete) [
  | inl e ↦ rw e v
  | inr e ↦ rw e v
]
receiver_next-ReceiverLedger rx_handle m events v = v
receiver_next-ReceiverLedger rx_end m events v = v
receiver_next-ReceiverLedger (rx_write none n) m events v = v
receiver_next-ReceiverLedger (rx_write (some bytes) n) m events v = λ fs framed e.
    let (w, u) = v fs framed e in (rw (int_eq_refl (m.globals.pipe_from_plugin).1, append-nil) w, u)
receiver_next-ReceiverLedger (rx_respond code text) m events v = v
