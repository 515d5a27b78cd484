-- ===== src/Session/Manager.antt =====
-- `RTPSessionManager` and `RTPIncomingSession::AddPacket`: the extensions that were agreed on, and the
-- feedback for a packet that carries a transport-wide number.
pub mod Sent
use spadia.Common.{
  ℕ, Bool, true, false, ◌&&◌, List, [], ◌∷◌, Option, none, some, ◌==◌, if◌then◌else◌, Run, done,
  ◌>>=◌,
}
use spadia.Common.Dict.{insert}
use spadia.Common.Texts.{is_text}
use spadia.Memory.{Buffer, ByteIo}
use spadia.Rtp.Packet.{RtpPacket, get_transport_cc_num}
use spadia.Rtcp.TransportCc.{insert_packet}
use spadia.Rtcp.Feedback
use spadia.Rtcp.Feedback.{transport_cc}

-- `RTPExtensionType`
pub data ExtensionType : Type 0 where
  unknown_extension : ExtensionType
  transport_wide : ExtensionType

abbrev pub is_same : ExtensionType → ExtensionType → Bool
is_same unknown_extension unknown_extension = true
is_same unknown_extension transport_wide = false
is_same transport_wide unknown_extension = false
is_same transport_wide transport_wide = true

-- `extMap_`
pub record Manager : Type 0 where
  pub ext_map : List (ℕ × ExtensionType)

abbrev pub new_manager : Manager
new_manager = record { ext_map = [] }

abbrev pub transport_cc_uri : List ℕ
transport_cc_uri =
    b'h' ∷ b't' ∷ b't' ∷ b'p' ∷ b':' ∷ b'/' ∷ b'/' ∷ b'w' ∷ b'w' ∷ b'w' ∷ b'.' ∷ b'i' ∷ b'e' ∷ b't'
    ∷ b'f' ∷ b'.' ∷ b'o' ∷ b'r' ∷ b'g' ∷ b'/' ∷ b'i' ∷ b'd' ∷ b'/' ∷ b'd' ∷ b'r' ∷ b'a' ∷ b'f'
    ∷ b't' ∷ b'-' ∷ b'h' ∷ b'o' ∷ b'l' ∷ b'm' ∷ b'e' ∷ b'r' ∷ b'-' ∷ b'r' ∷ b'm' ∷ b'c' ∷ b'a'
    ∷ b't' ∷ b'-' ∷ b't' ∷ b'r' ∷ b'a' ∷ b'n' ∷ b's' ∷ b'p' ∷ b'o' ∷ b'r' ∷ b't' ∷ b'-' ∷ b'w'
    ∷ b'i' ∷ b'd' ∷ b'e' ∷ b'-' ∷ b'c' ∷ b'c' ∷ b'-' ∷ b'e' ∷ b'x' ∷ b't' ∷ b'e' ∷ b'n' ∷ b's'
    ∷ b'i' ∷ b'o' ∷ b'n' ∷ b's' ∷ b'-' ∷ b'0' ∷ b'1' ∷ []

unfoldable pub set_extension : Manager → ℕ → List ℕ → Bool × Manager
unfolding insert
set_extension m id ext_uri =
    if is_text ext_uri transport_cc_uri
    then (true, record { ext_map = insert id transport_wide m.ext_map })
    else (false, m)

-- The loop of `GetExtensionId`; `none` is the `false` that it returns without setting `id`.
unfoldable pub find_type : ExtensionType → List (ℕ × ExtensionType) → Option ℕ
find_type type [] = none
find_type type ((id, t) ∷ rest) =
    let found = find_type type rest in if is_same t type then some id else found

unfoldable pub get_extension_id : Manager → ExtensionType → Option ℕ
unfolding find_type
get_extension_id m type = find_type type m.ext_map

-- What is handed to `PeerConnection::sendData`: nothing, or a length and a block.
abbrev pub Sent : Type 0
Sent = Option (ℕ × Buffer)

-- `AddPacket` allocates the feedback and sends it; `count` is what the `feedbackPacketCount` without
-- an initializer holds, `now` the time in us, and `alive` whether the connection still exists.
module _ (io : ByteIo) (junk : ℕ → ℕ) (count now : ℕ) (alive : Bool) where
  -- `OnRTCP` on the packet for the number.
  unfoldable pub send_feedback : ℕ → ℕ → Run Sent
  send_feedback ssrc num = do
    sent ← Feedback.serialize io junk ssrc (
        transport_cc (
          insert_packet (record { reference_time = 0; feedback_packet_count = count; packets = [] })
            num now))
    done (if alive then some sent else none)

  unfoldable pub answer_number : RtpPacket → Option ℕ → Run Sent
  unfolding send_feedback
  answer_number pkt none = done none
  answer_number pkt (some num) = send_feedback pkt.ssrc num

  unfoldable pub answer_extension : RtpPacket → Option ℕ → Run Sent
  unfolding answer_number
  answer_extension pkt none = done none
  answer_extension pkt (some id) = get_transport_cc_num io pkt id >>= answer_number pkt

  -- `RTPIncomingSession::AddPacket`, which `OnRecvRTP` calls.
  unfoldable pub add_packet : Manager → RtpPacket → Run Sent
  unfolding answer_extension
  add_packet m pkt = answer_extension pkt (get_extension_id m transport_wide)
