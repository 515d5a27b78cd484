-- ===== src/Sdp.antt =====
-- The JSON of offers and answers, as `PeerConnection::CreateAnswer` reads and builds it. It is that of
-- other projects' libraries (nlohmann's json, sdptransform), so an offer is what the code reads of its
-- JSON, where a missing member is `none` or an empty list. Members that are copied from the offer to
-- the answer unread are of an arbitrary type `J`, and constant members are left out.
pub mod Answer
pub mod Offer
use spadia.Common.{ℕ, Bool, List, [], ◌∷◌, Option}
use spadia.Common.Texts.{Text}
use spadia.Session.Manager.{Manager}

abbrev pub sendonly : Text
sendonly = b's' ∷ b'e' ∷ b'n' ∷ b'd' ∷ b'o' ∷ b'n' ∷ b'l' ∷ b'y' ∷ []

abbrev pub recvonly : Text
recvonly = b'r' ∷ b'e' ∷ b'c' ∷ b'v' ∷ b'o' ∷ b'n' ∷ b'l' ∷ b'y' ∷ []

abbrev pub sendrecv : Text
sendrecv = b's' ∷ b'e' ∷ b'n' ∷ b'd' ∷ b'r' ∷ b'e' ∷ b'c' ∷ b'v' ∷ []

abbrev pub audio : Text
audio = b'a' ∷ b'u' ∷ b'd' ∷ b'i' ∷ b'o' ∷ []

abbrev pub video : Text
video = b'v' ∷ b'i' ∷ b'd' ∷ b'e' ∷ b'o' ∷ []

abbrev pub transport_cc : Text
transport_cc =
    b't' ∷ b'r' ∷ b'a' ∷ b'n' ∷ b's' ∷ b'p' ∷ b'o' ∷ b'r' ∷ b't' ∷ b'-' ∷ b'c' ∷ b'c' ∷ []

abbrev pub nack : Text
nack = b'n' ∷ b'a' ∷ b'c' ∷ b'k' ∷ []

-- An element of `ext`.
pub record Ext : Type 0 where
  pub value : ℕ
  pub uri : Text

-- An element of `rtcpFb`: its `type`, and the rest of it.
pub record RtcpFb (J : Type 0) : Type 0 where
  pub kind : Text
  pub rest : J

-- An element of `media` in the offer; `rest` has `rtp`, `fmtp`, `payloads`, `mid` and `protocol`,
-- and `ssrc` is `ssrcs[0]["id"]`.
pub record Media (J : Type 0) : Type 0 where
  pub direction : Option Text
  pub ext : List Ext
  pub rtcp_fb : List (RtcpFb J)
  pub kind : Text
  pub ssrc : Option ℕ
  pub ice_ufrag : Option Text
  pub ice_pwd : Option Text
  pub rest : J

-- The attributes `cname`, `msid` and `mslabel` of one SSRC, in this order.
pub record Ssrcs : Type 0 where
  pub id : ℕ
  pub cname : Text
  pub msid : Text
  pub mslabel : Text

-- An element of `media` in the answer.
pub record AnswerMedia (J : Type 0) : Type 0 where
  pub direction : Text
  pub ext : List Ext
  pub rtcp_fb : List (RtcpFb J)
  pub kind : Text
  pub ice_pwd : Text
  pub ice_ufrag : Text
  pub candidate_port : ℕ
  pub ssrcs : Option Ssrcs
  pub rest : J

-- `MediaStream` without its sinks.
pub record Stream : Type 0 where
  pub audio_ssrc : ℕ
  pub video_ssrc : ℕ

-- The members that `CreateAnswer` reads and sets; `has_callback` is whether `callback_` is set.
pub record PeerConnection : Type 0 where
  pub session_manager : Option Manager
  pub has_callback : Bool
  pub local_stream : Option Stream
  pub remote_stream : Option Stream
  pub local_username : Text
  pub local_password : Text
  pub remote_username : Text
  pub remote_password : Text
  pub port : ℕ
