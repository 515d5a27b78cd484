-- ===== src/Sdp/Answer.antt =====
-- `PeerConnection::CreateAnswer`, with the libraries' `parse` and `write` as parameters.
pub mod Extensions
pub mod Medias
pub mod Agreed
pub mod Ready
use spadia.Common.{
  ℕ, Bool, true, false, not, ◌&&◌, ◌||◌, List, [], ◌∷◌, ◌++◌, Option, none, some, ◌==◌,
  if◌then◌else◌, u8, u32, Run, done, fault, exception, ◌>>=◌,
}
use spadia.Common.Texts.{Text, is_text}
use spadia.Connection.{Connection}
use spadia.Server.{Peer, Server, add_pc}
use spadia.Session.Manager.{Manager, new_manager, set_extension}
use spadia.Sdp.{
  sendonly, recvonly, sendrecv, audio, video, transport_cc, nack, Ext, RtcpFb, Media, Ssrcs,
  AnswerMedia, Stream, PeerConnection,
}

abbrev pub is_direction : Option Text → Text → Bool
is_direction none d = false
is_direction (some x) d = is_text x d

abbrev pub sends : Option Text → Bool
sends d = is_direction d sendonly || is_direction d sendrecv

abbrev pub receives : Option Text → Bool
receives d = is_direction d recvonly || is_direction d sendrecv

abbrev pub answer_direction : Option Text → Text
answer_direction d = if sends d then recvonly else sendonly

-- The loop over `ext`: `aExt`, and `sessionManager_`.
unfoldable pub take_exts : Manager → List Ext → List Ext × Manager
unfolding set_extension
take_exts m [] = ([], m)
take_exts m (e ∷ es) =
    let (is_set, m1) = set_extension m (u8 e.value) e.uri in
    let (taken, m2) = take_exts m1 es in (if is_set then e ∷ taken else taken, m2)

module _ {J : Type 0} where
  -- The loop over `rtcpFb`: `aRtcpFb`.
  unfoldable pub take_rtcp_fb : List (RtcpFb J) → List (RtcpFb J)
  take_rtcp_fb [] = []
  take_rtcp_fb (rtcp ∷ rest) =
      let taken = take_rtcp_fb rest in
      if is_text rtcp.kind transport_cc || is_text rtcp.kind nack then rtcp ∷ taken else taken

-- `getSSRCs`
abbrev pub get_ssrcs : ℕ → Text → Text → Text → Ssrcs
get_ssrcs ssrc msid cname label = record {
  id = ssrc;
  cname = cname;
  msid = msid ++ b' ' ∷ label;
  mslabel = label;
}

-- `answerMedia["ssrcs"]`
unfoldable pub local_ssrcs : Option Stream → Text → Text → Text → Option Ssrcs
local_ssrcs none kind msid cname = none
local_ssrcs (some stream) kind msid cname =
    if not (stream.audio_ssrc == 0) && is_text kind audio
    then some (get_ssrcs stream.audio_ssrc msid cname (audio ++ b'0' ∷ []))
    else if not (stream.video_ssrc == 0) && is_text kind video
    then some (get_ssrcs stream.video_ssrc msid cname (video ++ b'0' ∷ []))
    else none

-- `if (!remoteStream_) remoteStream_ = std::make_shared<MediaStream>();`
abbrev pub stream_or_new : Option Stream → Stream
stream_or_new none = record { audio_ssrc = 0; video_ssrc = 0 }
stream_or_new (some stream) = stream

-- `remoteStream_->AudioSSRC() = ssrc` or `VideoSSRC`, by the media's type.
unfoldable pub set_ssrc : Stream → Text → ℕ → Stream
set_ssrc stream kind ssrc =
    if is_text kind audio
    then record stream { audio_ssrc = ssrc }
    else if is_text kind video
    then record stream { video_ssrc = ssrc }
    else stream

-- A conversion of a JSON value; a missing one has none.
unfoldable pub get {ℓ} : {A : Type ℓ} → Option A → Run A
get none = fault exception
get (some x) = done x

module _ {J : Type 0} (msid cname : Text) where
  -- The remote stream after a media: `ssrcs[0]["id"]` is read where the offer sends.
  unfoldable pub remote_stream_of : Option Stream → Media J → Run (Option Stream)
  unfolding get set_ssrc
  remote_stream_of stream m =
      let set =
        get m.ssrc >>= λ id. done (some (set_ssrc (stream_or_new stream) m.kind (u32 id))) in
      if sends m.direction then set else done stream

  -- `answerMedia`
  unfoldable pub answer_media : PeerConnection → List Ext → Media J → AnswerMedia J
  unfolding take_rtcp_fb local_ssrcs
  answer_media pc exts m = record {
    direction = answer_direction m.direction;
    ext = exts;
    rtcp_fb = take_rtcp_fb m.rtcp_fb;
    kind = m.kind;
    ice_pwd = pc.local_password;
    ice_ufrag = pc.local_username;
    candidate_port = pc.port;
    ssrcs = if receives m.direction then local_ssrcs pc.local_stream m.kind msid cname else none;
    rest = m.rest;
  }

  -- The body of the loop over the media, with `*sessionManager_` as `manager`.
  unfoldable pub take_media :
      PeerConnection → Manager → Media J → Run (AnswerMedia J × Manager × PeerConnection)
  unfolding take_exts remote_stream_of answer_media get
  take_media pc manager m = do
    let (exts, manager1) = take_exts manager m.ext
    stream ← remote_stream_of pc.remote_stream m
    ufrag ← get m.ice_ufrag
    pwd ← get m.ice_pwd
    done (
      answer_media pc exts m,
      manager1,
      record pc { remote_stream = stream; remote_username = ufrag; remote_password = pwd },
    )

  unfoldable pub take_medias :
      PeerConnection
      → Manager
      → List (Media J)
      → Run (List (AnswerMedia J) × Manager × PeerConnection)
  unfolding take_media
  take_medias pc manager [] = done ([], manager, pc)
  take_medias pc manager (m ∷ ms) = do
    (answer, manager1, pc1) ← take_media pc manager m
    (answers, manager2, pc2) ← take_medias pc1 manager1 ms
    done (answer ∷ answers, manager2, pc2)

-- `if (remoteStream_) callback_(remoteStream_);`, by whether `callback_` is set.
unfoldable pub tell_stream : Bool → Option Stream → Run (Unit {0})
tell_stream has_callback none = done tt
tell_stream has_callback (some stream) = if has_callback then done tt else fault exception

-- What the server reads of a connection.
abbrev pub peer_of : PeerConnection → Peer
peer_of pc = record {
  local_username = pc.local_username;
  remote_username = pc.remote_username;
  local_password = pc.local_password;
}

-- `msid`; `uuid()` makes a name for the local stream, where there is one, and the `cname`.
abbrev pub msid_of : Text → Option Stream → Text
msid_of stream_id none = b'*' ∷ []
msid_of stream_id (some stream) = stream_id

module _ {J : Type 0} (stream_id cname : Text) where
  -- `CreateAnswer` from the parsed offer to the media of the answer; `this` is the number of the
  -- connection in the server's table.
  unfoldable pub negotiate :
      Server
      → ℕ
      → PeerConnection
      → List (Media J)
      → Run (List (AnswerMedia J) × PeerConnection × Server)
  unfolding take_medias tell_stream add_pc
  negotiate server this pc offer = do
    (answers, manager, pc1) ←
        take_medias (msid_of stream_id pc.local_stream) cname pc new_manager offer
    _ ← tell_stream pc1.has_callback pc1.remote_stream
    let pc2 = record pc1 { session_manager = some manager }
    done (answers, pc2, add_pc (λ _. peer_of pc2) server this)

  -- `CreateAnswer(offer)`
  unfoldable pub create_answer :
      (Text → List (Media J))
      → (Text → List (AnswerMedia J) → Text)
      → Server
      → ℕ
      → PeerConnection
      → Text
      → Run (Text × PeerConnection × Server)
  unfolding negotiate
  create_answer parse write server this pc offer = do
    (answers, pc1, server1) ← negotiate server this pc (parse offer)
    done (write (msid_of stream_id pc.local_stream) answers, pc1, server1)

abbrev pub is_some {ℓ} : {A : Type ℓ} → Option A → Bool
is_some none = false
is_some (some x) = true

-- What a datagram's handling reads of a connection.
abbrev pub connection_of : ℕ → PeerConnection → Connection
connection_of recv_time pc = record {
  local_password = pc.local_password;
  session_manager = pc.session_manager;
  has_remote_stream = is_some pc.remote_stream;
  last_packet_recv_time_ms = recv_time;
}
