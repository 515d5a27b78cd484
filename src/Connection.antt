-- ===== src/Connection.antt =====
-- peerconnection.h and peerconnection.cpp: how a connection handles a datagram. Sockets are left
-- out: what is handed to `uv_udp_send` is part of the outcome.
pub mod Answers
pub mod Media
pub mod Lifecycle
use spadia.Common.{
  ℕ, ◌+◌, ◌-◌, ◌%◌, ◌^◌, ◌==◌, ltb, u64, Bool, true, false, List, Option, none, some, if◌then◌else◌,
  Run, done, fault, null_pointer, ◌>>=◌,
}
use spadia.Memory.{Buffer, ByteIo}
use spadia.Rtp.Packet.{RtpPacket, new_packet}
use spadia.Rtp.Parse as RtpParse
use spadia.Rtcp.Compound
use spadia.Rtcp.Compound.{Item, is_rtcp}
use spadia.Session.Manager
use spadia.Session.Manager.{Manager, Sent}
use spadia.Stun.Packet.{StunPacket, is_stun, make_response}
use spadia.Stun.Parse as StunParse
use spadia.Stun.Serialize as StunSerialize

-- The members that a datagram touches: `sessionManager_` and whether `remoteStream_` is set, both
-- by `CreateAnswer`.
pub record Connection : Type 0 where
  pub local_password : List ℕ
  pub session_manager : Option Manager
  pub has_remote_stream : Bool
  pub last_packet_recv_time_ms : ℕ

-- What a datagram comes to: a response sent, RTCP packets (which the session drops), or an RTP
-- packet for the remote stream, with the feedback sent for it.
pub data Outcome : Type 0 where
  responded : ℕ → Buffer → Outcome
  took_rtcp : List Item → Outcome
  took_rtp : Sent → RtpPacket → Outcome

-- What the calls return or find: the clocks, and memory that no one has set.
pub record World : Type 0 where
  pub junk : ℕ → ℕ
  pub junk_ssrc : ℕ
  pub junk_packet : RtpPacket
  pub junk_count : ℕ
  pub now_ms : ℕ
  pub now_us : ℕ

module _ (io : ByteIo) (hmac : List ℕ → List ℕ → List ℕ) (w : World) where
  -- From `MakeResponse` on; a null pointer has no members.
  unfoldable pub respond : Connection → Option StunPacket → Run Outcome
  respond c none = fault null_pointer
  respond c (some p) = do
    (size, data_block) ← StunSerialize.serialize io hmac w.junk (make_response p) c.local_password
    done (responded size data_block)

  -- `handleIncomingRTCPData`; `OnRecvRTCP` changes nothing.
  unfoldable pub handle_rtcp : Connection → Buffer → ℕ → Run Outcome
  handle_rtcp c b size = do
    (cnt, packets) ← Compound.parse io w.junk_ssrc b size
    done (took_rtcp packets)

  -- `OnRecvRTP` and `remoteStream_->OnRTP` on a parsed packet.
  unfoldable pub receive_rtp : Connection → Option Manager → RtpPacket → Run Outcome
  receive_rtp c none packet = fault null_pointer
  receive_rtp c (some m) packet = do
    sent ← Manager.add_packet io w.junk w.junk_count w.now_us true m packet
    if c.has_remote_stream then done (took_rtp sent packet) else fault null_pointer

  -- `handleIncomingRTPData`, which does not look at what `Parse` returns.
  unfoldable pub handle_rtp : Connection → Buffer → ℕ → Run Outcome
  unfolding receive_rtp
  handle_rtp c b size = do
    (_, packet) ← RtpParse.parse io (new_packet w.junk_packet w.now_ms) b size
    receive_rtp c c.session_manager packet

  -- `OnSocketData` behind its first two assignments.
  unfoldable pub handle : Connection → Buffer → ℕ → Run Outcome
  unfolding respond handle_rtcp handle_rtp
  handle c b size = do
    stun ← is_stun b
    if stun
        then (StunParse.parse io b size >>= respond c)
        else (is_rtcp b size >>= λ rtcp. if rtcp then handle_rtcp c b size else handle_rtp c b size)

  -- `OnSocketData`
  unfoldable pub on_socket_data : Connection → Buffer → ℕ → Run (Connection × Outcome)
  unfolding handle
  on_socket_data c b size = do
    outcome ← handle c b size
    done (record c { last_packet_recv_time_ms = w.now_ms }, outcome)

-- `IceTimeout`, in ms.
abbrev pub ice_timeout : ℕ
ice_timeout = 10000

-- `OnIceTimer`: the connection, and whether it logs a time-out (`Destroy` is commented out there); the
-- difference is that of `uint64_t`.
unfoldable pub on_ice_timer : ℕ → Connection → Connection × Bool
on_ice_timer now c =
    if c.last_packet_recv_time_ms == 0
    then (record c { last_packet_recv_time_ms = now }, false)
    else (c, ltb ice_timeout (u64 (now + 2 ^ 64 - c.last_packet_recv_time_ms)))
