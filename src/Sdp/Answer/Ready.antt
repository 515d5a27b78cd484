-- ===== src/Sdp/Answer/Ready.antt =====
-- A connection from `CreateAnswer` to the feedback for its packets.
use spadia.Common.{
  ℕ, ◌+◌, ◌%◌, ◌^◌, ◌≤◌, ◌<◌, ◌≡◌, sym, ◌∙◌, ap, true, false, List, Option, none, some, done, arith,
}
use mathlib.Core.Bool.{true≢false}
use spadia.Common.Dict.{lookup}
use spadia.Common.Texts.{Text}
use spadia.Memory.{Buffer, ByteIo, IsBigEndian, IsBytes, read16, read32}
use spadia.Rtp.Packet.{RtpExtension, RtpPacket, new_packet}
use spadia.Rtp.Parse as RtpParse
use spadia.Rtp.Parse.Outcome.{HasHeader}
use spadia.Rtcp.Compound.{is_rtcp}
use spadia.Rtcp.Feedback.Single.{epoch}
use spadia.Session.Manager.{Manager, transport_wide, get_extension_id}
use spadia.Server.{Server}
use spadia.Connection.{World, took_rtp, on_socket_data}
use spadia.Connection.Media.{on_socket_data_feeds_back}
use spadia.Sdp.{Media, AnswerMedia, PeerConnection}
use spadia.Sdp.Answer.{is_some, negotiate, connection_of}
use spadia.Sdp.Answer.Medias.{all_complete, some_sends, announced}
use spadia.Sdp.Answer.Agreed.{Answers, is_heard, Agreed, negotiate-Answers}

module _ {J : Type 0} where
  -- Where one id is announced, the session finds that one.
  Agreed-only :
      (found : Option ℕ) (answers : List (AnswerMedia J)) (id : ℕ)
      → Agreed found answers
      → announced id answers ≡ true
      → ((other : ℕ) → announced other answers ≡ true → other ≡ id)
      → found ≡ some id
  Agreed-only none answers id agreed offered only = absurd (true≢false (sym offered ∙ agreed id))
  Agreed-only (some other) answers id agreed offered only = ap some (only other agreed)

  module _ (stream_id cname : Text) (server server1 : Server) (this : ℕ) (pc pc1 : PeerConnection)
      (offer : List (Media J)) (answers : List (AnswerMedia J))
      (negotiated : negotiate stream_id cname server this pc offer ≡ done (answers, pc1, server1))
      (complete : all_complete offer ≡ true) (heard : is_heard pc offer ≡ true)
      (sent : some_sends offer ≡ true) (id : ℕ) (offered : announced id answers ≡ true)
      (only : (other : ℕ) → announced other answers ≡ true → other ≡ id) where
    session :
        (m : Manager) × (pc1.session_manager ≡ some m)
        × (get_extension_id m transport_wide ≡ some id)
    session =
        let (m, is_session, _, _, agreed, _) : Answers stream_id cname server this pc offer
            (answers, pc1, server1) =
          rw negotiated at
            (negotiate-Answers stream_id cname server this pc offer complete heard) in
        (m, is_session, Agreed-only _ answers id agreed offered only)

    has_stream : is_some pc1.remote_stream ≡ true
    has_stream =
        let (_, _, _, _, _, stream) : Answers stream_id cname server this pc offer
            (answers, pc1, server1) =
          rw negotiated at
            (negotiate-Answers stream_id cname server this pc offer complete heard) in
        ground (arith, stream)

    -- From the offer to the feedback: where `CreateAnswer` has answered an offer that sends, and one id
    -- of the transport-wide extension is announced, a datagram that is an RTP packet with an extension
    -- of this id is handed to the remote stream, and a feedback of 24 bytes with SSRC and number of the
    -- packet is sent (in the epochs of even number).
    pub negotiated_feeds_back :
        (io : ByteIo) (hmac : List ℕ → List ℕ → List ℕ) (w : World) (recv_time : ℕ) (b : Buffer)
        (size : ℕ) (p : RtpPacket) (e : RtpExtension)
        → IsBigEndian io
        → IsBytes b
        → size ≤ b.size
        → HasHeader b size
        → is_rtcp b size ≡ done false
        → RtpParse.parse io (new_packet w.junk_packet w.now_ms) b size ≡ done (true, p)
        → lookup id p.exts ≡ some e
        → 0 < w.now_us
        → w.junk_count < 2 ^ 8
        → epoch w.now_us % 2 ≡ 0
        → (block : Buffer) × (on_socket_data io hmac w (connection_of recv_time pc1) b size
            ≡ done (connection_of w.now_ms pc1, took_rtp (some (24, block)) p))
          × (read32 io block 8 ≡ done p.ssrc)
          × (read16 io block 12
              ≡ done (io.read_u16 (p.bytes.bytes e.offset) (p.bytes.bytes (e.offset + 1))))
    negotiated_feeds_back io hmac w recv_time b size p e big bytes inside good not_rtcp parsed found
          later count_fits even =
        let (m, is_session, has) = session in
        let (block, handled, (_, _, _, ssrc, num, _, _, _)) =
          on_socket_data_feeds_back io hmac w (connection_of recv_time pc1) b size inside good
            not_rtcp big bytes m id has p e parsed found later is_session has_stream count_fits
            even in
        (block, handled, ssrc, num)
