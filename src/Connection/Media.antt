-- ===== src/Connection/Media.antt =====
-- What a connection does with an RTP packet.
use spadia.Common.{
  ℕ, ◌+◌, ◌/◌, ◌%◌, ◌^◌, ◌≤◌, ◌<◌, ◌≡◌, refl, sym, ap, subst, true, false, List, ne→==, none, some,
  leb, if◌then◌else◌, done, fault, null_pointer, ◌>>=◌, arith,
}
use spadia.Common.Dict.{lookup, lookup-All}
use spadia.Memory.{Buffer, ByteIo, IsBigEndian, IsBytes}
use spadia.Memory.Access.{load-inside}
use spadia.Rtp.Packet.{RtpExtension, RtpPacket, new_packet}
use spadia.Rtp.Parse as RtpParse
use spadia.Rtp.Parse.Entries.{HasNumber}
use spadia.Rtp.Parse.Outcome.{HasHeader, parse-Accepted, parse_fields, parse_returns}
use spadia.Rtcp.Compound.{is_rtcp}
use spadia.Rtcp.Feedback.Single.{epoch, HasFields}
use spadia.Session.Manager
use spadia.Session.Manager.{Manager, Sent, transport_wide, get_extension_id}
use spadia.Session.Manager.Sent.{number, add_packet_sends}
use spadia.Stun.Packet.{is_stun}
use spadia.Connection.{Connection, World, took_rtp, handle, on_socket_data, receive_rtp}

module _ (io : ByteIo) (hmac : List ℕ → List ℕ → List ℕ) (w : World) (c : Connection) (b : Buffer)
    (size : ℕ) (inside : size ≤ b.size) (good : HasHeader b size)
    (not_rtcp : is_rtcp b size ≡ done false) where
  -- The first byte of a packet of version 2 is no STUN message's.
  is_stun-HasHeader : is_stun b ≡ done false
  unfolding is_stun
  is_stun-HasHeader =
      rw
        (
          load-inside b 0 (omega (arith, good.0)),
          ne→== (b.bytes 0) 0 (omega (arith, good.1)),
          ne→== (b.bytes 0) 1 (omega (arith, good.1)),
        )
        refl

  handle-rtp : handle io hmac w c b size ≡ (
      RtpParse.parse io (new_packet w.junk_packet w.now_ms) b size >>= λ r.
      receive_rtp io hmac w c c.session_manager r.1)
  unfolding handle
  handle-rtp = rw (is_stun-HasHeader, not_rtcp)

  -- Before `CreateAnswer` has made a session, an RTP packet makes `OnSocketData` call a member of a
  -- null pointer, whatever else the packet holds.
  on_socket_data_unready :
      c.session_manager ≡ none → on_socket_data io hmac w c b size ≡ fault null_pointer
  unfolding on_socket_data receive_rtp
  on_socket_data_unready unset =
      let (r, e) = parse_returns io w.junk_packet w.now_ms b size inside in
      rw (handle-rtp, e, unset)

  -- What the session sends for a packet is what comes of the datagram.
  took_rtp-add_packet :
      (m : Manager) (p : RtpPacket) (sent : Sent)
      → RtpParse.parse io (new_packet w.junk_packet w.now_ms) b size ≡ done (true, p)
      → c.session_manager ≡ some m
      → c.has_remote_stream ≡ true
      → Manager.add_packet io w.junk w.junk_count w.now_us true m p ≡ done sent
      → on_socket_data io hmac w c b size
        ≡ done (record c { last_packet_recv_time_ms = w.now_ms }, took_rtp sent p)
  unfolding on_socket_data receive_rtp
  took_rtp-add_packet m p sent parsed session stream e =
      rw (handle-rtp, parsed, session, e, stream) refl

  module _ (big : IsBigEndian io) (bytes : IsBytes b) (m : Manager) (id : ℕ)
      (has : get_extension_id m transport_wide ≡ some id) (p : RtpPacket) (e : RtpExtension)
      (parsed : RtpParse.parse io (new_packet w.junk_packet w.now_ms) b size ≡ done (true, p))
      (found : lookup id p.exts ≡ some e) (later : 0 < w.now_us) where
    pub same_bytes : p.bytes ≡ b
    same_bytes = (parse-Accepted io w.junk_packet w.now_ms b size inside good parsed).same_bytes

    pub same_size : p.size ≡ size
    same_size = (parse-Accepted io w.junk_packet w.now_ms b size inside good parsed).same_size

    pub number_inside : e.offset + 2 ≤ p.bytes.size
    number_inside =
        let a = parse-Accepted io w.junk_packet w.now_ms b size inside good parsed in
        let room = lookup-All (HasNumber size) id e p.exts a.numbers found in
        omega (arith, room, ap (λ (t : Buffer). t.size) same_bytes)

    ssrc_fits : p.ssrc < 2 ^ 32
    ssrc_fits =
        let (_, _, _, _, same) =
          parse_fields io w.junk_packet w.now_ms b size inside big bytes good parsed in
        omega (arith, same, bytes 8, bytes 9, bytes 10, bytes 11)

    pub own_bytes : IsBytes p.bytes
    own_bytes = subst IsBytes (sym same_bytes) bytes

    -- The feedback: 24 bytes with the packet's SSRC and number.
    abbrev pub FedBack : Buffer → Type 0
    FedBack block =
        HasFields io w.junk p.ssrc w.junk_count
          (number io w.junk w.junk_count w.now_us m id has p e big own_bytes found number_inside
            later)
          w.now_us later (if leb (w.now_us % 64000 / 250) 127 then 0xD000 else 0xE000) block

    -- After `CreateAnswer` has agreed on the transport-wide extension and a remote stream, a datagram
    -- that is an RTP packet with the extension is answered from the socket: `OnSocketData` hands the
    -- packet to the stream and sends a feedback of 24 bytes with SSRC and number of the packet (in the
    -- epochs of even number).
    pub on_socket_data_feeds_back :
        c.session_manager ≡ some m
        → c.has_remote_stream ≡ true
        → w.junk_count < 2 ^ 8
        → epoch w.now_us % 2 ≡ 0
        → (block : Buffer) × (on_socket_data io hmac w c b size
            ≡ done
                (record c { last_packet_recv_time_ms = w.now_ms }, took_rtp (some (24, block)) p))
          × FedBack block
    on_socket_data_feeds_back session stream count_fits even =
        let (block, sent, fields, _) =
          add_packet_sends io w.junk w.junk_count w.now_us m id has p e big own_bytes found
            number_inside later ssrc_fits count_fits even in
        (block, took_rtp-add_packet m p (some (24, block)) parsed session stream sent, fields)
