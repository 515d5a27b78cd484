-- ===== src/Forward/Redirect.antt =====
-- A datagram that is neither STUN nor RTCP nor RTP.
use spadia.Common.{
  ℕ, ◌≤◌, ◌≡◌, ◌==◌, ◌/◌, ◌^◌, refl, Bool, true, false, not, ◌||◌, ltb, List, [], Option, none,
  some, if◌then◌else◌, done,
}
use spadia.Common.Dict.{lookup}
use spadia.Memory.{Buffer, ByteIo}
use spadia.Rtp.Packet.{RtpPacket, new_packet, get_transport_cc_num, read_number}
use spadia.Rtp.Parse as RtpParse
use spadia.Rtp.Parse.Steps.{header_read}
use spadia.Rtp.Parse.Outcome.{HasHeader, parse_without_header}
use spadia.Rtcp.Compound.{is_rtcp}
use spadia.Session.Manager
use spadia.Session.Manager.{
  Manager, Sent, transport_wide, get_extension_id, answer_extension, answer_number,
}
use spadia.Stun.Packet.{is_stun}
use spadia.Connection.{Connection, World, took_rtp, handle, handle_rtp, receive_rtp, on_socket_data}
use spadia.Forward.{System, arrive, run_moves}
use spadia.Forward.Tasks.{IsAllocated, functions}
use spadia.Forward.Delivery.{
  IsDelivered, taken_in, taken_in-IsDelivered, arrive-taken, own_address, seen,
}

module _ (io : ByteIo) (w : World) where
  answer_extension-nothing :
      (p : RtpPacket) (id : Option ℕ)
      → p.exts ≡ []
      → answer_extension io w.junk w.junk_count w.now_us true p id ≡ done none
  unfolding answer_extension get_transport_cc_num read_number answer_number lookup
  answer_extension-nothing p none e = refl
  answer_extension-nothing p (some id) e = rw e refl

  -- Without extensions there is no feedback.
  add_packet-nothing :
      (m : Manager) (p : RtpPacket)
      → p.exts ≡ []
      → Manager.add_packet io w.junk w.junk_count w.now_us true m p ≡ done none
  unfolding Manager.add_packet
  add_packet-nothing m p e = answer_extension-nothing p (get_extension_id m transport_wide) e

-- What `Parse` leaves of a packet without a header: the bytes, and no extensions.
abbrev IsRaw : Buffer → ℕ → RtpPacket → Type 0
IsRaw b size p = (p.bytes ≡ b) × (p.size ≡ size) × (p.exts ≡ [])

IsRaw-if :
    (b : Buffer) (size : ℕ) (c : Bool) (p q : RtpPacket)
    → IsRaw b size p
    → IsRaw b size q
    → IsRaw b size (if c then p else q)
IsRaw-if b size true p q h g = h
IsRaw-if b size false p q h g = g

module _ (io : ByteIo) (hmac : List ℕ → List ℕ → List ℕ) (w : World) (b : Buffer) (size : ℕ)
    (inside : size ≤ b.size) (not_stun : is_stun b ≡ done false)
    (not_rtcp : is_rtcp b size ≡ done false) (no_header : ¬ HasHeader b size) where
  parsed-IsRaw :
      (p : RtpPacket) × (RtpParse.parse io (new_packet w.junk_packet w.now_ms) b size
        ≡ done (true, p))
      × IsRaw b size p
  unfolding new_packet
  parsed-IsRaw =
      let p : RtpPacket = record (new_packet w.junk_packet w.now_ms) { bytes = b; size = size } in
      let short = ltb size 12 || not (b.bytes 0 / 2 ^ 6 == 2) in
      (
        (if short then p else header_read io b p),
        parse_without_header io w.junk_packet w.now_ms b size inside no_header,
        IsRaw-if b size short p (header_read io b p) (refl, refl, refl) (refl, refl, refl),
      )

  took_raw :
      (c : Connection) (m : Manager) (p : RtpPacket)
      → RtpParse.parse io (new_packet w.junk_packet w.now_ms) b size ≡ done (true, p)
      → p.exts ≡ []
      → c.session_manager ≡ some m
      → c.has_remote_stream ≡ true
      → on_socket_data io hmac w c b size
        ≡ done (record c { last_packet_recv_time_ms = w.now_ms }, took_rtp none p)
  unfolding on_socket_data handle handle_rtp receive_rtp
  took_raw c m p parsed no_exts session stream =
      rw (not_stun, not_rtcp, parsed, session, add_packet-nothing io w m p no_exts, stream) refl

  module _ (pc address : ℕ) (s : System) where
    -- A datagram that is neither STUN nor RTCP nor RTP of version 2 is not dropped, and its sender is
    -- believed. A connection with a session and a remote stream takes it and has its sender for
    -- `lastRemote_`. Where the functions that wait then run, in any order, before a request completes
    -- (`send_u` frees the data of its packet), and the packets that had waited have their data, each
    -- living sink has handed libuv the bytes as they came, once for each time that it is told, without a
    -- feedback, and whatever waited to be sent by the connection has been handed over for that sender.
    pub arrive_redirects :
        (m : Manager)
        → (s.peers pc).connection.session_manager ≡ some m
        → (s.peers pc).connection.has_remote_stream ≡ true
        → IsAllocated s
        → (s1 : System) × (arrive io hmac w pc address b size s ≡ done s1)
          × ((s1.peers pc).last_remote ≡ some address)
          × ((ks : List ℕ)
              → (t : System) × (run_moves (functions ks s1) s1 ≡ done t)
                × IsDelivered pc address (seen w.now_ms (s.peers pc).connection) s b size none t)
    arrive_redirects m session stream allocated =
        let c = seen w.now_ms (s.peers pc).connection in
        let (p, parsed, (same_bytes, same_size, no_exts)) = parsed-IsRaw in
        let handled = took_raw (s.peers pc).connection m p parsed no_exts session stream in
        (
          taken_in pc address c s none p,
          arrive-taken pc address c s io hmac w b size none p handled,
          own_address pc address c s,
          taken_in-IsDelivered pc address c s b size none p same_bytes same_size allocated,
        )
