-- ===== src/Session/Manager/Sent.antt =====
-- The feedback that a session with the extension sends for a packet.
use spadia.Common.{
  ℕ, ◌+◌, ◌/◌, ◌%◌, ◌^◌, ◌≤◌, ◌<◌, ◌≡◌, refl, Bool, true, none, some, leb, if◌then◌else◌, done,
  fault, signed_overflow, ◌>>=◌, arith,
}
use spadia.Common.Dict.{lookup}
use spadia.Memory.{Buffer, ByteIo, IsBigEndian, IsBytes, read8, read16}
use spadia.Memory.Access.{read16-inside}
use spadia.Rtp.Packet.{RtpExtension, RtpPacket, get_transport_cc_num}
use spadia.Rtcp.Feedback
use spadia.Rtcp.Feedback.Single.{epoch, HasFields, single, single_written, single_overflows}
use spadia.Session.Manager.{
  Manager, new_manager, transport_wide, transport_cc_uri, set_extension, get_extension_id,
  add_packet,
}

-- A session on which the extension was set for `id`.
abbrev pub agreed : ℕ → Manager
agreed id = (set_extension new_manager id transport_cc_uri).1

pub get_extension_id-agreed : (id : ℕ) → get_extension_id (agreed id) transport_wide ≡ some id
unfolding get_extension_id set_extension
get_extension_id-agreed id = refl

module _ (io : ByteIo) (junk : ℕ → ℕ) (count now : ℕ) (m : Manager) (id : ℕ)
    (has : get_extension_id m transport_wide ≡ some id) (pkt : RtpPacket) (e : RtpExtension)
    (big : IsBigEndian io) (bytes : IsBytes pkt.bytes) (found : lookup id pkt.exts ≡ some e)
    (inside : e.offset + 2 ≤ pkt.bytes.size) (later : 0 < now) where
  -- The transport-wide number that the packet carries.
  abbrev pub number : ℕ
  number = io.read_u16 (pkt.bytes.bytes e.offset) (pkt.bytes.bytes (e.offset + 1))

  add_packet-single :
      (alive : Bool)
      → add_packet io junk count now alive m pkt ≡ (
          Feedback.serialize io junk pkt.ssrc (single io junk pkt.ssrc count number now later)
          >>= λ sent. done (if alive then some sent else none))
  unfolding add_packet get_transport_cc_num
  add_packet-single alive = rw (has, found, read16-inside io pkt.bytes e.offset inside)

  module _ (ssrc_fits : pkt.ssrc < 2 ^ 32) (count_fits : count < 2 ^ 8) where
    number_fits : number < 2 ^ 16
    number_fits = omega (
      arith,
      big.read_u16_lem (pkt.bytes.bytes e.offset) (pkt.bytes.bytes (e.offset + 1)),
      bytes e.offset,
      bytes (e.offset + 1),
    )

    -- On a session that agreed on the extension, a packet that carries a number is answered, as long
    -- as the connection lives and the time lies in an epoch of even number (of 2 ^ 23 * 64 ms), with a
    -- feedback of 24 bytes: SSRC and number of the packet, the reference time, and the rest of the
    -- time in units of 250 us, in a byte up to 127 and else in two, with the symbol for its size.
    pub add_packet_sends :
        epoch now % 2 ≡ 0
        → (b : Buffer) × (add_packet io junk count now true m pkt ≡ done (some (24, b)))
          × HasFields io junk pkt.ssrc count number now later
              (if leb (now % 64000 / 250) 127 then 0xD000 else 0xE000)
              b
          × ((if leb (now % 64000 / 250) 127 then read8 io b 22 else read16 io b 22)
              ≡ done (now % 64000 / 250))
    add_packet_sends even =
        let (b, written, fields, delta) =
          single_written io junk pkt.ssrc count number now later big ssrc_fits number_fits
            count_fits even in
        (b, rw (add_packet-single true, written) refl, fields, delta)

  -- In the epochs of odd number the difference to the reference time has bit 31 set: as an `int` it is
  -- far below 0, and its product with 250 overflows, whether the connection lives or not.
  pub add_packet_overflows :
      (alive : Bool)
      → epoch now % 2 ≡ 1
      → add_packet io junk count now alive m pkt ≡ fault signed_overflow
  add_packet_overflows alive odd =
      rw (add_packet-single alive, single_overflows io junk pkt.ssrc count number now later odd)
        refl
