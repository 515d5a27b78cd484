-- ===== src/Rtp.antt =====
-- rtp_packet.h and rtp_packet.cpp: the RTP packet, its parser and its serializer.
pub mod Packet
pub mod Parse
pub mod Serialize
