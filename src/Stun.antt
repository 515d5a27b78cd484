-- ===== src/Stun.antt =====
-- stun_packet.h and stun_packet.cpp: STUN Binding requests and responses.
pub mod Packet
pub mod Parse
pub mod Serialize
pub mod Binding
