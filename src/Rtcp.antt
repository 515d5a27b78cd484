-- ===== src/Rtcp.antt =====
-- rtcp_packet.h and rtcp_packet.cpp: RTCP packets, their headers and report blocks, and the parser of
-- a compound packet.
pub mod Header
pub mod ReportBlock
pub mod SenderReport
pub mod ReceiverReport
pub mod Compound
pub mod TransportCc
pub mod Feedback
