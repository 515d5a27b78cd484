-- ===== src/Session.antt =====
-- rtp_session_manager.h and rtp_session_manager.cpp.
pub mod Lost
pub mod Manager
