-- ===== src/Msg.antt =====
-- The message layer: msg_frame.h, msg_pack.c, msgparser.h and msgpraser.c.
pub mod Frame
pub mod Pack
pub mod Parser
pub mod Stream
pub mod Exchange
mod Tests
