-- ===== src/Channel.antt =====
-- Message channels: src/ser.rs, and src/unix/mod.rs and src/unix/channel.rs below it; src/windows/mod.rs.
pub mod Datagram
pub mod Cmsg
pub mod Fds
pub mod Socket
pub mod Tokens
pub mod Handles
pub mod Owned
pub mod Establish
pub mod Pipes
pub mod Messages
