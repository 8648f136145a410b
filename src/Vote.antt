-- ===== src/Vote.antt =====
-- The vote client and server of Sockets_in_C/ch05.
pub mod Protocol
pub mod DelimFramer
pub mod DelimFramer2
pub mod LengthFramer
pub mod Encoding
pub mod Decoding
pub mod Encoding2
pub mod Decoding2
pub mod Server
pub mod Client
