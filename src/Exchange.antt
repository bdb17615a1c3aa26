-- ===== src/Exchange.antt =====
-- lib/packethandler.cpp end to end: the fragments that `send` makes, received in any order by a
-- handler with the same AES context, come out of `poll` as the message.
pub mod Arrivals
pub mod Sending
pub mod Continued
pub mod Fragmented
pub mod Delivery
pub mod EndToEnd
pub mod Orders
pub mod Empty
pub mod Handshakes
