-- ===== src/Tests.antt =====
-- The theorems at concrete values.
mod Fixture
mod Channels
mod Sending
mod Answering
mod Receiving
mod Connecting
mod Running
mod Brokered
mod Commanding
mod Hubs
mod Bridging
mod Naming
mod Chatting
