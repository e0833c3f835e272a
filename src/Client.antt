-- ===== src/Client.antt =====
-- The clients' event loops: one message off a socket, and its acknowledgement to the broker.
pub mod Events
pub mod Delivery
pub mod Entered
pub mod GameBoy
pub mod Command
