-- ===== src/Desklet/Controller.antt =====
-- The desklet's connection to the server (src/client/controller.cpp and controller.hpp).
pub mod State
pub mod Connect
pub mod Upkeep
pub mod Messages
pub mod Requests
pub mod Events
pub mod Awake
pub mod Dispatch
pub mod Alive
pub mod Stream
pub mod Clogged
pub mod Commands
pub mod Exchange
