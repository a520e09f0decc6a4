-- ===== src/Server.antt =====
-- src/server/server.cpp and server.h: the TCP server between the clients, the Lua engine and the device.
pub mod State
pub mod Clients
pub mod Events
pub mod StatusEvents
pub mod Actions
pub mod Script
pub mod Answers
pub mod Editor
pub mod Requests
pub mod Posted
pub mod Device
pub mod Connections
pub mod StatusLog
pub mod Config
pub mod Main
pub mod Frame
