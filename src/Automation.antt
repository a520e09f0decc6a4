-- ===== src/Automation.antt =====
-- server/automation.cpp and automation.h: the Lua automation engine. The methods that hand actions to
-- the server stand in Server/Events.antt, since their state is the server's.
pub mod Types
pub mod Text
pub mod Table
pub mod Schedule
pub mod Api
pub mod Memory
pub mod State
pub mod Persistent
pub mod Alerts
