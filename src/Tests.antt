-- ===== src/Tests.antt =====
-- The theorems about the server at concrete inputs.
mod World
mod Engine
mod Server
mod Files
