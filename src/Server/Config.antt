-- ===== src/Server/Config.antt =====
-- loadConfig with its helpers (src/server/server.cpp) and ServerConfig (src/server/server.h), over the
-- bytes of the file. Error texts are constructors, less the path of the file.
pub mod Numbers
pub mod Lines
mod Ensures
mod Hosts
pub mod Load
mod Tests
