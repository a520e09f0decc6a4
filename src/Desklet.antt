-- ===== src/Desklet.antt =====
-- The Qt desklet (src/client), as far as it is no drawing.
pub mod Controller
pub mod Alerts
pub mod Preferences
mod Tests
mod AlertTests
