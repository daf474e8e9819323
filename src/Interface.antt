-- ===== src/Interface.antt =====
-- src/client/interface.cc and include/client/interface.h: the client's screens, and what the user types.
pub mod Keypress
pub mod Selection
pub mod Line
pub mod State
pub mod Screens
pub mod Cases
pub mod Start
pub mod Display
