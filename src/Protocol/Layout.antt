-- ===== src/Protocol/Layout.antt =====
-- The body layouts that several messages share.
pub mod Pair
pub mod Single
pub mod Code
pub mod Empty
pub mod Strings
pub mod Names
pub mod Overrun
pub mod Overflow
pub mod Texts
