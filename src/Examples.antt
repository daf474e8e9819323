-- ===== src/Examples.antt =====
-- The theorems at small concrete inputs, and runs of the definitions.
mod Accounts
mod Wire
mod Storage
mod Serving
mod Exchanges
mod Screens
mod Starting
mod Hosted
mod Mixing
mod Recorded
mod Terminal
