-- ===== src/Proto.antt =====
-- crates/capsaicin-proto: the wire format.
pub mod Error
pub mod Enums
pub mod Caps
pub mod Link
pub mod Header
pub mod Reader
pub mod Types
pub mod Common
pub mod Display
pub mod Inputs
pub mod MainChan
