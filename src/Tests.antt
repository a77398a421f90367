-- ===== src/Tests.antt =====
-- Runs of the models, and the theorems at concrete inputs.
mod Proto
mod Lz
mod Quic
mod Glz
mod Window
mod Net
mod Handshake
mod Link
mod Lists
mod Caps
