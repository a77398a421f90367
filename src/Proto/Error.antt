-- ===== src/Proto/Error.antt =====
-- crates/capsaicin-proto/src/error.rs
use capsaicin.Base.{ℕ}

pub data ProtoError : Type 0 where
  -- need, have
  short : ℕ → ℕ → ProtoError
  -- expected, got
  bad_magic : ℕ → ℕ → ProtoError
  -- major, minor
  bad_version : ℕ → ℕ → ProtoError
  bad_channel_type : ℕ → ProtoError
  bad_link_error : ℕ → ProtoError
  -- offset, len
  bad_caps_offset : ℕ → ℕ → ProtoError
  -- declared, max
  size_too_large : ℕ → ℕ → ProtoError
