-- ===== src/Proto/Display/Monitors.antt =====
-- `MonitorsConfig` of crates/capsaicin-proto/src/display.rs.
use capsaicin.Base.{
  ℕ, ◌%◌, ◌^◌, ◌<◌, ◌≡◌, List, [], ◌++◌, append_assoc, arith, length, All, IsU16, to_le_bytes,
}
use capsaicin.Base.Outcome.{Outcome, ok}
use capsaicin.Proto.Error.{ProtoError}
use capsaicin.Proto.Reader.{Writer, ◌>>=◌, ◌▸◌, pure, run, u16, put_u16}
use capsaicin.Proto.Reader.At.{run-at, unsigned-at}
use capsaicin.Proto.Reader.Many.{many, put_many, wires, put_many_lem, many-at}
use capsaicin.Proto.Display.{Head, decode_head, encode_head}
use capsaicin.Proto.Display.Wire.{FitsHead, wire_head, encode_head_lem, decode_head-at}

pub record MonitorsConfig : Type 0 where
  pub max_allowed : ℕ
  pub heads : List Head

unfoldable pub decode_monitors_config : List ℕ → Outcome ProtoError MonitorsConfig
decode_monitors_config = run do
  count ← u16
  max_allowed ← u16
  heads ← many count decode_head
  pure (record { max_allowed = max_allowed; heads = heads })

-- The number of heads is written `as u16`.
unfoldable pub encode_monitors_config : MonitorsConfig → Writer → Writer
encode_monitors_config m w =
    w ▸ put_u16 (length m.heads % 2 ^ 16) ▸ put_u16 m.max_allowed ▸ put_many encode_head m.heads

wire_monitors : MonitorsConfig → List ℕ
wire_monitors m =
    to_le_bytes 2 (length m.heads) ++ (to_le_bytes 2 m.max_allowed ++ wires wire_head m.heads)

-- A configuration with fewer than 65536 heads, whose fields fit their widths, is read back from what
-- its encoder writes, whatever bytes follow.
pub monitors_config_roundtrip :
    (m : MonitorsConfig) (rest : List ℕ)
    → length m.heads < 2 ^ 16
    → IsU16 m.max_allowed
    → All FitsHead m.heads
    → decode_monitors_config (encode_monitors_config m [] ++ rest) ≡ ok m
unfolding decode_monitors_config encode_monitors_config put_u16
monitors_config_roundtrip m rest few h fits =
    let count : length m.heads % 2 ^ 16 ≡ length m.heads = omega arith in
    let heads = many-at decode_head wire_head FitsHead decode_head-at m.heads in
    simp (
      count,
      put_many_lem encode_head wire_head encode_head_lem,
      run-at,
      append_assoc,
      unsigned-at,
      few,
      h,
      heads,
      fits,
    )
