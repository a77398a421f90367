-- ===== src/Proto/Display/RoundTrip.antt =====
-- Decoding what was encoded, for the messages of crates/capsaicin-proto/src/display.rs.
use capsaicin.Base.{ℕ, ◌≡◌, List, [], ◌++◌}
use capsaicin.Base.Outcome.{ok}
use capsaicin.Proto.Display.{
  DisplayInit, decode_display_init, encode_display_init, SurfaceCreate, decode_surface_create,
  encode_surface_create, SurfaceDestroy, decode_surface_destroy, encode_surface_destroy, Mode,
  decode_mode, encode_mode,
}
use capsaicin.Proto.Display.Wire.{
  FitsDisplayInit, encode_display_init_lem, decode-wire_display_init, FitsSurfaceCreate,
  encode_surface_create_lem, decode-wire_surface_create, FitsSurfaceDestroy,
  encode_surface_destroy_lem, decode-wire_surface_destroy, FitsMode, encode_mode_lem,
  decode-wire_mode,
}

-- A DisplayInit, SurfaceCreate, SurfaceDestroy or Mode message whose fields fit their widths is read
-- back by its decoder from what its encoder writes to an empty buffer, whatever bytes follow.
pub display_roundtrip :
    (a : DisplayInit) (b : SurfaceCreate) (c : SurfaceDestroy) (d : Mode) (rest : List ℕ)
    → FitsDisplayInit a
    → FitsSurfaceCreate b
    → FitsSurfaceDestroy c
    → FitsMode d
    → (decode_display_init (encode_display_init a [] ++ rest) ≡ ok a)
      × (decode_surface_create (encode_surface_create b [] ++ rest) ≡ ok b)
      × (decode_surface_destroy (encode_surface_destroy c [] ++ rest) ≡ ok c)
      × (decode_mode (encode_mode d [] ++ rest) ≡ ok d)
display_roundtrip a b c d rest fa fb fc fd = (
  rw (encode_display_init_lem a []) (decode-wire_display_init a rest fa),
  rw (encode_surface_create_lem b []) (decode-wire_surface_create b rest fb),
  rw (encode_surface_destroy_lem c []) (decode-wire_surface_destroy c rest fc),
  rw (encode_mode_lem d []) (decode-wire_mode d rest fd),
)
