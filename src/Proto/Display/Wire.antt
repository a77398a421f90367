-- ===== src/Proto/Display/Wire.antt =====
-- The wire layouts of the messages of crates/capsaicin-proto/src/display.rs.
use capsaicin.Base.{ℕ, ◌≡◌, refl, List, [], ◌∷◌, ◌++◌, append_assoc, to_le_bytes, IsByte, IsU32}
use capsaicin.Base.Outcome.{ok}
use capsaicin.Base.Int.{IsI32, IsI64}
use capsaicin.Proto.Reader.{put_u8, put_u32, put_i32, put_i64, Writer}
use capsaicin.Proto.Reader.At.{at, u8-at, i32-at, i64-at, unsigned-at, run-at, le_i32, le_i64}
use capsaicin.Proto.Display.{
  DisplayInit, decode_display_init, encode_display_init, SurfaceCreate, decode_surface_create,
  encode_surface_create, SurfaceDestroy, decode_surface_destroy, encode_surface_destroy, Mode,
  decode_mode, encode_mode, Head, decode_head, encode_head,
}

pub record FitsDisplayInit (m : DisplayInit) : Type 0 where
  pub pixmap_cache_id : IsByte m.pixmap_cache_id
  pub pixmap_cache_size : IsI64 m.pixmap_cache_size
  pub glz_dictionary_id : IsByte m.glz_dictionary_id
  pub glz_dictionary_window_size : IsI32 m.glz_dictionary_window_size

unfoldable pub wire_display_init : DisplayInit → List ℕ
wire_display_init m =
    (m.pixmap_cache_id ∷ [])
    ++ (le_i64 m.pixmap_cache_size
        ++ ((m.glz_dictionary_id ∷ []) ++ (le_i32 m.glz_dictionary_window_size)))

pub encode_display_init_lem :
    (m : DisplayInit) (w : Writer) → encode_display_init m w ≡ w ++ wire_display_init m
unfolding encode_display_init wire_display_init put_i32 put_i64 put_u8
encode_display_init_lem m w = simp (append_assoc)

pub decode-wire_display_init :
    (m : DisplayInit) (rest : List ℕ)
    → FitsDisplayInit m
    → decode_display_init (wire_display_init m ++ rest) ≡ ok m
unfolding decode_display_init wire_display_init
decode-wire_display_init m rest h =
    simp (
      run-at, append_assoc, u8-at, i64-at, i32-at, h.pixmap_cache_size,
      h.glz_dictionary_window_size,
    )

pub record FitsSurfaceCreate (m : SurfaceCreate) : Type 0 where
  pub surface_id : IsU32 m.surface_id
  pub width : IsU32 m.width
  pub height : IsU32 m.height
  pub format : IsU32 m.format
  pub flags : IsU32 m.flags

unfoldable pub wire_surface_create : SurfaceCreate → List ℕ
wire_surface_create m =
    to_le_bytes 4 m.surface_id
    ++ (to_le_bytes 4 m.width
        ++ (to_le_bytes 4 m.height ++ (to_le_bytes 4 m.format ++ (to_le_bytes 4 m.flags))))

pub encode_surface_create_lem :
    (m : SurfaceCreate) (w : Writer) → encode_surface_create m w ≡ w ++ wire_surface_create m
unfolding encode_surface_create wire_surface_create put_u32
encode_surface_create_lem m w = simp (append_assoc)

pub decode-wire_surface_create :
    (m : SurfaceCreate) (rest : List ℕ)
    → FitsSurfaceCreate m
    → decode_surface_create (wire_surface_create m ++ rest) ≡ ok m
unfolding decode_surface_create wire_surface_create
decode-wire_surface_create m rest h =
    simp (run-at, append_assoc, unsigned-at, h.surface_id, h.width, h.height, h.format, h.flags)

pub record FitsSurfaceDestroy (m : SurfaceDestroy) : Type 0 where
  pub surface_id : IsU32 m.surface_id

unfoldable pub wire_surface_destroy : SurfaceDestroy → List ℕ
wire_surface_destroy m = to_le_bytes 4 m.surface_id

pub encode_surface_destroy_lem :
    (m : SurfaceDestroy) (w : Writer) → encode_surface_destroy m w ≡ w ++ wire_surface_destroy m
unfolding encode_surface_destroy wire_surface_destroy put_u32
encode_surface_destroy_lem m w = refl

pub decode-wire_surface_destroy :
    (m : SurfaceDestroy) (rest : List ℕ)
    → FitsSurfaceDestroy m
    → decode_surface_destroy (wire_surface_destroy m ++ rest) ≡ ok m
unfolding decode_surface_destroy wire_surface_destroy
decode-wire_surface_destroy m rest h = simp (run-at, unsigned-at, h.surface_id)

pub record FitsMode (m : Mode) : Type 0 where
  pub x_res : IsU32 m.x_res
  pub y_res : IsU32 m.y_res
  pub bits : IsU32 m.bits

unfoldable pub wire_mode : Mode → List ℕ
wire_mode m = to_le_bytes 4 m.x_res ++ (to_le_bytes 4 m.y_res ++ (to_le_bytes 4 m.bits))

pub encode_mode_lem : (m : Mode) (w : Writer) → encode_mode m w ≡ w ++ wire_mode m
unfolding encode_mode wire_mode put_u32
encode_mode_lem m w = simp (append_assoc)

pub decode-wire_mode :
    (m : Mode) (rest : List ℕ) → FitsMode m → decode_mode (wire_mode m ++ rest) ≡ ok m
unfolding decode_mode wire_mode
decode-wire_mode m rest h = simp (run-at, append_assoc, unsigned-at, h.x_res, h.y_res, h.bits)

pub record FitsHead (m : Head) : Type 0 where
  pub id : IsU32 m.id
  pub surface_id : IsU32 m.surface_id
  pub width : IsU32 m.width
  pub height : IsU32 m.height
  pub x : IsU32 m.x
  pub y : IsU32 m.y
  pub flags : IsU32 m.flags

unfoldable pub wire_head : Head → List ℕ
wire_head m =
    to_le_bytes 4 m.id
    ++ (to_le_bytes 4 m.surface_id
        ++ (to_le_bytes 4 m.width
            ++ (to_le_bytes 4 m.height
                ++ (to_le_bytes 4 m.x ++ (to_le_bytes 4 m.y ++ (to_le_bytes 4 m.flags))))))

pub encode_head_lem : (m : Head) (w : Writer) → encode_head m w ≡ w ++ wire_head m
unfolding encode_head wire_head put_u32
encode_head_lem m w = simp (append_assoc)

pub decode_head-at :
    (m : Head) (pre suf : List ℕ)
    → FitsHead m
    → decode_head (at pre (wire_head m ++ suf)) ≡ ok (m, at (pre ++ wire_head m) suf)
unfolding decode_head wire_head
decode_head-at m pre suf h =
    simp (append_assoc, unsigned-at, h.id, h.surface_id, h.width, h.height, h.x, h.y, h.flags)
