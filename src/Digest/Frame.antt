-- ===== src/Digest/Frame.antt =====
-- digest/encode.rs: `frame_value`, the framing of the values of a row.
use pgl_validate.Base.{
  ◌%◌, ◌^◌, ◌<◌, ◌≡◌, ◌≢◌, refl, sym, ap, ◌∙◌, List, [], ◌∷◌, ◌++◌, append_assoc, append-nil,
  Option, none, some, arith, length, append_split, cons_inj,
}
use pgl_validate.Base.Text.{Bytes, All}
use pgl_validate.Base.Words.{to_le, to_le_inj, length-to_le}
use pgl_validate.Digest.Blake3.{update}

-- The hasher after one value; the length is cast to `u32`.
unfoldable pub frame_value : Bytes → Option Bytes → Bytes
frame_value hasher none = update hasher (0x00 ∷ [])
frame_value hasher (some bytes) =
    let h1 = update hasher (0x01 ∷ []) in
    let h2 = update h1 (to_le 4 (length bytes % 2 ^ 32)) in update h2 bytes

-- The hasher after the values in order.
unfoldable pub frame_values : Bytes → List (Option Bytes) → Bytes
frame_values hasher [] = hasher
frame_values hasher (v ∷ vs) = frame_values (frame_value hasher v) vs

-- What one value adds.
unfoldable pub frame : Option Bytes → Bytes
frame none = 0 ∷ []
frame (some bytes) = 1 ∷ (to_le 4 (length bytes % 2 ^ 32) ++ bytes)

abbrev pub frames : List (Option Bytes) → Bytes
frames [] = []
frames (v ∷ vs) = frame v ++ frames vs

-- A length that the four bytes of a frame can hold.
abbrev pub Fits : Option Bytes → Type 0
Fits none = Unit
Fits (some bytes) = length bytes < 2 ^ 32

frame_value-frame : (hasher : Bytes) (v : Option Bytes) → frame_value hasher v ≡ hasher ++ frame v
unfolding frame_value frame
frame_value-frame hasher none = refl
frame_value-frame hasher (some bytes) = simp append_assoc

pub frame_values-frames :
    (hasher : Bytes) (vs : List (Option Bytes)) → frame_values hasher vs ≡ hasher ++ frames vs
unfolding frame_values
frame_values-frames hasher [] = sym (append-nil hasher)
frame_values-frames hasher (v ∷ vs) =
    rw (frame_values-frames (frame_value hasher v) vs, frame_value-frame)
      (append_assoc hasher (frame v) (frames vs))

length_field : Bytes → Bytes
length_field x = to_le 4 (length x % 2 ^ 32)

length_field_inj :
    (x y : Bytes)
    → length x < 2 ^ 32
    → length y < 2 ^ 32
    → length_field x ≡ length_field y
    → length x ≡ length y
unfolding length_field
length_field_inj x y hx hy e =
    omega (arith, to_le_inj 4 (length x % 2 ^ 32) (length y % 2 ^ 32) (omega arith) (omega arith) e)

same_length_field : (x y : Bytes) → length (length_field x) ≡ length (length_field y)
unfolding length_field
same_length_field x y = length-to_le 4 _ ∙ sym (length-to_le 4 _)

-- No frame is the beginning of another one.
frame_prefix_free :
    (v w : Option Bytes) (r s : Bytes)
    → Fits v
    → Fits w
    → frame v ++ r ≡ frame w ++ s
    → (v ≡ w) × (r ≡ s)
unfolding frame length_field
frame_prefix_free none none r s hv hw e = (refl, (cons_inj e).1)
frame_prefix_free none (some y) r s hv hw e = absurd (ground (arith, (cons_inj e).0))
frame_prefix_free (some x) none r s hv hw e = absurd (ground (arith, (cons_inj e).0))
frame_prefix_free (some x) (some y) r s hv hw e =
    let (field, rest) =
      append_split (length_field x) (length_field y) (x ++ r) (y ++ s) (same_length_field x y) (
        sym (append_assoc (length_field x) x r)
        ∙ (cons_inj e).1
        ∙ append_assoc (length_field y) y s) in
    let (p, q) = append_split x y r s (length_field_inj x y hv hw field) rest in (ap some p, q)

frame_ne_nil : (v : Option Bytes) (r : Bytes) → frame v ++ r ≢ []
unfolding frame
frame_ne_nil none r e = cc
frame_ne_nil (some x) r e = cc

frames_inj :
    (vs ws : List (Option Bytes)) → All Fits vs → All Fits ws → frames vs ≡ frames ws → vs ≡ ws
frames_inj [] [] hv hw e = refl
frames_inj [] (w ∷ ws) hv hw e = absurd (frame_ne_nil w (frames ws) (sym e))
frames_inj (v ∷ vs) [] hv hw e = absurd (frame_ne_nil v (frames vs) e)
frames_inj (v ∷ vs) (w ∷ ws) hv hw e =
    let (p, q) = frame_prefix_free v w (frames vs) (frames ws) hv.0 hw.0 e in
    cc (p, frames_inj vs ws hv.1 hw.1 q)

-- Rows whose framing is the same are the same rows, of the same number of columns: NULL, the empty
-- value and every other value are told apart, and no bytes move from one column to the next. Each
-- value must be shorter than 2 ^ 32 bytes.
pub frame_values_inj :
    (vs ws : List (Option Bytes))
    → All Fits vs
    → All Fits ws
    → frame_values [] vs ≡ frame_values [] ws
    → vs ≡ ws
frame_values_inj vs ws hv hw e =
    frames_inj vs ws hv hw (sym (frame_values-frames [] vs) ∙ e ∙ frame_values-frames [] ws)
