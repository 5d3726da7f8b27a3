-- ===== src/Digest/RowDigest/Laws.antt =====
-- What the row digest depends on.
use pgl_validate.Base.{
  ◌==◌, ◌≡◌, ◌⊎◌, inl, inr, refl, sym, ap, ◌∙◌, Bool, true, false, List, [], ◌∷◌, Option, Result,
  ok, panic, ◌>>=◌, ok_inj, >>=_assoc, >>=_cong, if◌then◌else◌, length,
}
use pgl_validate.Base.Text.{Bytes, All}
use pgl_validate.Digest.Blake3.{Blake3}
use pgl_validate.Digest.Algorithm.{HashAlgorithm, finalize_blake3}
use pgl_validate.Digest.Algorithm.Laws.{Collide, equal_or_Collide}
use pgl_validate.Digest.Frame.{frame_value, frame_values, Fits, frame_values_inj}
use pgl_validate.Digest.Encode.{EncodingMode, Postgres, FloatPolicy, expect}
use pgl_validate.Digest.RowDigest.{
  Argument, CallInfo, no_arguments, call, to_modes, encode_argument, row_loop, row_digest,
}

module _ (pg : Postgres) (policy : FloatPolicy) where
  open pg use {Datum}

  -- The encoded values of a row: what the digest is meant to identify.
  unfoldable pub encode_row :
      List EncodingMode → List (Argument Datum) → Result (List (Option Bytes))
  encode_row modes [] = ok []
  encode_row [] (arg ∷ args) = panic
  encode_row (mode ∷ modes) (arg ∷ args) = do
    value ← encode_argument pg policy arg mode
    values ← encode_row modes args
    ok (value ∷ values)

  row_loop-encode_row :
      (hasher : Bytes) (modes : List EncodingMode) (args : List (Argument Datum))
      → row_loop pg policy hasher modes args
        ≡ (encode_row modes args >>= λ values. ok (frame_values hasher values))
  unfolding row_loop encode_row frame_values
  row_loop-encode_row hasher modes [] = refl
  row_loop-encode_row hasher [] (arg ∷ args) = refl
  row_loop-encode_row hasher (mode ∷ modes) (arg ∷ args) =
      >>=_cong (encode_argument pg policy arg mode) _ _
        (λ value. row_loop-encode_row (frame_value hasher value) modes args)
      ∙ sym (
          >>=_assoc (encode_argument pg policy arg mode) _ _
          ∙ >>=_cong (encode_argument pg policy arg mode) _ _
              (λ value. >>=_assoc (encode_row modes args) _ _))

  -- The values that a call encodes: none when `enc` is missing, holds a NULL or an unknown mode,
  -- or does not match the number of values.
  unfoldable pub call_values : CallInfo Datum → Result (List (Option Bytes))
  call_values no_arguments = panic
  call_values (call enc args) = do
    entries ← expect enc
    modes ← to_modes entries
    (if length modes == length args then encode_row modes args else panic)

  row_digest-call_values :
      (b : Blake3) (a : HashAlgorithm) (info : CallInfo Datum)
      → row_digest pg policy b a info
        ≡ (call_values info >>= λ values. ok (finalize_blake3 b a (frame_values [] values)))
  unfolding row_digest call_values
  row_digest-call_values b a no_arguments = refl
  row_digest-call_values b a (call enc args) =
      >>=_cong (expect enc) _ _ (λ entries.
        >>=_cong (to_modes entries) _ _ (λ modes. checked (length modes == length args) modes)
        ∙ sym (>>=_assoc (to_modes entries) _ _))
      ∙ sym (>>=_assoc (expect enc) _ _)
    where
      checked :
          (t : Bool) (modes : List EncodingMode)
          → ((if t then row_loop pg policy [] modes args else panic) >>= λ hasher.
              ok (finalize_blake3 b a hasher))
            ≡ ((if t then encode_row modes args else panic) >>= λ values.
                ok (finalize_blake3 b a (frame_values [] values)))
      checked true modes =
          ap (λ r. r >>= λ hasher. ok (finalize_blake3 b a hasher))
            (row_loop-encode_row [] modes args)
          ∙ >>=_assoc (encode_row modes args) _ _
      checked false modes = refl

  -- Two calls that return the same digest have encoded the same values, column by column, NULLs
  -- included, or else the framings of their values are a collision of BLAKE3. Each encoded value
  -- must be shorter than 2 ^ 32 bytes.
  pub row_digest_inj :
      (b : Blake3) (a : HashAlgorithm) (x y : CallInfo Datum) (vs ws : List (Option Bytes))
      (d : Bytes)
      → call_values x ≡ ok vs
      → call_values y ≡ ok ws
      → All Fits vs
      → All Fits ws
      → row_digest pg policy b a x ≡ ok d
      → row_digest pg policy b a y ≡ ok d
      → (vs ≡ ws) ⊎ Collide b a (frame_values [] vs) (frame_values [] ws)
  row_digest_inj b a x y vs ws d ex ey hv hw dx dy =
      elim (equal_or_Collide b a (frame_values [] vs) (frame_values [] ws)
        (digest_of x vs ex dx ∙ sym (digest_of y ws ey dy))) [
          | inl e ↦ inl (frame_values_inj vs ws hv hw e)
          | inr c ↦ inr c
        ]
    where
      digest_of :
          (info : CallInfo Datum) (us : List (Option Bytes))
          → call_values info ≡ ok us
          → row_digest pg policy b a info ≡ ok d
          → finalize_blake3 b a (frame_values [] us) ≡ d
      digest_of info us e h = ok_inj (
          sym (ap (λ r. r >>= λ values. ok (finalize_blake3 b a (frame_values [] values))) e)
          ∙ (sym (row_digest-call_values b a info) ∙ h))
