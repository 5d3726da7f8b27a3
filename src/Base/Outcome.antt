-- ===== src/Base/Outcome.antt =====
-- Results of fallible code: `Result<T, String>` with one constructor of `Error` for each message,
-- and `panic` for a Rust panic or a PostgreSQL error raised in the middle of a function.
use Prim.Native.Nat.{ℕ}
use mathlib.Core.Path.{◌≡◌, refl}
use mathlib.Core.Option.{Option, none, some}
use mathlib.Core.Bool.{Bool, true, false}

pub data Error : Type 0 where
  -- digest
  unknown_encoding_mode unknown_algorithm : Error
  bad_state_length bad_state_hex_length : ℕ → Error
  bad_state_hex : ℕ → Error
  -- text codecs of the transport
  odd_hex_length bad_hex_byte : ℕ → Error
  lsn_without_slash bad_lsn_high bad_lsn_low lsn_word_out_of_range : Error
  bad_boolean bad_integer timeout_not_positive max_rows_not_positive : Error
  -- libpq
  dsn_has_nul query_has_nul connectdb_null connection_failed query_failed : Error
  unexpected_status : Error
  nonblocking_failed send_failed no_socket consume_failed : Error
  max_parallel_not_positive task_id_not_positive no_result more_than_one_result : Error
  no_wait_event_set add_wait_event_failed wait_failed : Error
  unexpected_shape : ℕ → ℕ → Error
  value_null value_no_storage value_negative_length value_not_utf8 : ℕ → Error

pub data Result {ℓ} (T : Type ℓ) : Type ℓ where
  panic : Result T
  err : Error → Result T
  ok : T → Result T

-- `ok_or`: a missing value is the error `e`.
abbrev pub ok_or {ℓ} : {T : Type ℓ} → Option T → Error → Result T
ok_or none e = err e
ok_or (some v) e = ok v

-- `if !test { return Err(e) }`.
abbrev pub guard : Bool → Error → Result (Unit {0})
guard test e = elim test [ true ↦ ok tt | false ↦ err e ]

-- `?`: what is not `ok` ends the function.
infixl 5 ◌>>=◌ ◌>>◌
abbrev pub ◌>>=◌ {ℓ κ} : {S : Type ℓ} {T : Type κ} → Result S → (S → Result T) → Result T
panic >>= next = panic
err e >>= next = err e
ok v >>= next = next v

abbrev pub ◌>>◌ {ℓ κ} : {S : Type ℓ} {T : Type κ} → Result S → Result T → Result T
first >> second = first >>= λ _. second

-- Inversion of a successful bind.
pub >>=-eq-ok {ℓ κ} :
    {S : Type ℓ} {T : Type κ} (m : Result S) (next : S → Result T) {t : T}
    → (m >>= next) ≡ ok t
    → (v : S) × (m ≡ ok v) × (next v ≡ ok t)
>>=-eq-ok panic next h = cc
>>=-eq-ok (err e) next h = cc
>>=-eq-ok (ok v) next h = (v, refl, h)

pub ok_inj {ℓ} : {A : Type ℓ} {a b : A} → ◌≡◌ {A = Result A} (ok a) (ok b) → a ≡ b
ok_inj e = cc

pub >>=_assoc {ℓ κ μ} :
    {A : Type ℓ} {B : Type κ} {C : Type μ} (m : Result A) (f : A → Result B) (g : B → Result C)
    → ((m >>= f) >>= g) ≡ (m >>= λ a. f a >>= g)
>>=_assoc (ok a) f g = refl
>>=_assoc (err e) f g = refl
>>=_assoc panic f g = refl

pub >>=_cong {ℓ κ} :
    {A : Type ℓ} {B : Type κ} (m : Result A) (f g : A → Result B)
    → ((a : A) → f a ≡ g a)
    → (m >>= f) ≡ (m >>= g)
>>=_cong (ok a) f g h = h a
>>=_cong (err e) f g h = refl
>>=_cong panic f g h = refl

pub ok_or_inj {ℓ} : {A : Type ℓ} (o : Option A) (e : Error) {a : A} → ok_or o e ≡ ok a → o ≡ some a
ok_or_inj none e h = cc
ok_or_inj (some b) e h = cc
