-- ===== src/Worker.antt =====
-- worker.rs: what the workers ask of PostgreSQL, and the order in which they ask it.
--
-- A worker's computation takes what it did so far, the latest first, and returns its result and
-- what it did then. What PostgreSQL answers may depend on all that was done before. The texts of
-- log messages are left out.
pub mod Statements
pub mod Injection
pub mod Task
pub mod Main
pub mod Order
pub mod Claim
pub mod Patience
pub mod Scheduler
pub mod Tests
use pgl_validate.Base.{
  ℕ, ◌^◌, ◌%◌, ◌-◌, Bool, true, false, List, [], ◌∷◌, ◌++◌, Option, none, some, if◌then◌else◌, ltb,
}
use pgl_validate.Base.Int.{ℤ, pos, negsuc}
use pgl_validate.Base.Text.{Bytes}

-- `Result<T, String>` with the message, and `raised` for an ERROR of PostgreSQL, which ends the
-- worker.
pub data Reply (A : Type 0) : Type 0 where
  raised : Reply A
  failed : Bytes → Reply A
  answered : A → Reply A

-- `transaction` is one SPI statement in a transaction of its own, `waited` a wait for the latch with
-- its milliseconds.
pub data Event : Type 0 where
  attached reloaded logged : Event
  connected_to registered : Bytes → Event
  transaction : Bytes → Event
  waited : ℕ → Event
  launched : ℤ → Bytes → Event

abbrev pub History : Type 0
History = List Event

pub record Server : Type 0 where
  -- `Spi::get_one` for a text, an int4 and a boolean, and `Spi::run`
  pub get_text : History → Bytes → Reply (Option Bytes)
  pub get_int : History → Bytes → Reply (Option ℤ)
  pub get_bool : History → Bytes → Reply (Option Bool)
  pub run : History → Bytes → Reply (Unit {0})
  -- `BackgroundWorker::wait_latch`: false when the worker has to end
  pub wait_latch : History → ℕ → Bool
  pub sighup_received : History → Bool
  -- `Instant::now` in milliseconds
  pub now : History → ℕ
  -- the setting `scheduler_interval_ms`
  pub interval_ms : History → ℤ
  -- `BackgroundWorker::get_extra`
  pub extra : Bytes
  -- `serde_json::from_str` to a list of texts
  pub decode_list : Bytes → Reply (List Bytes)
  -- `load_dynamic`, and the process of `wait_for_startup`
  pub load_dynamic : History → Option (Option ℤ)

abbrev pub W : Type 0 → Type 0
W A = History → Reply A × History

abbrev pub next : {A B : Type 0} → Reply A → (A → W B) → W B
next (answered a) f t = f a t
next (failed e) f t = (failed e, t)
next raised f t = (raised, t)

infixl 5 ◌>>=◌ ◌>>◌
abbrev pub ◌>>=◌ : {A B : Type 0} → W A → (A → W B) → W B
◌>>=◌ m f t = let (r, t') = m t in next r f t'

abbrev pub ◌>>◌ : {A B : Type 0} → W A → W B → W B
m >> k = m >>= λ _. k

abbrev pub give : {A : Type 0} → Reply A → W A
give r t = (r, t)

abbrev pub done : Event → W (Unit {0})
done e t = (answered tt, e ∷ t)

-- `map_err(|err| format!("{context}{err}"))`.
unfoldable pub with_context : {A : Type 0} → Bytes → Reply A → Reply A
with_context context (answered a) = answered a
with_context context (failed e) = failed (context ++ e)
with_context context raised = raised

-- `BackgroundWorker::transaction` with one statement.
unfoldable pub transact : {A : Type 0} → (History → Bytes → Reply A) → Bytes → Bytes → W A
transact answer context sql t = (with_context context (answer t sql), transaction sql ∷ t)

-- `unwrap_or`.
abbrev pub unwrap_or : {A : Type 0} → Option A → A → A
unwrap_or none d = d
unwrap_or (some a) d = a

-- `as i32` of a `usize`, and `as u64` of an `i32`.
unfoldable pub usize_as_i32 : ℕ → ℤ
usize_as_i32 n = let w = n % 2 ^ 32 in if ltb w (2 ^ 31) then pos w else negsuc (2 ^ 32 - w - 1)

unfoldable pub i32_as_u64 : ℤ → ℕ
i32_as_u64 (pos n) = n
i32_as_u64 (negsuc n) = 2 ^ 64 - n - 1
