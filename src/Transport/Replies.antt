-- ===== src/Transport/Replies.antt =====
-- transport/libpq.rs: the records that the functions return, and how they read them from a result.
pub mod Fence
pub mod Catalog
pub mod Digest
pub mod Printed
use pgl_validate.Base.{Option, none, some, Result, ok, err, panic, ◌>>=◌}
use pgl_validate.Base.Text.{Bytes}

-- `.map(parse).transpose()?` of an optional text.
unfoldable pub parse_opt : {A : Type 0} → (Bytes → Result A) → Option Bytes → Result (Option A)
parse_opt parse none = ok none
parse_opt parse (some text) = parse text >>= λ a. ok (some a)
