-- ===== src/SqlApi/Tests.antt =====
-- The theorems on sql_api.rs applied to concrete values.
use mathlib.Core.List.{perm_append_comm}
use pgl_validate.Base.{ℕ, zero, suc, ◌%◌, ◌≡◌, refl, ap, [], ◌∷◌, none, some, ok, arith, length}
use pgl_validate.Base.Text.{Bytes, All, IsByte}
use pgl_validate.Digest.Blake3.{Blake3, IsBlake3}
use pgl_validate.Digest.LtHash.{default, add_all}
use pgl_validate.SqlApi.State.{LthashState, to_core, lthash_bytes}
use pgl_validate.SqlApi.Aggregate.{Plan, scan, gather, rows, run, present, run_lem, run-Perm}
use pgl_validate.Base.{panic, ◌^◌}
use pgl_validate.Base.Int.{pos, as_i64}
use pgl_validate.Base.Text.{codes}
use pgl_validate.Transport.Session.{Libpq}
use pgl_validate.Transport.Target.{Target}
use pgl_validate.SqlApi.Barriers.{
  remote_wait_slot_confirm_lsn, remote_observe_barrier, remote_standby_replay_lag, high_lsn_refused,
}
use pgl_validate.Transport.FanOut.Tests.{servers, calm, two_tasks}
use pgl_validate.SqlApi.Remote.{remote_checksum_batch}
use pgl_validate.SqlApi.Batch.{Answered, remote_checksum_batch-Answered}

-- A stand-in for BLAKE3 whose digests repeat the length of the message.
abbrev filled : ℕ → ℕ → Bytes
filled zero c = []
filled (suc n) c = (c % 256) ∷ filled n c

length-filled : (n c : ℕ) → length (filled n c) ≡ n
length-filled zero c = refl
length-filled (suc n) c = ap suc (length-filled n c)

filled-All : (n c : ℕ) → All IsByte (filled n c)
filled-All zero c = tt
filled-All (suc n) c = (omega arith, filled-All n c)

abbrev pub length_hash : Blake3
length_hash = record {
  finalize = λ m. filled 32 (length m);
  finalize_xof = λ m n. filled n (length m);
}

pub length_hash-IsBlake3 : IsBlake3 length_hash
length_hash-IsBlake3 = record {
  length_hash = λ m. length-filled 32 (length m);
  bytes_hash = λ m. filled-All 32 (length m);
  length_xof = λ m n. length-filled n (length m);
  bytes_xof = λ m n. filled-All n (length m);
}

abbrev digest_a : Bytes
digest_a = 1 ∷ []

abbrev digest_b : Bytes
digest_b = 2 ∷ 3 ∷ []

abbrev serial : Plan
serial = scan (some digest_a ∷ none ∷ some digest_b ∷ [])

abbrev parallel : Plan
parallel = gather (scan (some digest_b ∷ [])) (gather (scan []) (scan (some digest_a ∷ [])))

rows-serial : present (rows serial) ≡ digest_a ∷ digest_b ∷ []
unfolding present rows
rows-serial = refl

rows-parallel : present (rows parallel) ≡ digest_b ∷ digest_a ∷ []
unfolding present rows
rows-parallel = refl

run_lem_example :
    (s : LthashState) × (run length_hash parallel ≡ ok s)
    × (to_core s ≡ add_all length_hash default (present (rows parallel)))
run_lem_example = run_lem length_hash parallel length_hash-IsBlake3

run-Perm_example :
    (s : LthashState) × (t : LthashState) × (run length_hash serial ≡ ok s)
    × (run length_hash parallel ≡ ok t)
    × (lthash_bytes s ≡ lthash_bytes t)
run-Perm_example =
    run-Perm length_hash serial parallel length_hash-IsBlake3
      (rw (rows-serial, rows-parallel) (perm_append_comm (digest_a ∷ []) (digest_b ∷ [])))

-- No connection is ever made.
abbrev unreachable : Libpq
unreachable = record {
  on_connectdb = λ t dsn. none;
  on_exec = λ t sql. none;
  on_setnonblocking = λ t enabled. pos 0;
  on_send_query = λ t sql. pos 0;
  on_socket = λ t. pos 0;
  on_consume_input = λ t. pos 0;
  on_is_busy = λ t. pos 0;
  on_get_result = λ t. none;
}

abbrev target : Target
target = record {
  dsn = codes "host=a";
  connect_timeout_seconds = pos 5;
  statement_timeout_ms = pos 9;
  lock_timeout_ms = pos 7;
}

high_lsn_refused_example :
    (remote_wait_slot_confirm_lsn unreachable target (codes "s") (as_i64 (2 ^ 63)) [] ≡ (panic, []))
    × (remote_observe_barrier unreachable target (codes "s") (codes "t") (as_i64 (2 ^ 63)) []
        ≡ (panic, []))
    × (remote_standby_replay_lag unreachable target (as_i64 (2 ^ 63)) [] ≡ (panic, []))
high_lsn_refused_example =
    high_lsn_refused unreachable target (codes "s") (codes "t") (2 ^ 63) [] (omega arith)
      (omega arith)

-- The JSON is its list of tasks.
remote_checksum_batch-Answered_example :
    Answered servers two_tasks (remote_checksum_batch some servers calm 4 9 two_tasks (pos 1))
remote_checksum_batch-Answered_example =
    remote_checksum_batch-Answered some servers calm 4 9 two_tasks two_tasks (pos 1) refl
