-- ===== src/Transport/FanOut/Polls.antt =====
-- transport/libpq.rs: `try_finish` comes to an end when the server answers.
use pgl_validate.Base.{
  ℕ, zero, suc, ◌-◌, ◌≤◌, ◌<◌, ◌≡◌, refl, sym, ◌∙◌, Bool, true, false, [], ◌∷◌, Option, none, some,
  Error, Result, ok, err, panic, guard, ltb, Bool-cases, inl, inr, arith, if◌then◌else◌,
}
use pgl_validate.Base.Int.{pos}
use pgl_validate.Transport.QueryResult.{PgResult, same_int}
use pgl_validate.Transport.Session.{
  is_busy, consume_input, get_result, clear, Trace, Libpq, M, next, ◌>>=◌, lift,
}
use pgl_validate.Transport.Session.Async.{consume, busy, with_next, with_next_result}
use pgl_validate.Transport.Replies.Digest.{RemoteChecksum}
use pgl_validate.Transport.FanOut.{
  ActiveChecksumTask, Poll, waiting, finished, again, read_result, complete, read_next, poll,
  after_poll, Finish, try_finish,
}

-- How often the connection was asked whether it is busy, or gave a result.
unfoldable pub polls : Trace → ℕ
polls [] = 0
polls (is_busy answer ∷ t) = suc (polls t)
polls (get_result ∷ t) = suc (polls t)
polls (_ ∷ t) = polls t

-- After `limit` polls of a connection its statements have ended.
abbrev pub Answers : ℕ → Libpq → Type 0
Answers limit lib =
    (t : Trace)
    → limit ≤ polls t
    → (same_int (lib.on_is_busy t) (pos 1) ≡ false) × (lib.on_get_result t ≡ none)

module _ (limit : ℕ) where
  -- What a round of `try_finish` brings nearer to the end, when it is not the last.
  abbrev Nearer : Trace → Result Poll × Trace → Type 0
  Nearer t (ok waiting, t') = limit - polls t' < limit - polls t
  Nearer t (ok (again c), t') = limit - polls t' < limit - polls t
  Nearer t (ok (finished c), t') = Unit
  Nearer t (err e, t') = Unit
  Nearer t (panic, t') = Unit

  read-Nearer :
      (t t' : Trace) (r : Result Poll) → limit - polls t' < limit - polls t → Nearer t (r, t')
  read-Nearer t t' (ok waiting) h = h
  read-Nearer t t' (ok (again c)) h = h
  read-Nearer t t' (ok (finished c)) h = tt
  read-Nearer t t' (err e) h = tt
  read-Nearer t t' panic h = tt

  complete-Nearer : (t t' : Trace) (c : Option RemoteChecksum) → Nearer t (complete c, t')
  unfolding complete
  complete-Nearer t t' none = tt
  complete-Nearer t t' (some c) = tt

  with_next-Nearer :
      (c : Option RemoteChecksum) (t : Trace) (o : Option PgResult)
      → (limit ≤ polls t → o ≡ none)
      → Nearer t (with_next (λ next. lift (read_next c next)) o (is_busy false ∷ consume_input ∷ t))
  unfolding with_next read_next polls
  with_next-Nearer c t none h = complete-Nearer t _ c
  with_next-Nearer c t (some r) h =
      read-Nearer t (clear ∷ get_result ∷ is_busy false ∷ consume_input ∷ t) (read_result c r)
        (elim (Bool-cases (ltb (polls t) limit)) [
          | inl small ↦ ground arith
          | inr large ↦
              let none_left : some r ≡ none = h (ground arith) in absurd (none_some none_left)
        ])
    where
      none_some : {A : Type 0} {x : A} → some x ≡ none → ⊥
      none_some e = cc

  answer-Nearer :
      (body : M Poll) (t : Trace) (answer : Bool)
      → (answer ≡ true → polls t < limit)
      → (answer ≡ false → Nearer t (body (is_busy false ∷ consume_input ∷ t)))
      → Nearer t ((if answer then lift (ok waiting) else body) (is_busy answer ∷ consume_input ∷ t))
  unfolding polls
  answer-Nearer body t true h k = omega (arith, h refl)
  answer-Nearer body t false h k = k refl

  consumed-Nearer :
      (test : Bool) (e : Error) (m : M Poll) (t : Trace)
      → Nearer t (m (consume_input ∷ t))
      → Nearer t (next (guard test e) (λ u. m) (consume_input ∷ t))
  consumed-Nearer true e m t h = h
  consumed-Nearer false e m t h = tt

  poll-Nearer :
      (lib : Libpq) (c : Option RemoteChecksum) (t : Trace)
      → Answers limit lib
      → Nearer t (poll lib c t)
  unfolding poll consume busy with_next_result polls
  poll-Nearer lib c t answers =
      let t1 : Trace = consume_input ∷ t in
      let t2 : Trace = is_busy false ∷ t1 in
      let read : M Poll = with_next_result lib (λ next. lift (read_next c next)) in
      let choose : Bool → M Poll = λ is_busy. if is_busy then lift (ok waiting) else read in
      consumed-Nearer (same_int (lib.on_consume_input t) (pos 1)) Error.consume_failed
        (busy lib >>= choose) t
        (answer-Nearer read t (same_int (lib.on_is_busy t1) (pos 1))
          (λ yes. elim (Bool-cases (ltb (polls t) limit)) [
            | inl small ↦ ground arith
            | inr large ↦ absurd (true_false (sym yes ∙ (answers t1 (ground arith)).0))
          ])
          (λ no. with_next-Nearer c t (lib.on_get_result t2) (λ h. (answers t2 (omega arith)).1)))
    where
      true_false : true ≡ false → ⊥
      true_false e = cc

  -- What is left of the polls of a task, and one for its end.
  abbrev pub weight : ActiveChecksumTask → ℕ
  weight a = suc (limit - polls a.trace)

  -- `try_finish` ends, and brings a task that it leaves active nearer to its end.
  abbrev pub Moves : ActiveChecksumTask → Finish → Type 0
  Moves a none = ⊥
  Moves a (some (ok none, b)) = weight b < weight a
  Moves a (some (ok (some result), b)) = Unit
  Moves a (some (err e, b)) = Unit
  Moves a (some (panic, b)) = Unit

  Moves-trans :
      (a b : ActiveChecksumTask) (out : Finish) → weight b < weight a → Moves b out → Moves a out
  Moves-trans a b none h k = elim k [ ]
  Moves-trans a b (some (ok none, c)) h k = omega arith
  Moves-trans a b (some (ok (some result), c)) h k = tt
  Moves-trans a b (some (err e, c)) h k = tt
  Moves-trans a b (some (panic, c)) h k = tt

  after_poll-Moves :
      (loop : ActiveChecksumTask → Finish) (a : ActiveChecksumTask) (r : Result Poll) (t : Trace)
      → ((b : ActiveChecksumTask) → weight b < weight a → Moves b (loop b))
      → Nearer a.trace (r, t)
      → Moves a (after_poll loop a r t)
  unfolding after_poll
  after_poll-Moves loop a (ok waiting) t hl h = omega (arith, h)
  after_poll-Moves loop a (ok (finished c)) t hl h = tt
  after_poll-Moves loop a (ok (again c)) t hl h =
      let b : ActiveChecksumTask = record a { trace = t; checksum = c } in
      Moves-trans a b (loop b) (omega (arith, h)) (hl b (omega (arith, h)))
  after_poll-Moves loop a (err e) t hl h = tt
  after_poll-Moves loop a panic t hl h = tt

  pub try_finish-Moves :
      (lib : Libpq)
      → Answers limit lib
      → (fuel : ℕ) (a : ActiveChecksumTask) → weight a ≤ fuel
      → Moves a (try_finish lib fuel a)
  unfolding try_finish
  try_finish-Moves lib answers zero a h = absurd (omega arith)
  try_finish-Moves lib answers (suc fuel) a h =
      after_poll-Moves (try_finish lib fuel) a _ _
        (λ b lighter. try_finish-Moves lib answers fuel b (omega arith))
        (poll-Nearer lib a.checksum a.trace answers)
