-- ===== src/Redis/Idempotency.antt =====
-- core/src/middlewares/idempotency.middleware.ts: running a request once per key.
-- The rounds of `withIdempotency` and the polls of one wait (5000 ms, one each 50 ms) are bounded by
-- fuel; what other processes do between two polls is an argument. A stored text is the number of the
-- value that it is the JSON of, and the value `null` is a parameter, as is the claim's "PENDING".
use code_warzz.Redis.{Strings}
use code_warzz.Prelude.{
  ℕ, zero, suc, ◌+◌, ◌≡◌, refl, sym, ap, ◌∙◌, ◌≢◌, inl, inr, Bool, false, Option, none, some, arith,
  ◌==◌, if◌then◌else◌, ==_refl, Option-cases, is_some, true,
}

pub data Result : Type 0 where
  executed : ℕ → Result  -- `fn` ran and returned this
  failed : Result  -- `fn` ran and threw
  cached : ℕ → Result
  concurrent : Result  -- "Concurrent execution in progress"
  out_of_rounds : Result  -- it is still waiting

abbrev pub max_polls : ℕ
max_polls = 100

module _ (redis : Strings) (key : ℕ) where
  open redis use {Db, get, set}

  -- `isIdempotent`
  unfoldable pub is_idempotent : Db → Bool
  is_idempotent db = is_some (get key db)

  -- `markProcessed`
  unfoldable pub mark_processed : ℕ → Db → Db
  mark_processed result db = set key result db

module _ (redis : Strings) (key pending null : ℕ) where
  open redis use {Db, get, set, set_nx, del, get-set, get-del, set_nx_lem}

  -- what `JSON.parse` gives back: `null` cannot be told from the `null` of an entry that is gone
  abbrev pub parsed : ℕ → Option ℕ
  parsed v = if v == null then none else some v

  -- `waitForResult`: polls left, and the number of the next one
  unfoldable pub wait_for_result : (ℕ → Db → Db) → ℕ → ℕ → Db → Db × Option ℕ
  wait_for_result others zero i db = (db, none)
  wait_for_result others (suc polls) i db =
      let rest = wait_for_result others polls (i + 1) (others i db) in
      elim (get key db) [
        | none ↦ (db, none)
        | some v ↦ if v == pending then rest else (db, parsed v)
      ]

  -- what the winner of the claim does: the work, then the result or the release; `stores` says
  -- whether the SETEX of a result succeeds. That of `undefined`, which has no JSON, does not.
  unfoldable pub execute_claimed : (ℕ → Bool) → (Db → Db × Option ℕ) → Db → Db × Result
  execute_claimed stores fn db = elim ((fn db).1) [
    | some result ↦
        if stores result
        then (set key result (fn db).0, executed result)
        else (del key (fn db).0, failed)
    | none ↦ (del key (fn db).0, failed)
  ]

  -- what the loser of the claim makes of the end of its wait
  abbrev pub after_wait : Db → Option ℕ → Db × Result → Db × Result
  after_wait db none again = again
  after_wait db (some v) again = if v == pending then (db, concurrent) else (db, cached v)

  -- `withIdempotency`: the rounds left, and what the others do in each
  unfoldable pub with_idempotency :
      (ℕ → ℕ → Db → Db) → (ℕ → Bool) → ℕ → (Db → Db × Option ℕ) → Db → Db × Result
  with_idempotency others stores zero fn db = (db, out_of_rounds)
  with_idempotency others stores (suc rounds) fn db =
      let (db', claimed) = set_nx key pending db in
      let (db'', answer) = wait_for_result (others rounds) max_polls 0 db' in
      let again = with_idempotency others stores rounds fn db'' in
      if claimed then execute_claimed stores fn db' else after_wait db'' answer again

  round_free :
      (others : ℕ → ℕ → Db → Db) (stores : ℕ → Bool) (rounds : ℕ) (fn : Db → Db × Option ℕ)
      (db : Db)
      → get key db ≡ none
      → with_idempotency others stores (suc rounds) fn db
        ≡ execute_claimed stores fn (set key pending db)
  unfolding with_idempotency
  round_free others stores rounds fn db h = rw (set_nx_lem key pending db, h) refl

  round_taken :
      (others : ℕ → ℕ → Db → Db) (stores : ℕ → Bool) (rounds : ℕ) (fn : Db → Db × Option ℕ)
      (db : Db) (v : ℕ)
      → get key db ≡ some v
      → let (db', answer) = wait_for_result (others rounds) max_polls 0 db in
        with_idempotency others stores (suc rounds) fn db
        ≡ after_wait db' answer (with_idempotency others stores rounds fn db')
  unfolding with_idempotency
  round_taken others stores rounds fn db v h = rw (set_nx_lem key pending db, h) refl

  wait-pending :
      (others : ℕ → Db → Db) (polls i : ℕ) (db : Db)
      → (wait_for_result others polls i db).1 ≢ some pending
  unfolding wait_for_result
  wait-pending others zero i db h = cc
  wait-pending others (suc polls) i db h = elim (Option-cases (get key db)) [
    | inl e ↦ cc
    | inr (v, e) ↦ ground (arith, wait-pending others polls (i + 1) (others i db))
  ]

  wait-answered :
      (others : ℕ → Db → Db) (polls i : ℕ) (db : Db) (v : ℕ)
      → get key db ≡ some v
      → v == pending ≡ false
      → wait_for_result others (suc polls) i db ≡ (db, parsed v)
  unfolding wait_for_result
  wait-answered others polls i db v h ne = rw (h, ne, wait_for_result) refl

  -- The claim of another process, kept as long as it is there.
  wait-claimed :
      (others : ℕ → Db → Db) (polls i : ℕ) (db : Db)
      → ((n : ℕ) (d : Db) → get key d ≡ some pending → get key (others n d) ≡ some pending)
      → get key db ≡ some pending
      → ((wait_for_result others polls i db).1 ≡ none)
        × (get key (wait_for_result others polls i db).0 ≡ some pending)
  unfolding wait_for_result
  wait-claimed others zero i db keep h = (refl, h)
  wait-claimed others (suc polls) i db keep h =
      let (nothing, still) = wait-claimed others polls (i + 1) (others i db) keep (keep i db h) in
      (ground arith, ground arith)

  execute-ne-concurrent :
      (stores : ℕ → Bool) (fn : Db → Db × Option ℕ) (db : Db)
      → (execute_claimed stores fn db).1 ≢ concurrent
  unfolding execute_claimed
  execute-ne-concurrent stores fn db h = ground arith

  after_wait-ne-concurrent :
      (db : Db) (answer : Option ℕ) (again : Db × Result)
      → answer ≢ some pending
      → again.1 ≢ concurrent
      → (after_wait db answer again).1 ≢ concurrent
  after_wait-ne-concurrent db none again a b h = b h
  after_wait-ne-concurrent db (some v) again a b h = ground arith

  -- The error "Concurrent execution in progress" is never thrown: the wait for the other caller's
  -- result ends with a result or with nothing, never with the claim itself.
  pub with_idempotency-ne-concurrent :
      (others : ℕ → ℕ → Db → Db) (stores : ℕ → Bool) (rounds : ℕ) (fn : Db → Db × Option ℕ)
      (db : Db)
      → (with_idempotency others stores rounds fn db).1 ≢ concurrent
  with_idempotency-ne-concurrent others stores zero fn db h = unfold with_idempotency in cc
  with_idempotency-ne-concurrent others stores (suc rounds) fn db h =
      let (db', answer) = wait_for_result (others rounds) max_polls 0 db in
      let quiet = wait-pending (others rounds) max_polls 0 db in
      let later = with_idempotency-ne-concurrent others stores rounds fn db' in
      elim (Option-cases (get key db)) [
        | inl e ↦
            execute-ne-concurrent stores fn (set key pending db)
              (sym (ap (λ (p : Db × Result). p.1) (round_free others stores rounds fn db e)) ∙ h)
        | inr (v, e) ↦
            after_wait-ne-concurrent db' answer (with_idempotency others stores rounds fn db') quiet
              later
              (sym (ap (λ (p : Db × Result). p.1) (round_taken others stores rounds fn db v e)) ∙ h)
      ]

  -- While another caller's claim stands, a call runs no work and does not return: it waits in every
  -- round, however many there are.
  pub with_idempotency-waits :
      (others : ℕ → ℕ → Db → Db) (stores : ℕ → Bool) (rounds : ℕ) (fn : Db → Db × Option ℕ)
      (db : Db)
      → ((r n : ℕ) (d : Db) → get key d ≡ some pending → get key (others r n d) ≡ some pending)
      → get key db ≡ some pending
      → ((with_idempotency others stores rounds fn db).1 ≡ out_of_rounds)
        × (get key (with_idempotency others stores rounds fn db).0 ≡ some pending)
  with_idempotency-waits others stores zero fn db keep h = unfold with_idempotency in (refl, h)
  with_idempotency-waits others stores (suc rounds) fn db keep h =
      let (nothing, still) = wait-claimed (others rounds) max_polls 0 db (keep rounds) h in
      let rest =
        with_idempotency-waits others stores rounds fn
          (wait_for_result (others rounds) max_polls 0 db).0 keep still in
      rw (round_taken others stores rounds fn db pending h, nothing) rest

  execute-stored :
      (stores : ℕ → Bool) (fn : Db → Db × Option ℕ) (db : Db) (result : ℕ)
      → (fn db).1 ≡ some result
      → stores result ≡ true
      → (execute_claimed stores fn db ≡ (set key result (fn db).0, executed result))
        × (get key (set key result (fn db).0) ≡ some result)
  unfolding execute_claimed
  execute-stored stores fn db result e up =
      (rw (e, execute_claimed, up) refl, get-set key result key (fn db).0 ∙ rw (==_refl key) refl)

  -- A call that finds a stored `null` runs no work, changes nothing and does not return: it takes the
  -- `null` for a claim that has expired, in every round, however many there are.
  null-found :
      (others : ℕ → ℕ → Db → Db) (stores : ℕ → Bool) (rounds : ℕ) (fn : Db → Db × Option ℕ)
      (db : Db)
      → get key db ≡ some null
      → null == pending ≡ false
      → with_idempotency others stores rounds fn db ≡ (db, out_of_rounds)
  null-found others stores zero fn db h ne = unfold with_idempotency in refl
  null-found others stores (suc rounds) fn db h ne =
      let found = wait-answered (others rounds) 99 0 db null h ne in
      rw (round_taken others stores rounds fn db null h, found, ==_refl null)
        (null-found others stores rounds fn db h ne)

  -- If the work of the first call for a free key returns `null` and this can be stored, the call returns
  -- it; but every later call runs no work, changes nothing and does not return, however many rounds
  -- it is given, for as long as the entry stands.
  pub with_idempotency-null :
      (others others' : ℕ → ℕ → Db → Db) (stores stores' : ℕ → Bool) (rounds rounds' : ℕ)
      (fn fn' : Db → Db × Option ℕ) (db : Db)
      → get key db ≡ none
      → (fn (set key pending db)).1 ≡ some null
      → null == pending ≡ false
      → stores null ≡ true
      → let first = with_idempotency others stores (suc rounds) fn db in
        (first.1 ≡ executed null)
        × (with_idempotency others' stores' rounds' fn' first.0 ≡ (first.0, out_of_rounds))
  with_idempotency-null others others' stores stores' rounds rounds' fn fn' db h e ne up =
      let (done, kept) = execute-stored stores fn (set key pending db) null e up in
      rw (round_free others stores rounds fn db h, done)
        (
          refl,
          null-found others' stores' rounds' fn' (set key null (fn (set key pending db)).0) kept ne,
        )

  -- If the work of a call for a free key throws, the call fails and the key is free again.
  pub with_idempotency-frees :
      (others : ℕ → ℕ → Db → Db) (stores : ℕ → Bool) (rounds : ℕ) (fn : Db → Db × Option ℕ)
      (db : Db)
      → get key db ≡ none
      → (fn (set key pending db)).1 ≡ none
      → ((with_idempotency others stores (suc rounds) fn db).1 ≡ failed)
        × (get key (with_idempotency others stores (suc rounds) fn db).0 ≡ none)
  with_idempotency-frees others stores rounds fn db h e =
      let freed = (fn (set key pending db)).0 in
      let done : execute_claimed stores fn (set key pending db) ≡ (del key freed, failed) =
        unfold execute_claimed in rw (e, execute_claimed) refl in
      rw (round_free others stores rounds fn db h, done)
        (refl, get-del key key freed ∙ rw (==_refl key) refl)
