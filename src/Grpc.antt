-- ===== src/Grpc.antt =====
-- core/src/grpc/grpc.server.ts: the two handlers. A caller is known by the internal key in the metadata.
-- Beside core's tables stands what Redis held when a verdict was last written, which no code reads.
mod Locking
mod Examples
use code_warzz.Redis.{Strings}
use code_warzz.Redis.Lock.{
  LockStep, LockResult, not_acquired, returned, threw, with_distributed_lock, run_steps,
}
use code_warzz.Submission.{Submission, SubmissionUpdate, is_ac, get_submission_by_id}
use code_warzz.Submission as Submissions
use code_warzz.Submission.Service.{Encoding, Core, update_submission}
use code_warzz.EventStore.{Weather}
use code_warzz.Prelude.{
  ℕ, Bool, true, false, Option, none, some, List, [], ◌∷◌, map, ◌==◌, if◌then◌else◌, is_some,
  get_or, ◌≡◌, refl, inl, inr, Bool-cases,
}

-- `callback({ code, … })`, or `callback(null, …)`
pub data Status (A : Type 0) : Type 0 where
  unauthenticated not_found internal : Status A
  answered : A → Status A

-- `authenticateInternalCall`: the first value of the header, if there is one
unfoldable pub authenticate_internal_call : ℕ → List ℕ → Bool
authenticate_internal_call internal_key [] = false
authenticate_internal_call internal_key (key ∷ keys) = key == internal_key

-- a testcase as the repository returns it; a text that is missing is `none`
pub record StoredTestcase : Type 0 where
  pub input : Option ℕ
  pub output : Option ℕ
  pub expected_output : Option ℕ
  pub is_sample : Option Bool

pub record StoredProblem : Type 0 where
  pub problem_id : ℕ
  pub time_limit_ms : Option ℕ
  pub memory_limit_mb : Option ℕ
  pub max_score : Option ℕ
  pub testcases : Option (List StoredTestcase)

pub record Testcase : Type 0 where
  pub input : ℕ
  pub expected_output : ℕ
  pub is_sample : Bool

pub record ProblemReply : Type 0 where
  pub problem_id : ℕ
  pub time_limit_ms : ℕ
  pub memory_limit_mb : ℕ
  pub max_score : ℕ
  pub testcases : List Testcase

-- the text ''
abbrev pub empty_text : ℕ
empty_text = 0

abbrev pub served_testcase : StoredTestcase → Testcase
served_testcase tc = record {
  input = get_or tc.input empty_text;
  expected_output = get_or tc.output (get_or tc.expected_output empty_text);
  is_sample = get_or tc.is_sample false;
}

-- `getProblem`; the lookup is `none` if the repository throws. The CPU limit is left out.
unfoldable pub get_problem : ℕ → List ℕ → Option (Option StoredProblem) → Status ProblemReply
unfolding authenticate_internal_call
get_problem internal_key keys lookup =
    if authenticate_internal_call internal_key keys
    then elim lookup [
      | none ↦ internal
      | some none ↦ not_found
      | some (some p) ↦ answered (record {
        problem_id = p.problem_id;
        time_limit_ms = get_or p.time_limit_ms 2000;
        memory_limit_mb = get_or p.memory_limit_mb 256;
        max_score = get_or p.max_score 100;
        testcases = map served_testcase (get_or p.testcases []);
      })
    ]
    else unauthenticated

-- the request of `persistVerdict`
pub record VerdictRequest : Type 0 where
  pub submission_id : ℕ
  pub verdict : Submissions.Verdict
  pub score : ℕ
  pub time_taken_ms : ℕ
  pub passed_testcases : ℕ
  pub total_testcases : ℕ

-- `updateData`
abbrev pub update_of : VerdictRequest → SubmissionUpdate
update_of r = record {
  verdict = some r.verdict;
  score = some r.score;
  time_taken_ms = some r.time_taken_ms;
  memory_used_mb = none;
  passed_testcases = some r.passed_testcases;
  total_testcases = some r.total_testcases;
}

abbrev pub status_of_update : Option (Option Submission) → Status (Unit {0})
status_of_update none = internal
status_of_update (some s) = answered tt

abbrev pub status_of_lock : LockResult → Status (Unit {0})
status_of_lock not_acquired = internal
status_of_lock threw = internal
status_of_lock returned = answered tt

pub set_nx-beside :
    (redis : Strings) (S : Type 0) (k v : ℕ) (d : redis.Db) (t : S)
    → ◌≡◌ {A = (redis.Db × S) × Bool}
        (((redis.set_nx k v d).0, t), (redis.set_nx k v d).1)
        (if is_some (redis.get k d) then ((d, t), false) else ((redis.set k v d, t), true))
set_nx-beside redis S k v d t = elim (Bool-cases (is_some (redis.get k d))) [
  | inl e ↦ rw (redis.set_nx_lem k v d, e) refl
  | inr e ↦ rw (redis.set_nx_lem k v d, e) refl
]

-- the string commands beside another state, which they leave alone
abbrev pub beside : Strings → Type 0 → Strings
beside redis S = record {
  Db = redis.Db × S;
  get = λ k p. redis.get k p.0;
  set = λ k v p. (redis.set k v p.0, p.1);
  set_nx = λ k v p. (((redis.set_nx k v p.0).0, p.1), (redis.set_nx k v p.0).1);
  del = λ k p. (redis.del k p.0, p.1);
  pexpire = λ k ms p. (redis.pexpire k ms p.0, p.1);
  get-set = λ k v key p. redis.get-set k v key p.0;
  get-del = λ k key p. redis.get-del k key p.0;
  get-pexpire = λ k ms key p. redis.get-pexpire k ms key p.0;
  set_nx_lem = λ k v p. set_nx-beside redis S k v p.0 p.1;
}

module _ (redis : Strings) (key_of : ℕ → ℕ → ℕ) (e : Encoding) where
  -- core's tables, and the keys in Redis as they were when a verdict was last written to the tables
  pub record CoreState : Type 0 where
    pub core : Core
    pub keys_at_write : Option redis.Db

  -- `updateSubmission` for the request, and whether it returns
  unfoldable pub write_verdict :
      VerdictRequest
      → (ℕ → Weather)
      → redis.Db × CoreState
      → (redis.Db × CoreState) × Option (Option Submission)
  write_verdict r appends (keys, t) =
      let (db', result) = update_submission e r.submission_id (update_of r) appends t.core in
      ((keys, record { core = db'; keys_at_write = some keys }), result)

  -- the callback of `withDistributedLock`: before the write, while the service is imported, other
  -- processes take their steps on the lock
  unfoldable pub locked_write :
      ℕ
      → VerdictRequest
      → (ℕ → Weather)
      → List LockStep
      → redis.Db × CoreState
      → (redis.Db × CoreState) × Bool
  unfolding write_verdict
  locked_write key r appends others (keys, t) =
      let (state, result) = write_verdict r appends ((run_steps redis key others keys).0, t) in
      (state, is_some result)

  -- `updateSubmission` in `withDistributedLock`, under the key of the user and the problem; `value` is
  -- the lock's own
  unfoldable pub update_locked :
      ℕ
      → Submission
      → VerdictRequest
      → (ℕ → Weather)
      → List LockStep
      → redis.Db × CoreState
      → (redis.Db × CoreState) × Status (Unit {0})
  unfolding locked_write
  update_locked value s r appends others state =
      let key = key_of s.user_id s.problem_id in
      let (state', outcome) =
        with_distributed_lock (beside redis CoreState) key value (locked_write key r appends others)
          state in
      (state', status_of_lock outcome)

  unfoldable pub update_plainly :
      VerdictRequest
      → (ℕ → Weather)
      → redis.Db × CoreState
      → (redis.Db × CoreState) × Status (Unit {0})
  unfolding write_verdict
  update_plainly r appends state =
      let (state', result) = write_verdict r appends state in (state', status_of_update result)

  -- `persistVerdict`
  unfoldable pub persist_verdict :
      ℕ
      → List ℕ
      → ℕ
      → VerdictRequest
      → (ℕ → Weather)
      → List LockStep
      → redis.Db × CoreState
      → (redis.Db × CoreState) × Status (Unit {0})
  unfolding authenticate_internal_call update_locked update_plainly
  persist_verdict internal_key metadata value r appends others (keys, t) =
      let plain = update_plainly r appends (keys, t) in
      if authenticate_internal_call internal_key metadata
      then if is_ac r.verdict
        then elim (get_submission_by_id r.submission_id t.core.submissions) [
          | none ↦ plain
          | some s ↦ update_locked value s r appends others (keys, t)
        ]
        else plain
      else ((keys, t), unauthenticated)
