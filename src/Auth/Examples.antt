-- ===== src/Auth/Examples.antt =====
-- Users 7 and 8; user 7 has a refresh token of time 10.
use code_warzz.Auth.{
  Crypto, Role, user, admin, system, UserRow, Session, err, unauthorized, refresh_session,
}
use code_warzz.Auth.Csrf.{CsrfRequest, missing, absent, csrf_protection}
use code_warzz.Auth.Requests.{AuthRequest, refreshes, signs_in, requests}
use code_warzz.Auth.Rotation.{refresh_session-rotates}
use code_warzz.RateLimit.Rules.{post, starts_with}
use code_warzz.Submission.{wa, ac, Submission, SubmissionUpdate}
use code_warzz.Submission.Service.{Encoding, Core}
use code_warzz.EventStore.{empty_object, Weather}
use code_warzz.Prelude.{
  ℕ, ◌+◌, ◌*◌, ◌/◌, ◌%◌, ◌≤◌, ◌<◌, ◌≡◌, refl, ap, true, false, Option, none, some, List, [], ◌∷◌,
  arith, ◌==◌, if◌then◌else◌, ==_refl,
}

abbrev role_code : Role → ℕ
role_code user = 0
role_code admin = 1
role_code system = 2

abbrev role_of : ℕ → Role
role_of n = if n == 0 then user else if n == 1 then admin else system

decoded :
    (id : ℕ) (role : Role) (issued now : ℕ)
    → issued ≤ now
    → now < issued + 900
    → ◌≡◌ {A = Option (ℕ × Role)}
        (some ((id * 3 + role_code role) / 3, role_of ((id * 3 + role_code role) % 3)))
        (some (id, role))
decoded id user issued now l k = ground arith
decoded id admin issued now l k = ground arith
decoded id system issued now l k = ground arith

-- an id and a time as one number
abbrev pair : ℕ → ℕ → ℕ
pair i t = (i + t) * (i + t) + i

square-lt : (a b : ℕ) → a < b → a * a + a < b * b
square-lt a b h = grind arith

pair-sum : (i j s t : ℕ) → pair i s ≡ pair j t → i + s ≡ j + t
pair-sum i j s t e = ground (arith, square-lt (i + s) (j + t), square-lt (j + t) (i + s))

same_id : (i j s t : ℕ) → pair i s ≡ pair j t → i ≡ j
same_id i j s t e = omega (arith, e, ap (λ (n : ℕ). n * n) (pair-sum i j s t e))

same_time : (i j s t : ℕ) → pair i s ≡ pair j t → s ≡ t
same_time i j s t e = omega (arith, same_id i j s t e, pair-sum i j s t e)

same_password : (p salt : ℕ) → p == p ≡ true
same_password p salt = ==_refl p

-- transparent tokens
abbrev plain : Crypto
plain = record {
  hash = λ p salt. p;
  compare_password = λ p h. p == h;
  sign_access = λ id role now. id * 3 + role_code role;
  verify_access = λ token now. some (token / 3, role_of (token % 3));
  sign_refresh = pair;
  verify_refresh = λ token now. true;
  compare_password-hash = same_password;
  verify_access-sign_access = decoded;
  sign_refresh-id = same_id;
  sign_refresh-time = same_time;
}

abbrev seven : UserRow
seven = record {
  id = 7;
  username = 70;
  email = 700;
  password_hash = 5;
  role = user;
  refresh_token = some (pair 7 10);
}

abbrev rows : List UserRow
rows = seven ∷ []

abbrev rows' : List UserRow
rows' = record seven { refresh_token = some (pair 7 11) } ∷ []

abbrev session : Session
session = record { access_token = 21; refresh_token = pair 7 11; id = 7; role = user }

-- The new token is used, the old one is tried, and the user signs in again.
abbrev between : List AuthRequest
between = refreshes (some (pair 7 11)) 20 ∷ refreshes (some (pair 7 10)) 21 ∷ signs_in 700 5 22 ∷ []

refresh_session-rotates_example :
    refresh_session plain (some (pair 7 10)) 30 (requests plain between rows')
    ≡ (requests plain between rows', err unauthorized)
refresh_session-rotates_example =
    refresh_session-rotates plain 7 10 11 30 rows rows' session between ((10, refl), tt)
      (unfold refresh_session in refl) (omega arith) (omega arith, (omega arith, (omega arith, tt)))

abbrev login : CsrfRequest
login = record {
  method = post;
  path =
      b'/' ∷ b'a' ∷ b'p' ∷ b'i' ∷ b'/' ∷ b'v' ∷ b'1' ∷ b'/' ∷ b'a' ∷ b'u' ∷ b't' ∷ b'h' ∷ b'/'
      ∷ b's' ∷ b'i' ∷ b'g' ∷ b'n' ∷ b'i' ∷ b'n' ∷ [];
  csrf_cookie = none;
  internal_api_key = none;
  is_bearer = false;
  csrf_header = none;
  csrf_field = absent;
}

-- A first sign-in is refused.
login_refused : csrf_protection 123 (some 1) login ≡ (some 123, missing)
unfolding csrf_protection starts_with
login_refused = refl

abbrev encoding : Encoding
encoding = record {
  submission_type = 1;
  submission_queued_event = 2;
  run_type = 3;
  run_queued_event = 4;
  exchange = 5;
  routing_key = 6;
  job_to_json = λ job. job.submission_id;
  run_to_json = λ job. job.job_id;
  created_payload = λ d. empty_object;
  completed_payload = λ d. empty_object;
}

-- Submission 30 of user 8 is wrong.
abbrev wrong : Submission
wrong = record {
  id = 30;
  user_id = 8;
  problem_id = 3;
  contest_id = none;
  language = 0;
  code = 0;
  verdict = wa;
  score = 0;
  time_taken_ms = 0;
  memory_used_mb = none;
  passed_testcases = 1;
  total_testcases = 2;
  created_at = 50;
}

abbrev judged : Core
judged = record {
  submissions = wrong ∷ [];
  solved_count = λ u. 0;
  daily_activity = λ u. 0;
  outbox = [];
  events = [];
  run_results = λ j. none;
}

abbrev accept : SubmissionUpdate
accept = record {
  verdict = some ac;
  score = some 100;
  time_taken_ms = none;
  memory_used_mb = none;
  passed_testcases = none;
  total_testcases = none;
}

abbrev calm : ℕ → Weather
calm n = record { rivals = []; database_up = true; publishes = true }
