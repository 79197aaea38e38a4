-- ===== src/Auth/Escalation.antt =====
-- What anybody can do with the API, and what the CSRF check asks for.
use code_warzz.Auth.{
  Crypto, Role, admin, UserRow, SignUp, is_admin_role, user_role, Session, ok, find_row,
  find_user_by_email, update_refresh_token, generate_tokens, start_session, sign_up, sign_in,
}
use code_warzz.Auth.Access.{Headers, next_as, verify_token, is_admin}
use code_warzz.Auth.Csrf.{
  CsrfRequest, passed, is_safe, is_key, sent_token, compare_tokens, csrf_protection, auth_prefix,
}
use code_warzz.RateLimit.Rules.{Text, starts_with}
use code_warzz.Submission.{Submission}
use code_warzz.Prelude.{
  ℕ, ◌+◌, ◌≤◌, ◌<◌, ◌≡◌, refl, sym, ap, ◌∙◌, ◌↔◌, Bool, true, false, Option, none, some, List, [],
  ◌∷◌, ◌++◌, arith, ◌==◌, ==_refl, get_or,
}

module _ (c : Crypto) where
  find_row-snoc :
      (test : UserRow → Bool) (rows : List UserRow) (row : UserRow)
      → find_row test rows ≡ none
      → test row ≡ true
      → find_row test (rows ++ row ∷ []) ≡ some row
  find_row-snoc test [] row n e = rw e refl
  find_row-snoc test (r ∷ rows) row n e = ground (arith, find_row-snoc test rows row)

  -- the headers with a cookie
  abbrev pub with_cookie : ℕ → Headers
  with_cookie token = record { bearer = none; access_cookie = some token; internal_api_key = none }

  -- the row that a sign-up stores
  abbrev pub row_for : ℕ → ℕ → SignUp → UserRow
  row_for fresh_id salt d = record {
    id = fresh_id;
    username = d.username;
    email = d.email;
    password_hash = c.hash d.password salt;
    role = user_role d.role;
    refresh_token = none;
  }

  sign_up-new :
      (fresh_id salt : ℕ) (d : SignUp) (rows : List UserRow)
      → find_user_by_email d.email rows ≡ none
      → (sign_up c fresh_id salt d rows).0 ≡ rows ++ row_for fresh_id salt d ∷ []
  unfolding sign_up
  sign_up-new fresh_id salt d rows n = rw n refl

  sign_in-found :
      (email password now : ℕ) (rows : List UserRow) (u : UserRow)
      → find_user_by_email email rows ≡ some u
      → c.compare_password password u.password_hash ≡ true
      → sign_in c email password now rows ≡ start_session c u now rows
  unfolding sign_in
  sign_in-found email password now rows u f e = rw (f, sign_in, e) refl

  verified :
      (token id now : ℕ) (role : Role)
      → c.verify_access token now ≡ some (id, role)
      → is_admin_role role ≡ true
      → is_admin c (verify_token c (with_cookie token) now)
        ≡ next_as (record { id = id; role = role })
  unfolding verify_token is_admin
  verified token id now role v a = rw (v, a) refl

  -- Whoever signs up with a new address and asks for the role of an administrator can sign in and then
  -- passes the check for administrators, for as long as the access token is valid.
  pub sign_up-admin :
      (fresh_id salt now later : ℕ) (d : SignUp) (rows : List UserRow)
      → find_user_by_email d.email rows ≡ none
      → d.role ≡ some admin
      → now ≤ later
      → later < now + 900
      → (rows' : List UserRow) × (session : Session) × (sign_in c d.email d.password now
            (sign_up c fresh_id salt d rows).0
          ≡ (rows', ok session))
        × (is_admin c (verify_token c (with_cookie session.access_token) later)
            ≡ next_as (record { id = fresh_id; role = admin }))
  unfolding find_user_by_email start_session
  sign_up-admin fresh_id salt now later d rows n a l k =
      let row = row_for fresh_id salt d in
      let found = find_row-snoc (λ r. r.email == d.email) rows row n (==_refl d.email) in
      let session = generate_tokens c row now in
      let valid = c.verify_access-sign_access fresh_id (user_role d.role) now later l k in
      (
        update_refresh_token fresh_id session.refresh_token (rows ++ row ∷ []),
        session,
        ap (sign_in c d.email d.password now) (sign_up-new fresh_id salt d rows n)
            ∙ sign_in-found d.email d.password now (rows ++ row ∷ []) row found
                (c.compare_password-hash d.password salt),
        verified session.access_token fresh_id later (user_role d.role) valid
              (ap (λ o. is_admin_role (user_role o)) a)
            ∙ ap (λ (o : Option Role). next_as (record { id = fresh_id; role = user_role o })) a,
      )

compare_tokens-passed_iff :
    (sent : Option ℕ) (cookie : ℕ) → (compare_tokens sent cookie ≡ passed) ↔ (sent ≡ some cookie)
compare_tokens-passed_iff none cookie = (λ e. absurd (ground arith), λ e. absurd (ground arith))
compare_tokens-passed_iff (some token) cookie = (λ e. ground arith, λ e. ground arith)

-- A request that is not safe, has neither the internal key nor a bearer token, and goes to a path under
-- /api/, is let through exactly if it sends the token of its cookie, or the random one if it has no
-- cookie. The paths of sign-in, sign-up and refresh, /api/v1/auth/…, are no exception.
pub csrf_protection-passed_iff :
    (random : ℕ) (configured : Option ℕ) (r : CsrfRequest) (rest : Text)
    → r.path ≡ b'/' ∷ b'a' ∷ b'p' ∷ b'i' ∷ b'/' ∷ rest
    → is_safe r.method ≡ false
    → is_key r.internal_api_key configured ≡ false
    → r.is_bearer ≡ false
    → ((csrf_protection random configured r).1 ≡ passed)
      ↔ (sent_token r.csrf_header r.csrf_field ≡ some (get_or r.csrf_cookie random))
unfolding csrf_protection starts_with
csrf_protection-passed_iff random configured r rest p s k b =
    let api : starts_with r.path auth_prefix ≡ false = ap (λ t. starts_with t auth_prefix) p in
    let sent = sent_token r.csrf_header r.csrf_field in
    let cookie = get_or r.csrf_cookie random in
    let same : (csrf_protection random configured r).1 ≡ compare_tokens sent cookie =
      rw (s, k, b, api) refl in
    let (there, back) = compare_tokens-passed_iff sent cookie in
    (λ e. there (sym same ∙ e), λ e. same ∙ back e)
