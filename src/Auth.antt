-- ===== src/Auth.antt =====
-- Who may do what in core: core/src/service/auth.service.ts, core/src/repository/auth.repository.ts and
-- the middlewares auth.middleware.ts and csrf.middleware.ts of core/src/middlewares.
-- The libraries for passwords and tokens are an interface; times are seconds.
pub mod Access
pub mod Csrf
mod Requests
mod Rotation
mod Escalation
mod Examples
use code_warzz.Prelude.{
  ℕ, ◌+◌, ◌≤◌, ◌<◌, ◌≡◌, Bool, true, false, Option, none, some, List, [], ◌∷◌, ◌++◌, ◌==◌,
  if◌then◌else◌, is_some,
}

pub data Role : Type 0 where
  user admin system : Role

-- bcryptjs and jsonwebtoken with the two secrets
pub record Crypto : Type 0 where
  pub hash : ℕ → ℕ → ℕ  -- a password and a salt
  pub compare_password : ℕ → ℕ → Bool
  pub sign_access : ℕ → Role → ℕ → ℕ  -- an id, a role and the time; it is valid for 15 minutes
  pub verify_access : ℕ → ℕ → Option (ℕ × Role)  -- a token and the time
  pub sign_refresh : ℕ → ℕ → ℕ  -- an id and the time; it is valid for 7 days
  pub verify_refresh : ℕ → ℕ → Bool
  pub compare_password-hash : (p salt : ℕ) → compare_password p (hash p salt) ≡ true
  pub verify_access-sign_access :
      (id : ℕ) (role : Role) (issued now : ℕ)
      → issued ≤ now
      → now < issued + 900
      → verify_access (sign_access id role issued) now ≡ some (id, role)
  pub sign_refresh-id : (i j s t : ℕ) → sign_refresh i s ≡ sign_refresh j t → i ≡ j
  -- a token carries its time of issue, in seconds
  pub sign_refresh-time : (i j s t : ℕ) → sign_refresh i s ≡ sign_refresh j t → s ≡ t

-- a row of `users`
pub record UserRow : Type 0 where
  pub id : ℕ
  pub username : ℕ
  pub email : ℕ
  pub password_hash : ℕ
  pub role : Role
  pub refresh_token : Option ℕ

pub data AuthError : Type 0 where
  conflict unauthorized bad_request forbidden : AuthError

pub data Result {ℓ} (A : Type ℓ) : Type ℓ where
  ok : A → Result A
  err : AuthError → Result A

pub record Session : Type 0 where
  pub access_token : ℕ
  pub refresh_token : ℕ
  pub id : ℕ
  pub role : Role

abbrev pub is_admin_role : Role → Bool
is_admin_role admin = true
is_admin_role _ = false

-- `findFirst`
abbrev pub find_row : (UserRow → Bool) → List UserRow → Option UserRow
find_row test [] = none
find_row test (r ∷ rows) = let rest = find_row test rows in if test r then some r else rest

unfoldable pub find_user_by_email : ℕ → List UserRow → Option UserRow
find_user_by_email email = find_row (λ r. r.email == email)

abbrev pub holds_token : ℕ → Option ℕ → Bool
holds_token token none = false
holds_token token (some t) = t == token

unfoldable pub find_user_by_refresh_token : ℕ → List UserRow → Option UserRow
find_user_by_refresh_token token = find_row (λ r. holds_token token r.refresh_token)

unfoldable pub update_refresh_token : ℕ → ℕ → List UserRow → List UserRow
update_refresh_token id token [] = []
update_refresh_token id token (r ∷ rows) =
    (if r.id == id then record r { refresh_token = some token } else r)
    ∷ update_refresh_token id token rows

-- the body of a sign-up
pub record SignUp : Type 0 where
  pub username : ℕ
  pub email : ℕ
  pub password : ℕ
  pub role : Option Role

-- `role === 'admin' ? 'admin' : 'user'`, with the default
abbrev pub user_role : Option Role → Role
user_role none = user
user_role (some r) = if is_admin_role r then admin else user

module _ (c : Crypto) where
  -- `generateTokens`
  unfoldable pub generate_tokens : UserRow → ℕ → Session
  generate_tokens u now = record {
    access_token = c.sign_access u.id u.role now;
    refresh_token = c.sign_refresh u.id now;
    id = u.id;
    role = u.role;
  }

  -- `signUp`; the id and the salt are fresh
  unfoldable pub sign_up : ℕ → ℕ → SignUp → List UserRow → List UserRow × Result UserRow
  unfolding find_user_by_email
  sign_up fresh_id salt d rows =
      let row : UserRow = record {
        id = fresh_id;
        username = d.username;
        email = d.email;
        password_hash = c.hash d.password salt;
        role = user_role d.role;
        refresh_token = none;
      } in
      if is_some (find_user_by_email d.email rows)
      then (rows, err conflict)
      else (rows ++ row ∷ [], ok row)

  -- the tokens are made and the new refresh token is stored
  unfoldable pub start_session : UserRow → ℕ → List UserRow → List UserRow × Result Session
  unfolding generate_tokens update_refresh_token
  start_session u now rows =
      let session = generate_tokens u now in
      (update_refresh_token u.id session.refresh_token rows, ok session)

  -- `signIn`
  unfoldable pub sign_in : ℕ → ℕ → ℕ → List UserRow → List UserRow × Result Session
  unfolding find_user_by_email start_session
  sign_in email password now rows = elim (find_user_by_email email rows) [
    | none ↦ (rows, err unauthorized)
    | some u ↦
        if c.compare_password password u.password_hash
        then start_session u now rows
        else (rows, err unauthorized)
  ]

  -- `refreshToken`
  unfoldable pub refresh_session : Option ℕ → ℕ → List UserRow → List UserRow × Result Session
  unfolding find_user_by_refresh_token start_session
  refresh_session none now rows = (rows, err bad_request)
  refresh_session (some token) now rows =
      if c.verify_refresh token now
      then elim (find_user_by_refresh_token token rows) [
        | none ↦ (rows, err unauthorized)
        | some u ↦ start_session u now rows
      ]
      else (rows, err unauthorized)
