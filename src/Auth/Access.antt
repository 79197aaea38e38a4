-- ===== src/Auth/Access.antt =====
-- core/src/middlewares/auth.middleware.ts, and the route PATCH /submissions/:id of
-- core/src/routers/v1/submission.router.ts, which leads to `updateSubmission`.
use code_warzz.Auth.{Crypto, Role, system, is_admin_role, AuthError, unauthorized, forbidden}
use code_warzz.Submission.{Submission, SubmissionUpdate}
use code_warzz.Submission.Service.{Encoding, Core, update_submission}
use code_warzz.EventStore.{Weather}
use code_warzz.Prelude.{ℕ, Option, none, some, ◌==◌, if◌then◌else◌, is_some}

-- `req.user`
pub record Caller : Type 0 where
  pub id : ℕ
  pub role : Role

-- The headers and cookies that are read; a text that is empty is `none`.
pub record Headers : Type 0 where
  pub bearer : Option (Option ℕ)  -- "Authorization: Bearer …", and what stands behind it
  pub access_cookie : Option ℕ
  pub internal_api_key : Option ℕ

-- `next()` with a user or without one, or `next(error)`
pub data Access : Type 0 where
  next_as : Caller → Access
  anonymous : Access
  rejected : AuthError → Access

-- the token that a request carries
abbrev pub token_of : Option (Option ℕ) → Option ℕ → Option ℕ
token_of none cookie = cookie
token_of (some token) cookie = token

-- what the route answers
pub data Reply : Type 0 where
  refused : AuthError → Reply
  invalid : Reply
  updated : Option Submission → Reply
  failed : Reply

abbrev pub reply_of : Option (Option Submission) → Reply
reply_of none = failed
reply_of (some s) = updated s

module _ (c : Crypto) where
  -- `verifyToken`
  unfoldable pub verify_token : Headers → ℕ → Access
  verify_token h now = elim (token_of h.bearer h.access_cookie) [
    | none ↦ rejected unauthorized
    | some token ↦ elim (c.verify_access token now) [
      | none ↦ rejected unauthorized
      | some (id, role) ↦ next_as (record { id = id; role = role })
    ]
  ]

  -- `extractUser`
  unfoldable pub extract_user : Headers → ℕ → Access
  extract_user h now = elim (token_of h.bearer h.access_cookie) [
    | none ↦ anonymous
    | some token ↦ elim (c.verify_access token now) [
      | none ↦ anonymous
      | some (id, role) ↦ next_as (record { id = id; role = role })
    ]
  ]

  -- `verifyInternalOrUser`, with INTERNAL_API_KEY
  unfoldable pub verify_internal_or_user : ℕ → Headers → ℕ → Access
  unfolding verify_token
  verify_internal_or_user internal_key h now = elim h.internal_api_key [
    | none ↦ verify_token h now
    | some key ↦
        if key == internal_key
        then next_as (record { id = 0; role = system })
        else rejected forbidden
  ]

  -- `isAdmin`, behind another middleware
  unfoldable pub is_admin : Access → Access
  is_admin (next_as u) = if is_admin_role u.role then next_as u else rejected forbidden
  is_admin anonymous = rejected forbidden
  is_admin (rejected e) = rejected e

  -- PATCH /submissions/:id: `verifyInternalOrUser`, the schema, which wants a verdict, and the
  -- controller
  unfoldable pub patch_submission :
      Encoding → ℕ → Headers → ℕ → ℕ → SubmissionUpdate → (ℕ → Weather) → Core → Core × Reply
  unfolding verify_internal_or_user
  patch_submission e internal_key h now id d appends db =
      let (db', result) = update_submission e id d appends db in
      elim (verify_internal_or_user internal_key h now) [
        | rejected why ↦ (db, refused why)
        | anonymous ↦ (db, refused unauthorized)
        | next_as u ↦ if is_some d.verdict then (db', reply_of result) else (db, invalid)
      ]
