-- ===== src/Auth/Requests.antt =====
-- What the requests of anybody do to a refresh token that no row holds any more.
use code_warzz.Auth.{
  SignUp, sign_in, sign_up, find_user_by_email, Crypto, UserRow, holds_token,
  find_user_by_refresh_token, update_refresh_token, generate_tokens, start_session, refresh_session,
}
use code_warzz.Prelude.{
  ℕ, ◌<◌, is_some, All-append, ◌≡◌, refl, ◌≢◌, inl, inr, false, Option, none, some, List, [], ◌∷◌,
  arith, ◌==◌, Bool-cases, Option-cases, All,
}

-- What anybody asks for behind the refresh, with the time of the request.
pub data AuthRequest : Type 0 where
  refreshes : Option ℕ → ℕ → AuthRequest
  signs_in : ℕ → ℕ → ℕ → AuthRequest  -- an address and a password
  signs_up : ℕ → ℕ → SignUp → ℕ → AuthRequest  -- a fresh id and a salt

abbrev pub time_of : AuthRequest → ℕ
time_of (refreshes token now) = now
time_of (signs_in email password now) = now
time_of (signs_up fresh_id salt d now) = now

-- no token, or another one
abbrev pub IsOther : ℕ → Option ℕ → Type 0
IsOther old none = Unit
IsOther old (some token) = token ≢ old

abbrev pub NoneHolds : ℕ → List UserRow → Type 0
NoneHolds old = All (λ r. IsOther old r.refresh_token)

pub NoneHolds-unknown :
    (old : ℕ) (rows : List UserRow)
    → NoneHolds old rows
    → find_user_by_refresh_token old rows ≡ none
unfolding find_user_by_refresh_token
NoneHolds-unknown old [] h = refl
NoneHolds-unknown old (r ∷ rows) (o, h) =
    rw (not_held r.refresh_token o) (NoneHolds-unknown old rows h)
  where
    not_held : (stored : Option ℕ) → IsOther old stored → holds_token old stored ≡ false
    not_held none own = refl
    not_held (some token) own = elim (Bool-cases (token == old)) [
      | inl e ↦ absurd (own (ground arith))
      | inr e ↦ e
    ]

pub unknown-NoneHolds :
    (old : ℕ) (rows : List UserRow)
    → find_user_by_refresh_token old rows ≡ none
    → NoneHolds old rows
unfolding find_user_by_refresh_token
unknown-NoneHolds old [] h = tt
unknown-NoneHolds old (r ∷ rows) h = elim (Bool-cases (holds_token old r.refresh_token)) [
  | inl e ↦ absurd (ground arith)
  | inr e ↦ (held r.refresh_token e, unknown-NoneHolds old rows (rw e at h))
]
  where
    held : (stored : Option ℕ) → holds_token old stored ≡ false → IsOther old stored
    held none e = tt
    held (some token) e = λ same. ground arith

update_refresh_token-NoneHolds :
    (old id new : ℕ) (rows : List UserRow)
    → new ≢ old
    → NoneHolds old rows
    → NoneHolds old (update_refresh_token id new rows)
unfolding update_refresh_token
update_refresh_token-NoneHolds old id new [] ne h = tt
update_refresh_token-NoneHolds old id new (r ∷ rows) ne (o, h) =
    let rest = update_refresh_token-NoneHolds old id new rows ne h in
    elim (Bool-cases (r.id == id)) [ inl e ↦ rw e (ne, rest) | inr e ↦ rw e (o, rest) ]

module _ (c : Crypto) where
  unfoldable pub request : AuthRequest → List UserRow → List UserRow
  request (refreshes token now) rows = (refresh_session c token now rows).0
  request (signs_in email password now) rows = (sign_in c email password now rows).0
  request (signs_up fresh_id salt d now) rows = (sign_up c fresh_id salt d rows).0

  unfoldable pub requests : List AuthRequest → List UserRow → List UserRow
  requests [] rows = rows
  requests (q ∷ qs) rows = requests qs (request q rows)

  start_session-NoneHolds :
      (id issued now : ℕ) (u : UserRow) (rows : List UserRow)
      → issued < now
      → NoneHolds (c.sign_refresh id issued) rows
      → NoneHolds (c.sign_refresh id issued) (start_session c u now rows).0
  unfolding start_session generate_tokens
  start_session-NoneHolds id issued now u rows later h =
      update_refresh_token-NoneHolds (c.sign_refresh id issued) u.id (c.sign_refresh u.id now) rows
        (λ same. absurd (omega (arith, c.sign_refresh-time u.id id now issued same))) h

  module _ (id issued now : ℕ) (rows : List UserRow) (later : issued < now)
      (h : NoneHolds (c.sign_refresh id issued) rows) where
    abbrev StillNone : List UserRow → Type 0
    StillNone = NoneHolds (c.sign_refresh id issued)

    refresh_session-NoneHolds : (token : Option ℕ) → StillNone (refresh_session c token now rows).0
    unfolding refresh_session
    refresh_session-NoneHolds none = h
    refresh_session-NoneHolds (some t) = elim (Bool-cases (c.verify_refresh t now)) [
      | inr v ↦ rw v h
      | inl v ↦ elim (Option-cases (find_user_by_refresh_token t rows)) [
        | inl n ↦ rw (v, n) h
        | inr (u, f) ↦ rw (v, f) (start_session-NoneHolds id issued now u rows later h)
      ]
    ]

    sign_in-NoneHolds : (email password : ℕ) → StillNone (sign_in c email password now rows).0
    unfolding sign_in
    sign_in-NoneHolds email password = elim (Option-cases (find_user_by_email email rows)) [
      | inl n ↦ rw (n, sign_in) h
      | inr (u, f) ↦ elim (Bool-cases (c.compare_password password u.password_hash)) [
        | inr v ↦ rw (f, sign_in, v) h
        | inl v ↦ rw (f, sign_in, v) (start_session-NoneHolds id issued now u rows later h)
      ]
    ]

    sign_up-NoneHolds :
        (fresh_id salt : ℕ) (d : SignUp) → StillNone (sign_up c fresh_id salt d rows).0
    unfolding sign_up
    sign_up-NoneHolds fresh_id salt d =
        elim (Bool-cases (is_some (find_user_by_email d.email rows))) [
          | inl v ↦ rw v h
          | inr v ↦ rw v (
              All-append (λ r. IsOther (c.sign_refresh id issued) r.refresh_token) rows _ h
                (tt, tt))
        ]

  request-NoneHolds :
      (id issued : ℕ) (q : AuthRequest) (rows : List UserRow)
      → issued < time_of q
      → NoneHolds (c.sign_refresh id issued) rows
      → NoneHolds (c.sign_refresh id issued) (request q rows)
  unfolding request
  request-NoneHolds id issued (refreshes token now) rows later h =
      refresh_session-NoneHolds id issued now rows later h token
  request-NoneHolds id issued (signs_in email password now) rows later h =
      sign_in-NoneHolds id issued now rows later h email password
  request-NoneHolds id issued (signs_up fresh_id salt d now) rows later h =
      sign_up-NoneHolds id issued now rows later h fresh_id salt d

  pub requests-NoneHolds :
      (id issued : ℕ) (qs : List AuthRequest) (rows : List UserRow)
      → All (λ q. issued < time_of q) qs
      → NoneHolds (c.sign_refresh id issued) rows
      → NoneHolds (c.sign_refresh id issued) (requests qs rows)
  unfolding requests
  requests-NoneHolds id issued [] rows later h = h
  requests-NoneHolds id issued (q ∷ qs) rows (l, later) h =
      requests-NoneHolds id issued qs (request q rows) later
        (request-NoneHolds id issued q rows l h)
