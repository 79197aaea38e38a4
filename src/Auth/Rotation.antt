-- ===== src/Auth/Rotation.antt =====
-- A refresh token is good for one refresh.
use code_warzz.Auth.{
  Crypto, UserRow, Session, ok, err, unauthorized, holds_token, find_user_by_refresh_token,
  update_refresh_token, generate_tokens, start_session, refresh_session,
}
use code_warzz.Auth.Requests.{
  AuthRequest, time_of, requests, NoneHolds-unknown, unknown-NoneHolds, requests-NoneHolds,
}
use code_warzz.Prelude.{
  ℕ, ◌<◌, ◌≡◌, refl, sym, ap, ◌∙◌, ◌≢◌, inl, inr, true, false, Option, none, some, List, [], ◌∷◌,
  arith, ◌==◌, Bool-cases, Option-cases, All,
}

module _ (c : Crypto) where
  -- a stored token that was made for its row
  abbrev pub IsOwn : ℕ → Option ℕ → Type 0
  IsOwn id none = Unit
  IsOwn id (some token) = (t : ℕ) × (token ≡ c.sign_refresh id t)

  abbrev pub TokensOwn : List UserRow → Type 0
  TokensOwn = All (λ r. IsOwn r.id r.refresh_token)

  -- An old token of the user is found in no row once the user has another.
  old-not_found :
      (id issued new : ℕ) (rows : List UserRow)
      → new ≢ c.sign_refresh id issued
      → TokensOwn rows
      → find_user_by_refresh_token (c.sign_refresh id issued) (update_refresh_token id new rows)
        ≡ none
  unfolding find_user_by_refresh_token update_refresh_token
  old-not_found id issued new [] other h = refl
  old-not_found id issued new (r ∷ rows) other (o, h) =
      let ih = old-not_found id issued new rows other h in
      elim (Bool-cases (r.id == id)) [
        | inl e ↦ rw e (ground (arith))
        | inr e ↦ rw e (rw (not_held r.id r.refresh_token o (ground arith)) ih)
      ]
    where
      not_held :
          (i : ℕ) (stored : Option ℕ)
          → IsOwn i stored
          → i ≢ id
          → holds_token (c.sign_refresh id issued) stored ≡ false
      not_held i none own ne = refl
      not_held i (some token) (t, own) ne = ground (arith, c.sign_refresh-id i id t issued)

  found-own :
      (token : ℕ) (rows : List UserRow) (u : UserRow)
      → TokensOwn rows
      → find_user_by_refresh_token token rows ≡ some u
      → (t : ℕ) × (token ≡ c.sign_refresh u.id t)
  unfolding find_user_by_refresh_token
  found-own token [] u h e = absurd cc
  found-own token (r ∷ rows) u (o, h) e = elim (Bool-cases (holds_token token r.refresh_token)) [
    | inl found ↦
        let same : r ≡ u = ground arith in
        let (t, own) = own_of r.id r.refresh_token o found in
        (t, own ∙ ap (λ (x : UserRow). c.sign_refresh x.id t) same)
    | inr other ↦ found-own token rows u h (rw other at e)
  ]
    where
      own_of :
          (i : ℕ) (stored : Option ℕ)
          → IsOwn i stored
          → holds_token token stored ≡ true
          → (t : ℕ) × (token ≡ c.sign_refresh i t)
      own_of i none own found = absurd cc
      own_of i (some k) (t, own) found = (t, ground arith)

  -- Where a refresh comes from.
  refresh_session-inv :
      (old now : ℕ) (rows rows' : List UserRow) (session : Session)
      → refresh_session c (some old) now rows ≡ (rows', ok session)
      → (u : UserRow) × (find_user_by_refresh_token old rows ≡ some u)
        × (rows' ≡ update_refresh_token u.id (c.sign_refresh u.id now) rows)
        × (session.refresh_token ≡ c.sign_refresh u.id now)
  unfolding refresh_session start_session generate_tokens
  refresh_session-inv old now rows rows' session e = elim (Bool-cases (c.verify_refresh old now)) [
    | inr v ↦ absurd (ground arith)
    | inl v ↦ elim (Option-cases (find_user_by_refresh_token old rows)) [
      | inl n ↦ absurd (ground arith)
      | inr (u, f) ↦ (u, f, ground arith, ground arith)
    ]
  ]

  refresh_session-unknown :
      (token now : ℕ) (rows : List UserRow)
      → find_user_by_refresh_token token rows ≡ none
      → refresh_session c (some token) now rows ≡ (rows, err unauthorized)
  unfolding refresh_session
  refresh_session-unknown token now rows n = ground arith

  -- If the stored tokens were made for their users, a refresh token that has been used at a later second
  -- than that of its issue is refused from then on, at any time and whatever sign-ups, sign-ins and
  -- refreshes of anybody, with the old token or another, come in between at seconds behind its
  -- issue; and the refusal changes nothing.
  pub refresh_session-rotates :
      (id issued now later : ℕ) (rows rows' : List UserRow) (session : Session)
      (between : List AuthRequest)
      → TokensOwn rows
      → refresh_session c (some (c.sign_refresh id issued)) now rows ≡ (rows', ok session)
      → issued < now
      → All (λ q. issued < time_of q) between
      → refresh_session c (some (c.sign_refresh id issued)) later (requests c between rows')
        ≡ (requests c between rows', err unauthorized)
  refresh_session-rotates id issued now later rows rows' session between h e used behind =
      let old = c.sign_refresh id issued in
      let (u, found, stored, new) = refresh_session-inv old now rows rows' session e in
      let (t, own) = found-own old rows u h found in
      let changed : c.sign_refresh u.id now ≢ c.sign_refresh u.id t =
        λ same. absurd (omega (arith, c.sign_refresh-time u.id id now issued (same ∙ sym own))) in
      let gone =
        ap (λ k. find_user_by_refresh_token k rows') own
        ∙ ap (find_user_by_refresh_token (c.sign_refresh u.id t)) stored
        ∙ old-not_found u.id t (c.sign_refresh u.id now) rows changed h in
      refresh_session-unknown old later (requests c between rows') (
        NoneHolds-unknown old (requests c between rows')
          (requests-NoneHolds c id issued between rows' behind (unknown-NoneHolds old rows' gone)))
