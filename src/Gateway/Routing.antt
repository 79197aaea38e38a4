-- ===== src/Gateway/Routing.antt =====
-- Where the gateway sends a request.
use code_warzz.Gateway.{
  api, v1, leaderboard, stream, live, contest, top, proxied, resolver_error, leaderboard_service,
  core_service, route,
}
use code_warzz.Prelude.{
  ℕ, ◌≡◌, refl, Bool, true, false, ◌&&◌, ◌||◌, List, [], ◌∷◌, arith, ◌==◌, length,
}

-- The live standings of a contest cannot be asked for: the resolver takes the segment behind the contest
-- for the contest, whatever it is, and fails where there is none.
pub route-live :
    (is_get : Bool) (id : ℕ) (rest : List ℕ)
    → (route is_get (api ∷ v1 ∷ leaderboard ∷ live ∷ id ∷ []) ≡ resolver_error)
      × ((next : ℕ)
          → route is_get (api ∷ v1 ∷ leaderboard ∷ live ∷ id ∷ next ∷ rest)
            ≡ proxied leaderboard_service (api ∷ v1 ∷ leaderboard ∷ contest ∷ next ∷ top ∷ []))
unfolding route
route-live true id rest = (refl, λ next. refl)
route-live false id rest = (refl, λ next. refl)

-- the two prefixes that do not lead to core
abbrev pub is_local : Bool → List ℕ → Bool
is_local is_get (a ∷ b ∷ c ∷ d ∷ rest) =
    a == api
    && b == v1
    && c == leaderboard
    && (d == live || (d == stream && is_get && length rest == 1))
is_local is_get _ = false

-- Every other path under /api/v1 reaches core as it is.
pub route-core :
    (is_get : Bool) (path : List ℕ)
    → is_local is_get (api ∷ v1 ∷ path) ≡ false
    → route is_get (api ∷ v1 ∷ path) ≡ proxied core_service (api ∷ v1 ∷ path)
unfolding route
route-core is_get [] h = ground arith
route-core is_get (a ∷ []) h = ground arith
route-core is_get (a ∷ b ∷ []) h = ground arith
route-core is_get (a ∷ b ∷ c ∷ []) h = ground arith
route-core is_get (a ∷ b ∷ c ∷ d ∷ rest) h = ground arith
