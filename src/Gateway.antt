-- ===== src/Gateway.antt =====
-- api-gateway/src/server.ts: the routes. A path is the list of its segments, none of which is empty.
pub mod Events
pub mod Delivery
pub mod Chain
mod Routing
mod Examples
use mathlib.Core.Option
use code_warzz.Prelude.{
  ℕ, Bool, true, false, ◌&&◌, ◌||◌, Option, none, some, List, [], ◌∷◌, map, ◌==◌, if◌then◌else◌,
  get_elem?,
}

-- the segments that routes name, each a number
abbrev pub api : ℕ
api = 0

abbrev pub v1 : ℕ
v1 = 1

abbrev pub leaderboard : ℕ
leaderboard = 2

abbrev pub stream : ℕ
stream = 3

abbrev pub live : ℕ
live = 4

abbrev pub archive : ℕ
archive = 5

abbrev pub contest : ℕ
contest = 6

abbrev pub top : ℕ
top = 7

abbrev pub metrics : ℕ
metrics = 8

abbrev pub health : ℕ
health = 9

pub data Upstream : Type 0 where
  core_service leaderboard_service : Upstream

pub data Reply : Type 0 where
  proxied : Upstream → List ℕ → Reply
  event_stream : ℕ → Reply  -- of a contest
  own_page : Reply  -- /metrics and /health
  resolver_error : Reply  -- "contestId is required for leaderboard live endpoint"
  not_found : Reply

-- the rest of a path behind the path that `app.use` mounts on
unfoldable pub mounted : List ℕ → List ℕ → Option (List ℕ)
mounted [] path = some path
mounted (p ∷ prefix) [] = none
mounted (p ∷ prefix) (q ∷ path) = let rest = mounted prefix path in if q == p then rest else none

-- `proxyReqPathResolver` of /live: `parts[1]` of the path behind the mount
unfoldable pub live_path : List ℕ → Option (List ℕ)
live_path parts =
    Option.map (λ id. api ∷ v1 ∷ leaderboard ∷ contest ∷ id ∷ top ∷ []) (get_elem? parts 1)

abbrev pub live_reply : Option (List ℕ) → Reply
live_reply none = resolver_error
live_reply (some path) = proxied leaderboard_service path

-- the last routes, archive and everything else under /api/v1
unfoldable pub core_route : List ℕ → Reply
unfolding mounted
core_route path = elim (mounted (api ∷ v1 ∷ leaderboard ∷ archive ∷ []) path) [
  | some rest ↦ proxied core_service (api ∷ v1 ∷ leaderboard ∷ archive ∷ rest)
  | none ↦ elim (mounted (api ∷ v1 ∷ []) path) [
    | some rest ↦ proxied core_service (api ∷ v1 ∷ rest)
    | none ↦ not_found
  ]
]

unfoldable pub live_route : List ℕ → Reply
unfolding mounted live_path core_route
live_route path = elim (mounted (api ∷ v1 ∷ leaderboard ∷ live ∷ []) path) [
  | some rest ↦ live_reply (live_path rest)
  | none ↦ core_route path
]

-- `sseRouter.get("/:contestId")`: one segment, and otherwise the next route
abbrev pub stream_reply : List ℕ → Bool → Reply → Reply
stream_reply (id ∷ []) true next = event_stream id
stream_reply _ _ next = next

unfoldable pub stream_route : Bool → List ℕ → Reply
unfolding mounted live_route
stream_route is_get path =
    let next = live_route path in
    elim (mounted (api ∷ v1 ∷ leaderboard ∷ stream ∷ []) path) [
      | some rest ↦ stream_reply rest is_get next
      | none ↦ next
    ]

abbrev pub is_own_page : List ℕ → Bool
is_own_page (p ∷ []) = p == metrics || p == health
is_own_page _ = false

-- the routes in their order
unfoldable pub route : Bool → List ℕ → Reply
unfolding stream_route
route is_get path = if is_get && is_own_page path then own_page else stream_route is_get path
