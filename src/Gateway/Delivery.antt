-- ===== src/Gateway/Delivery.antt =====
-- What one connection receives, whatever the other connections of the gateway do.
use code_warzz.Gateway.Events.{
  Stream, Hub, Event, opens, message, interval, closes, shutdown, Frame, connected, update,
  heartbeat, emit, handle, run, started,
}
use mathlib.Core.List.{append-nil}
use code_warzz.Prelude.{
  ℕ, ◌≡◌, refl, ap, ◌∙◌, inl, inr, Bool, true, false, not, ◌&&◌, ◌||◌, List, [], ◌∷◌, ◌++◌, arith,
  ◌==◌, if◌then◌else◌, ==_iff, Bool-cases, select, contains,
}

-- The life of one connection.
pub data View : Type 0 where
  closed : View
  open_to : ℕ → View  -- on a contest
  deaf : View  -- behind a shutdown: the heartbeat still runs

abbrev pub is_open : View → Bool
is_open closed = false
is_open _ = true

abbrev pub contests_of : View → List ℕ
contests_of (open_to contest) = contest ∷ []
contests_of _ = []

abbrev pub after_shutdown : View → View
after_shutdown (open_to contest) = deaf
after_shutdown v = v

abbrev pub updates : ℕ → List ℕ → List Frame
updates contest [] = []
updates contest (c ∷ cs) =
    let rest = updates contest cs in if c == contest then update ∷ rest else rest

-- An event as one connection sees it.
unfoldable pub view_step : ℕ → Event → View → View × List Frame
view_step conn (opens c contest) v =
    if c == conn then (open_to contest, connected contest ∷ []) else (v, [])
view_step conn (message is_invalidation contest) v =
    (v, if is_invalidation then updates contest (contests_of v) else [])
view_step conn (interval c) v = (v, if c == conn && is_open v then heartbeat ∷ [] else [])
view_step conn (closes c) v = (if c == conn then closed else v, [])
view_step conn shutdown v = (after_shutdown v, [])

unfoldable pub view_run : ℕ → List Event → View → View × List Frame
unfolding view_step
view_run conn [] v = (v, [])
view_run conn (e ∷ events) v =
    let (v', frames) = view_step conn e v in
    let (last, more) = view_run conn events v' in (last, frames ++ more)

-- A connection is opened when it is closed only, as every request is a connection of its own.
abbrev pub MayHappen : ℕ → Event → View → Type 0
MayHappen conn (opens c contest) v = c ≡ conn → v ≡ closed
MayHappen conn _ v = Unit

abbrev pub OpensOnce : ℕ → List Event → View → Type 0
OpensOnce conn [] v = Unit
OpensOnce conn (e ∷ events) v = MayHappen conn e v × OpensOnce conn events (view_step conn e v).0

-- the frames for one connection
abbrev pub frames_to : ℕ → List (ℕ × Frame) → List Frame
frames_to conn [] = []
frames_to conn ((c, f) ∷ frames) =
    let rest = frames_to conn frames in if c == conn then f ∷ rest else rest

abbrev contests : ℕ → List Stream → List ℕ
contests conn [] = []
contests conn (s ∷ ls) =
    let rest = contests conn ls in if s.connection == conn then s.contest_id ∷ rest else rest

-- The hub's state of a connection.
record Shows (conn : ℕ) (h : Hub) (v : View) : Type 0 where
  listening : contests conn h.listeners ≡ contests_of v
  beating : contains conn h.heartbeats ≡ is_open v

frames_to-append :
    (conn : ℕ) (xs ys : List (ℕ × Frame))
    → frames_to conn (xs ++ ys) ≡ frames_to conn xs ++ frames_to conn ys
frames_to-append conn [] ys = refl
frames_to-append conn ((c, f) ∷ xs) ys = ground (arith, frames_to-append conn xs ys)

frames_to-emit :
    (conn contest : ℕ) (ls : List Stream)
    → frames_to conn (emit contest ls) ≡ updates contest (contests conn ls)
unfolding emit
frames_to-emit conn contest [] = refl
frames_to-emit conn contest (s ∷ ls) = ground (arith, frames_to-emit conn contest ls)

contests-open :
    (conn c contest : ℕ) (ls : List Stream)
    → contests conn (ls ++ record { connection = c; contest_id = contest } ∷ [])
      ≡ contests conn ls ++ (if c == conn then contest ∷ [] else [])
contests-open conn c contest [] = refl
contests-open conn c contest (s ∷ ls) = ground (arith, contests-open conn c contest ls)

contests-close :
    (conn c : ℕ) (ls : List Stream)
    → contests conn (select (λ s. not (s.connection == c)) ls)
      ≡ (if c == conn then [] else contests conn ls)
contests-close conn c [] = ground arith
contests-close conn c (s ∷ ls) = ground (arith, contests-close conn c ls)

contains-close :
    (conn c : ℕ) (cs : List ℕ)
    → contains conn (select (λ d. not (d == c)) cs)
      ≡ (if c == conn then false else contains conn cs)
contains-close conn c [] = ground arith
contains-close conn c (d ∷ cs) = ground (arith, contains-close conn c cs)

handle-Shows :
    (conn : ℕ) (e : Event) (h : Hub) (v : View)
    → Shows conn h v
    → MayHappen conn e v
    → Shows conn (handle e h).0 (view_step conn e v).0
      × (frames_to conn (handle e h).1 ≡ (view_step conn e v).1)
unfolding handle view_step
handle-Shows conn (opens c contest) h v s m = elim (Bool-cases (c == conn)) [
  | inl e ↦
      let now_closed : v ≡ closed = m ((==_iff c conn).0 e) in
      let none_yet : contests conn h.listeners ≡ [] = s.listening ∙ ap contests_of now_closed in
      rw e (
        record {
          listening = contests-open conn c contest h.listeners ∙ rw (e, none_yet) refl;
          beating = ap (λ b. b || contains conn h.heartbeats) e;
        },
        refl,
      )
  | inr e ↦ rw e (
    record {
      listening =
          contests-open conn c contest h.listeners
          ∙ rw (e, s.listening) (append-nil (contests_of v));
      beating = rw e s.beating;
    },
    refl,
  )
]
handle-Shows conn (message b contest) h v s m = (
  s,
  elim (Bool-cases b) [
    | inl e ↦ rw e (frames_to-emit conn contest h.listeners ∙ ap (updates contest) s.listening)
    | inr e ↦ rw e refl
  ],
)
handle-Shows conn (interval c) h v s m = (
  s,
  elim (Bool-cases (c == conn)) [
    | inl e ↦
        let own : contains c h.heartbeats ≡ is_open v =
          ap (λ d. contains d h.heartbeats) ((==_iff c conn).0 e) ∙ s.beating in
        rw (e, own) (elim (Bool-cases (is_open v)) [ inl o ↦ rw (o, e) refl | inr o ↦ rw o refl ])
    | inr e ↦
        rw e (elim (Bool-cases (contains c h.heartbeats)) [
          | inl o ↦ rw (o, e) refl
          | inr o ↦ rw o refl
        ])
  ],
)
handle-Shows conn (closes c) h v s m =
    let heard = contests-close conn c h.listeners in
    let beats = contains-close conn c h.heartbeats in
    elim (Bool-cases (c == conn)) [
      | inl e ↦ rw e (record { listening = rw e at heard; beating = rw e at beats }, refl)
      | inr e ↦
          rw e (
            record { listening = heard ∙ rw e s.listening; beating = beats ∙ rw e s.beating },
            refl,
          )
    ]
handle-Shows conn shutdown h closed s m = (record { listening = refl; beating = s.beating }, refl)
handle-Shows conn shutdown h (open_to contest) s m =
    (record { listening = refl; beating = s.beating }, refl)
handle-Shows conn shutdown h deaf s m = (record { listening = refl; beating = s.beating }, refl)

run-Shows :
    (conn : ℕ) (events : List Event) (h : Hub) (v : View)
    → Shows conn h v
    → OpensOnce conn events v
    → frames_to conn (run events h).1 ≡ (view_run conn events v).1
unfolding run view_run
run-Shows conn [] h v s m = refl
run-Shows conn (e ∷ events) h v s (m, o) =
    let (s', here) = handle-Shows conn e h v s m in
    frames_to-append conn (handle e h).1 (run events (handle e h).0).1
    ∙ rw (here, run-Shows conn events (handle e h).0 (view_step conn e v).0 s' o) refl

-- A connection that is opened at most once at a time receives, in this order, what its own life asks
-- for: CONNECTED, an UPDATE for each invalidation of its contest while it is open, its heartbeats, and
-- nothing once it is closed. Other connections and other contests change nothing.
pub run-delivers :
    (conn : ℕ) (events : List Event)
    → OpensOnce conn events closed
    → frames_to conn (run events started).1 ≡ (view_run conn events closed).1
run-delivers conn events o =
    run-Shows conn events started closed (record { listening = refl; beating = refl }) o
