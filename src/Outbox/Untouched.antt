-- ===== src/Outbox/Untouched.antt =====
-- The rows that a batch does not claim.
use mathlib.Core.Path.{subst}
use code_warzz.Prelude.{
  ℕ, ◌≡◌, refl, sym, ap, ◌∙◌, inl, inr, Bool, true, not, List, [], ◌∷◌, arith, ◌==◌, if◌then◌else◌,
  ==_iff, Bool-cases, select, All, contains,
}
use code_warzz.Outbox.{
  OutboxRow, update_where, claim, ids, mark_in_flight, settle, relay, process_claimed,
  process_outbox_batch,
}

-- the rows that a list of ids does not name
abbrev untouched : List ℕ → List OutboxRow → List OutboxRow
untouched claimed = select (λ r. not (contains r.id claimed))

untouched-skip :
    (claimed : List ℕ) (r : OutboxRow) (rows : List OutboxRow)
    → contains r.id claimed ≡ true
    → untouched claimed (r ∷ rows) ≡ untouched claimed rows
untouched-skip claimed r rows c = rw c

untouched-keep :
    (claimed : List ℕ) (r : OutboxRow) (xs ys : List OutboxRow)
    → untouched claimed xs ≡ untouched claimed ys
    → untouched claimed (r ∷ xs) ≡ untouched claimed (r ∷ ys)
untouched-keep claimed r xs ys h = ap (λ l. if not (contains r.id claimed) then r ∷ l else l) h

mark-untouched :
    (claimed : List ℕ) (rows : List OutboxRow)
    → untouched claimed (mark_in_flight claimed rows) ≡ untouched claimed rows
unfolding mark_in_flight
mark-untouched claimed [] = refl
mark-untouched claimed (r ∷ rows) = elim (Bool-cases (contains r.id claimed)) [
  | inl e ↦ rw e (rw e (mark-untouched claimed rows))
  | inr e ↦ rw e (rw e (ap (λ l. r ∷ l) (mark-untouched claimed rows)))
]

settle-id : (ok : Bool) (m r : OutboxRow) → (settle ok m r).id ≡ r.id
unfolding settle
settle-id ok m r = ground arith

update-untouched :
    (ok : Bool) (m : OutboxRow) (claimed : List ℕ) (rows : List OutboxRow)
    → contains m.id claimed ≡ true
    → untouched claimed (update_where m.id (settle ok m) rows) ≡ untouched claimed rows
unfolding update_where
update-untouched ok m claimed [] c = refl
update-untouched ok m claimed (r ∷ rows) c =
    let ih = update-untouched ok m claimed rows c in
    let rest = update_where m.id (settle ok m) rows in
    elim (Bool-cases (r.id == m.id)) [
      | inl e ↦
          let here : contains r.id claimed ≡ true =
            subst (λ i. contains i claimed ≡ true) (sym ((==_iff r.id m.id).0 e)) c in
          let there : contains (settle ok m r).id claimed ≡ true = rw (settle-id ok m r) here in
          rw e (
            untouched-skip claimed (settle ok m r) rest there
            ∙ ih
            ∙ sym (untouched-skip claimed r rows here))
      | inr e ↦ rw e (untouched-keep claimed r rest rows ih)
    ]

relay-untouched :
    (publishes : ℕ → Bool) (msgs rows : List OutboxRow) (n : ℕ) (sent claimed : List ℕ)
    → All (λ m. contains m.id claimed ≡ true) msgs
    → untouched claimed (relay publishes msgs rows n sent).0 ≡ untouched claimed rows
unfolding relay
relay-untouched publishes [] rows n sent claimed h = refl
relay-untouched publishes (m ∷ msgs) rows n sent claimed (c, h) =
    relay-untouched publishes msgs (update_where m.id (settle (publishes m.id) m) rows) _ _ claimed
      h
    ∙ update-untouched (publishes m.id) m claimed rows c

contains-weaken :
    (i : ℕ) (msgs xs : List OutboxRow)
    → All (λ m. contains m.id (ids xs) ≡ true) msgs
    → All (λ m. contains m.id (i ∷ ids xs) ≡ true) msgs
contains-weaken i [] xs h = tt
contains-weaken i (m ∷ msgs) xs (c, h) = (ground arith, contains-weaken i msgs xs h)

contains_self : (msgs : List OutboxRow) → All (λ m. contains m.id (ids msgs) ≡ true) msgs
contains_self [] = tt
contains_self (m ∷ msgs) = (ground arith, contains-weaken m.id msgs msgs (contains_self msgs))

process_claimed-untouched :
    (accepts : List ℕ → Bool) (publishes : ℕ → Bool) (msgs rows : List OutboxRow)
    → untouched (ids msgs) (process_claimed accepts publishes msgs rows).0
      ≡ untouched (ids msgs) rows
unfolding process_claimed
process_claimed-untouched accepts publishes [] rows = refl
process_claimed-untouched accepts publishes (m ∷ ms) rows =
    elim (Bool-cases (accepts (ids (m ∷ ms)))) [
      | inl e ↦ rw e (
          relay-untouched publishes (m ∷ ms) (mark_in_flight (ids (m ∷ ms)) rows) 0 []
            (ids (m ∷ ms)) (contains_self (m ∷ ms))
          ∙ mark-untouched (ids (m ∷ ms)) rows)
      | inr e ↦ rw e refl
    ]

-- A batch leaves every row that it does not claim as it was, in the same order.
pub process_outbox_batch-untouched :
    (accepts : List ℕ → Bool) (locked publishes : ℕ → Bool) (batch_size : ℕ) (rows : List OutboxRow)
    → let claimed = ids (claim locked batch_size rows) in
      select
        (λ r. not (contains r.id claimed))
        (process_outbox_batch accepts locked publishes batch_size rows).0
      ≡ select (λ r. not (contains r.id claimed)) rows
unfolding process_outbox_batch
process_outbox_batch-untouched accepts locked publishes batch_size rows =
    process_claimed-untouched accepts publishes (claim locked batch_size rows) rows
