-- ===== src/Outbox/Claims.antt =====
-- Which rows a batch claims.
use code_warzz.Prelude.{
  ℕ, zero, suc, ◌≤◌, ◌≡◌, ap, ◌∙◌, Bool, true, false, min, List, [], ◌∷◌, arith, length, select,
  take, length-take, All, contains, All-take, All-selected, sort_by, IsSorted, All-sort_by,
  sort_by-IsSorted, IsSorted-take, length-sort_by, All-sort_by_inv,
}
use code_warzz.Outbox.{OutboxRow, claim, ids, is_due}

-- A row that is not among the first `n` of a sorted list is not older than any of them.
abbrev Younger : List OutboxRow → OutboxRow → Type 0
Younger msgs r = contains r.id (ids msgs) ≡ false → All (λ m. m.created_at ≤ r.created_at) msgs

Younger-cons :
    (x : OutboxRow) (msgs rows : List OutboxRow)
    → All (λ r. x.created_at ≤ r.created_at) rows
    → All (Younger msgs) rows
    → All (Younger (x ∷ msgs)) rows
Younger-cons x msgs [] l h = tt
Younger-cons x msgs (r ∷ rows) (p, l) (y, h) =
    (λ other. (p, y (ground arith)), Younger-cons x msgs rows l h)

Younger-nil : (rows : List OutboxRow) → All (Younger []) rows
Younger-nil [] = tt
Younger-nil (r ∷ rows) = (λ other. tt, Younger-nil rows)

take-Younger :
    (n : ℕ) (rows : List OutboxRow)
    → IsSorted (λ m. m.created_at) rows
    → All (Younger (take n rows)) rows
take-Younger zero rows s = Younger-nil rows
take-Younger (suc n) [] s = tt
take-Younger (suc n) (r ∷ rows) (l, s) =
    (λ other. absurd (ground arith), Younger-cons r (take n rows) rows l (take-Younger n rows s))

-- What the query picks: as many of the due rows as the batch holds, the oldest of them, in order.
abbrev pub Picks : (ℕ → Bool) → ℕ → List OutboxRow → List OutboxRow → Type 0
Picks locked batch_size rows msgs =
    (length msgs ≡ min batch_size (length (select (is_due locked) rows)))
    × All (λ m. is_due locked m ≡ true) msgs
    × IsSorted (λ m. m.created_at) msgs
    × All (Younger msgs) (select (is_due locked) rows)

pub claim-Picks :
    (locked : ℕ → Bool) (batch_size : ℕ) (rows : List OutboxRow)
    → Picks locked batch_size rows (claim locked batch_size rows)
unfolding claim
claim-Picks locked batch_size rows =
    let due = select (is_due locked) rows in
    let sorted = sort_by (λ r. r.created_at) due in
    let in_order = sort_by-IsSorted (λ (m : OutboxRow). m.created_at) due in
    (
      length-take batch_size sorted
          ∙ ap (min batch_size) (length-sort_by (λ (m : OutboxRow). m.created_at) due),
      All-take (λ m. is_due locked m ≡ true) batch_size sorted
          (All-sort_by (λ r. r.created_at) (λ m. is_due locked m ≡ true) due
            (All-selected (is_due locked) rows)),
      IsSorted-take (λ m. m.created_at) batch_size sorted in_order,
      All-sort_by_inv (λ (m : OutboxRow). m.created_at) (Younger (take batch_size sorted)) due
          (take-Younger batch_size sorted in_order),
    )
