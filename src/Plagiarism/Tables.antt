-- ===== src/Plagiarism/Tables.antt =====
-- The tables of the check: what inserting changes, and which rows are candidates.
use code_warzz.Plagiarism.Fingerprint.{tokens_of, default_k, default_w, generate_fingerprint}
use code_warzz.Plagiarism.Similarity.{Fraction, Candidate, jaccard_similarity, reaches, similar_to}
use code_warzz.Plagiarism.Check.{
  CheckInput, CodeFingerprint, Report, Database, store_fingerprint, is_candidate, same_reported,
  insert_reports,
}
use code_warzz.Prelude.{
  ℕ, ◌≡◌, refl, ap, inl, inr, Bool, true, false, ◌&&◌, List, [], ◌∷◌, ◌++◌, map, arith, leb, ◌==◌,
  if◌then◌else◌, ==_refl, Bool-cases, length, select, any,
}

-- the fingerprint of the submission that is checked
abbrev pub fingerprint_of : CheckInput → List ℕ
fingerprint_of input = generate_fingerprint (tokens_of input.normalized_code) default_k default_w

-- an earlier row that a check reports
abbrev pub is_alike : Fraction → CheckInput → Database → CodeFingerprint → Bool
is_alike threshold input db row =
    is_candidate db input.problem_id input.submission_id row
    && reaches (jaccard_similarity (fingerprint_of input) row.fingerprint_hashes) threshold

unfoldable pub as_candidate : CodeFingerprint → Candidate
as_candidate r = record { submission_id = r.submission_id; fingerprint = r.fingerprint_hashes }

pub similar_to-any :
    (target : List ℕ) (threshold : Fraction) (keep : CodeFingerprint → Bool)
    (rows : List CodeFingerprint)
    → leb 1 (length (similar_to target threshold (map as_candidate (select keep rows))))
      ≡ any (λ r. keep r && reaches (jaccard_similarity target r.fingerprint_hashes) threshold) rows
unfolding similar_to as_candidate
similar_to-any target threshold keep [] = ground arith
similar_to-any target threshold keep (r ∷ rows) = elim (Bool-cases (keep r)) [
  | inl e ↦ rw e (ground (arith, similar_to-any target threshold keep rows))
  | inr e ↦ rw e (similar_to-any target threshold keep rows)
]

pub any-snoc_quiet {ℓ} :
    {A : Type ℓ} (test : A → Bool) (x : A) (xs : List A)
    → test x ≡ false
    → any test (xs ++ x ∷ []) ≡ any test xs
any-snoc_quiet test x [] e = ground arith
any-snoc_quiet test x (y ∷ xs) e = ground (arith, any-snoc_quiet test x xs)

pub any-snoc_found {ℓ} :
    {A : Type ℓ} (test : A → Bool) (x : A) (xs : List A)
    → test x ≡ true
    → any test (xs ++ x ∷ []) ≡ true
any-snoc_found test x [] e = ground arith
any-snoc_found test x (y ∷ xs) e = ground (arith, any-snoc_found test x xs)

pub any-snoc_kept {ℓ} :
    {A : Type ℓ} (test : A → Bool) (x : A) (xs : List A)
    → any test xs ≡ true
    → any test (xs ++ x ∷ []) ≡ true
any-snoc_kept test x [] e = cc
any-snoc_kept test x (y ∷ xs) e = ground (arith, any-snoc_kept test x xs)

pub store_fingerprint-again :
    (row : CodeFingerprint) (rows : List CodeFingerprint)
    → store_fingerprint row (store_fingerprint row rows) ≡ store_fingerprint row rows
unfolding store_fingerprint
store_fingerprint-again row rows =
    let test = λ (r : CodeFingerprint). r.submission_id == row.submission_id in
    elim (Bool-cases (any test rows)) [
      | inl e ↦ rw (e, e) refl
      | inr e ↦ rw (e, any-snoc_found test row rows (==_refl row.submission_id)) refl
    ]

pub insert_reports-keeps :
    (new : Report) (rs table : List Report)
    → any (same_reported new) table ≡ true
    → any (same_reported new) (insert_reports rs table) ≡ true
unfolding insert_reports
insert_reports-keeps new [] table e = e
insert_reports-keeps new (r ∷ rs) table e = elim (Bool-cases (any (same_reported r) table)) [
  | inl f ↦ rw f (insert_reports-keeps new rs table e)
  | inr f ↦
      rw f (
        insert_reports-keeps new rs (table ++ r ∷ []) (any-snoc_kept (same_reported new) r table e))
]

-- whether all of the rows are reported
abbrev pub all_reported : List Report → List Report → Bool
all_reported [] table = true
all_reported (r ∷ rs) table = any (same_reported r) table && all_reported rs table

-- the table once a row is inserted
abbrev pub with_report : Report → List Report → List Report
with_report r table = if any (same_reported r) table then table else table ++ r ∷ []

pub same_reported_refl : (r : Report) → same_reported r r ≡ true
same_reported_refl r = ground (arith, ==_refl r.submission_id1, ==_refl r.submission_id2)

pub with_report-reported :
    (r : Report) (table : List Report) → any (same_reported r) (with_report r table) ≡ true
with_report-reported r table = elim (Bool-cases (any (same_reported r) table)) [
  | inl e ↦ rw e e
  | inr e ↦ rw e (any-snoc_found (same_reported r) r table (same_reported_refl r))
]

pub insert_reports-all : (rs table : List Report) → all_reported rs (insert_reports rs table) ≡ true
unfolding insert_reports
insert_reports-all [] table = refl
insert_reports-all (r ∷ rs) table =
    let reported = insert_reports-keeps r rs (with_report r table) (with_report-reported r table) in
    ground (arith, insert_reports-all rs (with_report r table))

pub insert_reports-nothing :
    (rs table : List Report) → all_reported rs table ≡ true → insert_reports rs table ≡ table
unfolding insert_reports
insert_reports-nothing [] table e = refl
insert_reports-nothing (r ∷ rs) table e = ground (arith, insert_reports-nothing rs table)

pub select-snoc_quiet {ℓ} :
    {A : Type ℓ} (test : A → Bool) (x : A) (xs : List A)
    → test x ≡ false
    → select test (xs ++ x ∷ []) ≡ select test xs
select-snoc_quiet test x [] e = rw e refl
select-snoc_quiet test x (y ∷ xs) e =
    ap (λ rest. if test y then y ∷ rest else rest) (select-snoc_quiet test x xs e)

pub self-not_candidate :
    (db : Database) (problem : ℕ) (row : CodeFingerprint)
    → is_candidate db problem row.submission_id row ≡ false
unfolding is_candidate
self-not_candidate db problem row = ground (arith, ==_refl row.submission_id)

-- A row of the submission that is checked is not among its candidates.
pub candidates-stored :
    (db : Database) (problem : ℕ) (row : CodeFingerprint)
    → select (is_candidate db problem row.submission_id) (store_fingerprint row db.fingerprints)
      ≡ select (is_candidate db problem row.submission_id) db.fingerprints
unfolding store_fingerprint
candidates-stored db problem row =
    elim (Bool-cases (any (λ r. r.submission_id == row.submission_id) db.fingerprints)) [
      | inl e ↦ rw e refl
      | inr e ↦ rw e (
          select-snoc_quiet (is_candidate db problem row.submission_id) row db.fingerprints
            (self-not_candidate db problem row))
    ]
