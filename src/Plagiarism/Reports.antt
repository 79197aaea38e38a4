-- ===== src/Plagiarism/Reports.antt =====
-- Which submissions a check flags, and that a repeated check changes nothing.
use code_warzz.Plagiarism.Fingerprint.{tokens_of, default_k, default_w, generate_fingerprint}
use code_warzz.Plagiarism.Similarity.{
  Fraction, jaccard_similarity, reaches, similar_to, find_similar_submissions,
}
use code_warzz.Plagiarism.Check.{
  CheckInput, CodeFingerprint, Database, store_fingerprint, is_candidate,
  get_fingerprints_for_problem, insert_reports, report_of, check_plagiarism,
}
use code_warzz.Plagiarism.Sets.{
  Unique, SameSet, jaccard_similarity-one_iff, generate_fingerprint-Unique,
}
use code_warzz.Plagiarism.Winnowing.{generate_fingerprint-short}
use mathlib.Core.Path.{subst}
use code_warzz.Plagiarism.Tables.{
  fingerprint_of, is_alike, as_candidate, similar_to-any, store_fingerprint-again,
  insert_reports-all, insert_reports-nothing, candidates-stored,
}
use code_warzz.Prelude.{
  ℕ, zero, suc, ◌-◌, ◌≤◌, ◌<◌, ◌≡◌, refl, sym, ap, ◌∙◌, ◌≢◌, inl, inr, Bool, true, some, List, [],
  ◌∷◌, map, arith, leb, Bool-cases, length, get_elem?, select, any, contains, length-sort_by,
}

-- the row that a check stores
abbrev row_of : CheckInput → CodeFingerprint
row_of input = record {
  submission_id = input.submission_id;
  language = input.language;
  normalized_code = input.normalized_code;
  fingerprint_hashes = fingerprint_of input;
}

-- A submission is flagged exactly if an earlier stored fingerprint, of another submission to the same
-- problem, reaches the threshold; whether the reports can be written does not matter.
pub check_plagiarism-flagged_iff :
    (threshold : Fraction) (written : Bool) (input : CheckInput) (db : Database)
    → (check_plagiarism threshold written input db).1.is_flagged
      ≡ any (is_alike threshold input db) db.fingerprints
unfolding check_plagiarism get_fingerprints_for_problem find_similar_submissions as_candidate
    is_candidate
check_plagiarism-flagged_iff threshold written input db =
    let target = fingerprint_of input in
    let found =
      λ (rows : List CodeFingerprint). similar_to target threshold (map as_candidate rows) in
    let keep = is_candidate db input.problem_id input.submission_id in
    let stored = store_fingerprint (row_of input) db.fingerprints in
    ap (leb 1) (length-sort_by (λ s. 10000 - s.similarity) (found (select keep stored)))
    ∙ ap (λ rows. leb 1 (length (found rows)))
        (candidates-stored db input.problem_id (row_of input))
    ∙ similar_to-any target threshold keep db.fingerprints

-- A check that is repeated, as for a message that is delivered again, gives the same result and changes
-- no table, if the reports can be written.
pub check_plagiarism-again :
    (threshold : Fraction) (input : CheckInput) (db : Database)
    → let first = check_plagiarism threshold true input db in
      check_plagiarism threshold true input first.0 ≡ first
unfolding check_plagiarism
check_plagiarism-again threshold input db =
    let stored = record db { fingerprints = store_fingerprint (row_of input) db.fingerprints } in
    let candidates = get_fingerprints_for_problem stored input.problem_id input.submission_id in
    let reports =
      map (report_of input)
        (find_similar_submissions (fingerprint_of input) threshold candidates) in
    elim (Bool-cases
      (leb 1 (length (find_similar_submissions (fingerprint_of input) threshold candidates)))) [
        | inl e ↦
            rw
              (
                e,
                store_fingerprint-again (row_of input) db.fingerprints,
                e,
                insert_reports-nothing reports (insert_reports reports db.reports)
                    (insert_reports-all reports db.reports),
              )
              refl
        | inr e ↦ rw (e, store_fingerprint-again (row_of input) db.fingerprints, e) refl
      ]

any-at {ℓ} :
    {A : Type ℓ} (test : A → Bool) (i : ℕ) (x : A) (xs : List A)
    → get_elem? xs i ≡ some x
    → test x ≡ true
    → any test xs ≡ true
any-at test i x [] m e = cc
any-at test zero x (y ∷ xs) m e = ground arith
any-at test (suc i) x (y ∷ xs) m e = ground (arith, any-at test i x xs)

is_candidate-other :
    (db : Database) (input : CheckInput) (row : CodeFingerprint)
    → db.problem_of row.submission_id ≡ some input.problem_id
    → row.submission_id ≢ input.submission_id
    → is_candidate db input.problem_id input.submission_id row ≡ true
unfolding is_candidate
is_candidate-other db input row p other = ground arith

reaches-one :
    (threshold s : Fraction)
    → s.num ≡ s.den
    → threshold.num ≤ threshold.den
    → reaches s threshold ≡ true
unfolding reaches
reaches-one threshold s e l = grind arith

-- If the table holds the fingerprint of another submission to the same problem, with the same elements
-- in whatever order, and the threshold is at most one, the submission is flagged.
pub check_plagiarism-copied :
    (threshold : Fraction) (written : Bool) (input : CheckInput) (db : Database)
    (row : CodeFingerprint) (i : ℕ)
    → get_elem? db.fingerprints i ≡ some row
    → db.problem_of row.submission_id ≡ some input.problem_id
    → row.submission_id ≢ input.submission_id
    → Unique row.fingerprint_hashes
    → SameSet (fingerprint_of input) row.fingerprint_hashes
    → threshold.num ≤ threshold.den
    → (check_plagiarism threshold written input db).1.is_flagged ≡ true
check_plagiarism-copied threshold written input db row i m p other u same l =
    let print = fingerprint_of input in
    let alone = generate_fingerprint-Unique (tokens_of input.normalized_code) default_k default_w in
    let e = (jaccard_similarity-one_iff print row.fingerprint_hashes alone u).1 same in
    let candidate = is_candidate-other db input row p other in
    let reached = reaches-one threshold (jaccard_similarity print row.fingerprint_hashes) e l in
    check_plagiarism-flagged_iff threshold written input db
    ∙ any-at (is_alike threshold input db) i row db.fingerprints m (ground arith)

-- A code of fewer than eight tokens is flagged as soon as another such code has been submitted for the
-- problem, whatever the two texts are, if the threshold is at most one.
pub check_plagiarism-short :
    (threshold : Fraction) (written : Bool) (input : CheckInput) (db : Database)
    (row : CodeFingerprint) (i : ℕ)
    → get_elem? db.fingerprints i ≡ some row
    → db.problem_of row.submission_id ≡ some input.problem_id
    → row.submission_id ≢ input.submission_id
    → length (tokens_of input.normalized_code) < 8
    → length (tokens_of row.normalized_code) < 8
    → row.fingerprint_hashes
      ≡ generate_fingerprint (tokens_of row.normalized_code) default_k default_w
    → threshold.num ≤ threshold.den
    → (check_plagiarism threshold written input db).1.is_flagged ≡ true
check_plagiarism-short threshold written input db row i m p other a b e l =
    let mine = generate_fingerprint-short 5 3 (tokens_of input.normalized_code) a in
    let theirs = e ∙ generate_fingerprint-short 5 3 (tokens_of row.normalized_code) b in
    let same : SameSet (fingerprint_of input) row.fingerprint_hashes =
      λ h. ap (contains h) (mine ∙ sym theirs) in
    let alone : Unique row.fingerprint_hashes = subst Unique (sym theirs) tt in
    check_plagiarism-copied threshold written input db row i m p other alone same l
