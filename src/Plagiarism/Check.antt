-- ===== src/Plagiarism/Check.antt =====
-- core/src/service/plagiarism/plagiarism.service.ts and the tables of core/src/db/schema/plagiarism.ts.
-- The normalized code is an input.
use code_warzz.Plagiarism.Fingerprint.{Token, tokens_of, default_k, default_w, generate_fingerprint}
use code_warzz.Plagiarism.Similarity.{Fraction, Candidate, Similar, find_similar_submissions}
use code_warzz.Prelude.{
  ℕ, Bool, true, false, not, ◌&&◌, Option, none, some, List, [], ◌∷◌, ◌++◌, map, leb, ◌==◌,
  if◌then◌else◌, length, select, any, sort_by,
}

-- `PlagiarismCheckInput`
pub record CheckInput : Type 0 where
  pub submission_id : ℕ
  pub problem_id : ℕ
  pub contest_id : Option ℕ
  pub normalized_code : Token
  pub language : ℕ

-- a row of `code_fingerprints`
pub record CodeFingerprint : Type 0 where
  pub submission_id : ℕ
  pub language : ℕ
  pub normalized_code : Token
  pub fingerprint_hashes : List ℕ

-- a row of `plagiarism_reports`
pub record Report : Type 0 where
  pub submission_id1 : ℕ
  pub submission_id2 : ℕ
  pub problem_id : ℕ
  pub contest_id : Option ℕ
  pub similarity_score : ℕ
  pub flagged : Bool

pub record Database : Type 0 where
  pub fingerprints : List CodeFingerprint
  pub problem_of : ℕ → Option ℕ  -- the problem of a submission, by the submission's id
  pub reports : List Report

pub record PlagiarismResult : Type 0 where
  pub submission_id : ℕ
  pub similar_submissions : List Similar
  pub is_flagged : Bool
  pub threshold : Fraction

-- `storeFingerprint`, with ON CONFLICT DO NOTHING on the submission
unfoldable pub store_fingerprint : CodeFingerprint → List CodeFingerprint → List CodeFingerprint
store_fingerprint row rows =
    if any (λ r. r.submission_id == row.submission_id) rows then rows else rows ++ row ∷ []

-- the `where` of `getFingerprintsForProblem`, with its join
unfoldable pub is_candidate : Database → ℕ → ℕ → CodeFingerprint → Bool
is_candidate db problem self row = elim (db.problem_of row.submission_id) [
  | none ↦ false
  | some p ↦ p == problem && not (row.submission_id == self)
]

-- `getFingerprintsForProblem`
unfoldable pub get_fingerprints_for_problem : Database → ℕ → ℕ → List Candidate
unfolding is_candidate
get_fingerprints_for_problem db problem self =
    map (λ r. record { submission_id = r.submission_id; fingerprint = r.fingerprint_hashes })
      (select (is_candidate db problem self) db.fingerprints)

-- the unique index on the pair of submissions
abbrev pub same_reported : Report → Report → Bool
same_reported new old =
    old.submission_id1 == new.submission_id1 && old.submission_id2 == new.submission_id2

-- the insertion of the rows, with ON CONFLICT DO NOTHING
unfoldable pub insert_reports : List Report → List Report → List Report
insert_reports [] table = table
insert_reports (r ∷ rs) table =
    insert_reports rs (if any (same_reported r) table then table else table ++ r ∷ [])

abbrev pub report_of : CheckInput → Similar → Report
report_of input s = record {
  submission_id1 = input.submission_id;
  submission_id2 = s.submission_id;
  problem_id = input.problem_id;
  contest_id = input.contest_id;
  similarity_score = s.similarity;
  flagged = true;
}

-- `getPlagiarismByProblem`, `getPlagiarismByContest` and `getPlagiarismBySubmission`
unfoldable pub get_plagiarism_by_problem : ℕ → Database → List Report
get_plagiarism_by_problem problem db =
    sort_by (λ r. r.similarity_score) (select (λ r. r.problem_id == problem) db.reports)

unfoldable pub get_plagiarism_by_contest : ℕ → Database → List Report
get_plagiarism_by_contest contest db =
    sort_by (λ r. r.similarity_score)
      (select (λ r. elim r.contest_id [ none ↦ false | some c ↦ c == contest ]) db.reports)

unfoldable pub get_plagiarism_by_submission : ℕ → Database → List Report
get_plagiarism_by_submission submission db =
    sort_by (λ r. r.similarity_score)
      (select (λ r. r.submission_id1 == submission && r.flagged) db.reports)

-- `checkPlagiarism`; `written` says whether the transaction of the reports commits
unfoldable pub check_plagiarism :
    Fraction → Bool → CheckInput → Database → Database × PlagiarismResult
unfolding store_fingerprint get_fingerprints_for_problem insert_reports
check_plagiarism threshold written input db =
    let fingerprint = generate_fingerprint (tokens_of input.normalized_code) default_k default_w in
    let row : CodeFingerprint = record {
      submission_id = input.submission_id;
      language = input.language;
      normalized_code = input.normalized_code;
      fingerprint_hashes = fingerprint;
    } in
    let stored = record db { fingerprints = store_fingerprint row db.fingerprints } in
    let candidates = get_fingerprints_for_problem stored input.problem_id input.submission_id in
    let similar = find_similar_submissions fingerprint threshold candidates in
    let is_flagged = leb 1 (length similar) in
    let reported = record stored {
      reports = insert_reports (map (report_of input) similar) stored.reports;
    } in
    (
      if is_flagged && written then reported else stored,
      record {
        submission_id = input.submission_id;
        similar_submissions = similar;
        is_flagged = is_flagged;
        threshold = threshold;
      },
    )
