-- ===== src/Plagiarism/CodeCheck.antt =====
-- `checkPlagiarism` of plagiarism.service.ts from the code on: `normalizeCode` and then the check.
use code_warzz.Plagiarism.Fingerprint.{Token, tokens_of, default_k, default_w, generate_fingerprint}
use code_warzz.Plagiarism.Similarity.{Fraction}
use code_warzz.Plagiarism.Keywords.{Language}
use code_warzz.Plagiarism.Tokenizer.{pieces, stripped, normalize_code}
use code_warzz.Plagiarism.Renaming.{IsRenaming, rename_piece, normalize_code-renamed}
use code_warzz.Plagiarism.Check.{
  CheckInput, CodeFingerprint, Database, PlagiarismResult, check_plagiarism,
}
use code_warzz.Plagiarism.Sets.{Unique, SameSet, generate_fingerprint-Unique}
use code_warzz.Plagiarism.Reports.{check_plagiarism-copied}
use mathlib.Core.Path.{subst}
use code_warzz.Prelude.{ℕ, ◌≤◌, ◌≡◌, sym, ap, ◌∙◌, ◌≢◌, Bool, true, some, map, get_elem?, contains}

-- the check of a code in a language; the other fields of the input are passed on
unfoldable pub check_code :
    Language → Token → Fraction → Bool → CheckInput → Database → Database × PlagiarismResult
check_code language code threshold written input =
    check_plagiarism threshold written
      (record input { normalized_code = normalize_code language code })

-- A copy with its identifiers renamed is flagged: the table holds the fingerprint of the original, which
-- another submission to the same problem left, and the threshold is at most one.
pub check_code-renamed :
    (language : Language) (rename : Token → Token) (original copy : Token) (threshold : Fraction)
    (written : Bool) (input : CheckInput) (db : Database) (row : CodeFingerprint) (i : ℕ)
    → IsRenaming language rename
    → pieces (stripped language copy)
      ≡ map (rename_piece language rename) (pieces (stripped language original))
    → get_elem? db.fingerprints i ≡ some row
    → db.problem_of row.submission_id ≡ some input.problem_id
    → row.submission_id ≢ input.submission_id
    → row.fingerprint_hashes
      ≡ generate_fingerprint (tokens_of (normalize_code language original)) default_k default_w
    → threshold.num ≤ threshold.den
    → (check_code language copy threshold written input db).1.is_flagged ≡ true
unfolding check_code
check_code-renamed language rename original copy threshold written input db row i r e m p other f
      l =
    let fresh = tokens_of (normalize_code language original) in
    let alone : Unique row.fingerprint_hashes =
      subst Unique (sym f) (generate_fingerprint-Unique fresh default_k default_w) in
    let same_code = normalize_code-renamed language rename original copy r e in
    let same : SameSet
        (generate_fingerprint (tokens_of (normalize_code language copy)) default_k default_w)
        row.fingerprint_hashes =
      λ h.
        ap (contains h)
          (ap (λ t. generate_fingerprint (tokens_of t) default_k default_w) same_code ∙ sym f) in
    check_plagiarism-copied threshold written
      (record input { normalized_code = normalize_code language copy }) db row i m p other alone
      same l
