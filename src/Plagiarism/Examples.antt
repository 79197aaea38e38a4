-- ===== src/Plagiarism/Examples.antt =====
-- Two submissions to problem 3: the code "a b c d e f g h i" is stored for submission 1 and sent again
-- as submission 2; submission 4 is short.
use code_warzz.Plagiarism.Fingerprint.{
  Token, tokens_of, default_k, default_w, generate_k_grams, winnowing, generate_fingerprint,
}
use code_warzz.Plagiarism.Similarity.{Fraction, count_common, jaccard_similarity, rounded}
use code_warzz.Plagiarism.Check.{CheckInput, CodeFingerprint, Database, check_plagiarism}
use code_warzz.Plagiarism.Winnowing.{generate_fingerprint-common}
use code_warzz.Plagiarism.Reports.{check_plagiarism-again}
use code_warzz.Prelude.{ℕ, ◌≡◌, refl, true, none, some, List, [], ◌∷◌, ◌++◌, take, contains}

abbrev code : Token
code =
    b'a' ∷ b' ' ∷ b'b' ∷ b' ' ∷ b'c' ∷ b' ' ∷ b'd' ∷ b' ' ∷ b'e' ∷ b' ' ∷ b'f' ∷ b' ' ∷ b'g' ∷ b' '
    ∷ b'h' ∷ b' ' ∷ b'i' ∷ []

abbrev short_code : Token
short_code = b'x' ∷ b' ' ∷ b'y' ∷ []

abbrev eighty_percent : Fraction
eighty_percent = record { num = 80; den = 100 }

code_hashes :
    generate_k_grams (tokens_of code) 5 ≡ 92599395 ∷ 93553700 ∷ 94508005 ∷ 95462310 ∷ 96416615 ∷ []
unfolding generate_k_grams tokens_of
code_hashes = refl

-- Signed numbers: the second hash is negative.
least_is_negative : winnowing (5 ∷ 4294967295 ∷ 7 ∷ 9 ∷ 3 ∷ []) 3 ≡ 4294967295 ∷ 3 ∷ []
unfolding winnowing
least_is_negative = refl

two_thirds : rounded (jaccard_similarity (1 ∷ 2 ∷ 3 ∷ []) (3 ∷ 2 ∷ [])) ≡ 6667
unfolding rounded jaccard_similarity count_common
two_thirds = refl

abbrev stored : CodeFingerprint
stored = record {
  submission_id = 1;
  language = 0;
  normalized_code = code;
  fingerprint_hashes = 92599395 ∷ 93553700 ∷ [];
}

abbrev stored_short : CodeFingerprint
stored_short = record {
  submission_id = 4;
  language = 0;
  normalized_code = short_code;
  fingerprint_hashes = [];
}

abbrev before : Database
before = record {
  fingerprints = stored ∷ stored_short ∷ [];
  problem_of = λ s. some 3;
  reports = [];
}

abbrev copy : CheckInput
copy = record {
  submission_id = 2;
  problem_id = 3;
  contest_id = none;
  normalized_code = code;
  language = 0;
}

code_fingerprint :
    generate_fingerprint (tokens_of code) default_k default_w ≡ stored.fingerprint_hashes
unfolding generate_fingerprint tokens_of
code_fingerprint = refl

abbrev run_of_eight : List Token
run_of_eight = tokens_of (take 15 code)

generate_fingerprint-common_example :
    (h : ℕ) × (contains h (generate_fingerprint ([] ++ (run_of_eight ++ [])) 5 4) ≡ true)
    × (contains h (generate_fingerprint (tokens_of short_code ++ (run_of_eight ++ [])) 5 4) ≡ true)
generate_fingerprint-common_example =
    generate_fingerprint-common 5 3 run_of_eight [] [] (tokens_of short_code) []
      (unfold tokens_of in refl)

check_plagiarism-again_example :
    let first = check_plagiarism eighty_percent true copy before in
    check_plagiarism eighty_percent true copy first.0 ≡ first
check_plagiarism-again_example = check_plagiarism-again eighty_percent copy before
