-- ===== src/Plagiarism/CodeExamples.antt =====
-- A program and a copy of it in which every name has got an underscore.
use code_warzz.Plagiarism.Fingerprint.{Token, tokens_of, default_k, default_w, generate_fingerprint}
use code_warzz.Plagiarism.Similarity.{Fraction}
use code_warzz.Plagiarism.Keywords.{cpp}
use code_warzz.Plagiarism.Tokenizer.{
  codes, is_identifier, is_keyword, pieces, stripped, normalize_code, id_name,
}
use code_warzz.Plagiarism.Renaming.{IsRenaming, normalize_code-renamed}
use code_warzz.Plagiarism.CodeCheck.{check_code, check_code-renamed}
use code_warzz.Plagiarism.Check.{CheckInput, CodeFingerprint, Database}
use code_warzz.Prelude.{◌≡◌, refl, true, none, some, [], ◌∷◌, arith}

normalized : normalize_code cpp (codes "int a=10; // ten") ≡ codes "int ID_0=ID_1;"
unfolding normalize_code is_identifier id_name
normalized = refl

-- A slash in a string starts a comment, since comments go first.
cut_string : normalize_code cpp (codes "s = '//' + t") ≡ codes "ID_0 = '"
unfolding normalize_code is_identifier id_name
cut_string = refl

abbrev original : Token
original = codes "int x = y + z * x ; return x - y ;"

abbrev renamed : Token
renamed = codes "int _x = _y + _z * _x ; return _x - _y ;"

abbrev underscore : Token → Token
underscore w = b'_' ∷ w

underscored : IsRenaming cpp underscore
unfolding is_identifier is_keyword
underscored = record { to_identifier = λ w h. refl; injective = λ v w h k. refl }

normalize_code-renamed_example : normalize_code cpp renamed ≡ normalize_code cpp original
normalize_code-renamed_example =
    normalize_code-renamed cpp underscore original renamed underscored
      (unfold pieces stripped is_identifier is_keyword in refl)

abbrev stored : CodeFingerprint
stored = record {
  submission_id = 1;
  language = 0;
  normalized_code = normalize_code cpp original;
  fingerprint_hashes =
      generate_fingerprint (tokens_of (normalize_code cpp original)) default_k default_w;
}

abbrev before : Database
before = record { fingerprints = stored ∷ []; problem_of = λ s. some 3; reports = [] }

abbrev input : CheckInput
input = record {
  submission_id = 2;
  problem_id = 3;
  contest_id = none;
  normalized_code = [];
  language = 0;
}

abbrev eighty_percent : Fraction
eighty_percent = record { num = 4; den = 5 }

check_code-renamed_example :
    (check_code cpp renamed eighty_percent true input before).1.is_flagged ≡ true
check_code-renamed_example =
    check_code-renamed cpp underscore original renamed eighty_percent true input before stored 0
      underscored (unfold pieces stripped is_identifier is_keyword in refl) refl refl (omega arith)
      refl (omega arith)
