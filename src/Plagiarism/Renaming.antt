-- ===== src/Plagiarism/Renaming.antt =====
-- Renaming the identifiers of a program does not change its normalized code.
use code_warzz.Plagiarism.Fingerprint.{Token}
use code_warzz.Plagiarism.Keywords.{Language}
use code_warzz.Plagiarism.Tokenizer.{
  Piece, word, mark, same_text, is_identifier, find_name, id_name, replace_from,
  replace_identifiers, pieces, stripped, collapse_spaces, trim, normalize_code,
}
use code_warzz.Prelude.{
  ℕ, ◌+◌, ◌≡◌, refl, sym, ap, ◌∙◌, inl, inr, true, false, none, some, List, [], ◌∷◌, ◌++◌, map,
  arith, if◌then◌else◌, Bool-cases, Option-cases, All,
}

-- A renaming takes identifiers to identifiers, and different ones to different ones.
pub record IsRenaming (language : Language) (rename : Token → Token) : Type 0 where
  pub to_identifier :
      (w : Token) → is_identifier language w ≡ true → is_identifier language (rename w) ≡ true
  pub injective :
      (v w : Token)
      → is_identifier language v ≡ true
      → is_identifier language w ≡ true
      → same_text (rename v) (rename w) ≡ same_text v w

replace_from-mark :
    (language : Language) (names : List (Token × Token)) (counter c : ℕ) (ps : List Piece)
    → replace_from language names counter (mark c ∷ ps) ≡ c ∷ replace_from language names counter ps
unfolding replace_from
replace_from-mark language names counter c ps = refl

-- the three ways in which a word is replaced
module _ (language : Language) (names : List (Token × Token)) (counter : ℕ) (w : Token)
    (ps : List Piece) where
  replace_from-other :
      is_identifier language w ≡ false
      → replace_from language names counter (word w ∷ ps)
        ≡ w ++ replace_from language names counter ps
  unfolding replace_from
  replace_from-other i = ground arith

  replace_from-known :
      (name : Token)
      → is_identifier language w ≡ true
      → find_name w names ≡ some name
      → replace_from language names counter (word w ∷ ps)
        ≡ name ++ replace_from language names counter ps
  unfolding replace_from
  replace_from-known name i f = ground arith

  replace_from-new :
      is_identifier language w ≡ true
      → find_name w names ≡ none
      → replace_from language names counter (word w ∷ ps)
        ≡ id_name counter ++ replace_from language ((w, id_name counter) ∷ names) (counter + 1) ps
  unfolding replace_from
  replace_from-new i f = ground arith

module _ (language : Language) (rename : Token → Token) where
  abbrev pub rename_piece : Piece → Piece
  rename_piece (word w) = word (if is_identifier language w then rename w else w)
  rename_piece (mark c) = mark c

  abbrev rename_names : List (Token × Token) → List (Token × Token)
  rename_names = map λ n. (rename n.0, n.1)

  -- the names that are given so far are those of identifiers
  abbrev Named : List (Token × Token) → Type 0
  Named = All λ n. is_identifier language n.0 ≡ true

  module _ (r : IsRenaming language rename) where
    find_name-rename :
        (w : Token) (names : List (Token × Token))
        → is_identifier language w ≡ true
        → Named names
        → find_name (rename w) (rename_names names) ≡ find_name w names
    find_name-rename w [] i h = refl
    find_name-rename w ((v, name) ∷ names) i (j, h) =
        rw (r.injective v w j i, find_name-rename w names i h) refl

    rename_piece-own :
        (w : Token) → is_identifier language w ≡ true → rename_piece (word w) ≡ word (rename w)
    rename_piece-own w i = rw i refl

    rename_piece-other :
        (w : Token) → is_identifier language w ≡ false → rename_piece (word w) ≡ word w
    rename_piece-other w i = rw i refl

    replace_from-rename :
        (ps : List Piece) (names : List (Token × Token)) (counter : ℕ)
        → Named names
        → replace_from language (rename_names names) counter (map rename_piece ps)
          ≡ replace_from language names counter ps
    replace_from-rename [] names counter h = unfold replace_from in refl
    replace_from-rename (mark c ∷ ps) names counter h =
        replace_from-mark language (rename_names names) counter c (map rename_piece ps)
        ∙ ap (λ t. c ∷ t) (replace_from-rename ps names counter h)
        ∙ sym (replace_from-mark language names counter c ps)
    replace_from-rename (word w ∷ ps) names counter h =
        let now = map rename_piece ps in
        elim (Bool-cases (is_identifier language w)) [
          | inr other ↦
              ap (λ p. replace_from language (rename_names names) counter (p ∷ now))
                (rename_piece-other w other)
              ∙ replace_from-other language (rename_names names) counter w now other
              ∙ ap (λ t. w ++ t) (replace_from-rename ps names counter h)
              ∙ sym (replace_from-other language names counter w ps other)
          | inl own ↦
              let found = find_name-rename w names own h in
              let own' = r.to_identifier w own in
              ap (λ p. replace_from language (rename_names names) counter (p ∷ now))
                (rename_piece-own w own)
              ∙ elim (Option-cases (find_name w names)) [
                | inr (name, f) ↦
                    replace_from-known language (rename_names names) counter (rename w) now name
                      own' (found ∙ f)
                    ∙ ap (λ t. name ++ t) (replace_from-rename ps names counter h)
                    ∙ sym (replace_from-known language names counter w ps name own f)
                | inl f ↦
                    replace_from-new language (rename_names names) counter (rename w) now own'
                      (found ∙ f)
                    ∙ ap (λ t. id_name counter ++ t)
                        (replace_from-rename ps ((w, id_name counter) ∷ names) (counter + 1)
                          (own, h))
                    ∙ sym (replace_from-new language names counter w ps own f)
              ]
        ]

-- Two programs of which one is the other with its identifiers renamed, numbers and strings being replaced
-- before, have the same normalized code.
pub normalize_code-renamed :
    (language : Language) (rename : Token → Token) (original copy : Token)
    → IsRenaming language rename
    → pieces (stripped language copy)
      ≡ map (rename_piece language rename) (pieces (stripped language original))
    → normalize_code language copy ≡ normalize_code language original
unfolding normalize_code replace_identifiers
normalize_code-renamed language rename original copy r e =
    ap (λ t. trim (collapse_spaces false t))
      (ap (replace_from language [] 0) e
        ∙ replace_from-rename language rename r (pieces (stripped language original)) [] 0 tt)
