-- ===== src/Sandbox/Compare/Words.antt =====
-- The words of a line of an output, and what the normal form keeps of them.
use code_warzz.Sandbox.Compare.{
  Text, is_space, is_empty, trim_start, trim_end, trim, push_char, starts_with_space,
  collapse_spaces,
}
use code_warzz.Prelude.{
  ℕ, ◌≡◌, ◌≢◌, refl, sym, ap, ◌∙◌, inl, inr, Bool, true, false, not, List, [], ◌∷◌, map, arith,
  if◌then◌else◌, Bool-cases, select,
}

-- nothing follows, or white space
abbrev pub is_end : Text → Bool
is_end [] = true
is_end (c ∷ s) = is_space c

-- The words of a text: its longest runs without white space.
unfoldable pub words : Text → List Text
words [] = []
words (c ∷ s) =
    let rest = words s in
    if is_space c then rest else if is_end s then (c ∷ []) ∷ rest else push_char c rest

abbrev pub has_words : List Text → Bool
has_words [] = false
has_words (w ∷ ws) = true

-- The words of the lines that have any.
abbrev pub filled : List Text → List (List Text)
filled lines = select has_words (map words lines)

words-trim_start : (s : Text) → words (trim_start s) ≡ words s
unfolding words trim_start
words-trim_start [] = refl
words-trim_start (c ∷ s) = ground (arith, words-trim_start s)

is_end-trim_end : (s : Text) → is_end (trim_end s) ≡ is_end s
unfolding trim_end
is_end-trim_end [] = refl
is_end-trim_end (c ∷ s) = ground arith

words-trim_end : (s : Text) → words (trim_end s) ≡ words s
unfolding words trim_end
words-trim_end [] = refl
words-trim_end (c ∷ s) = ground (arith, words-trim_end s, is_end-trim_end s)

is_end-collapse_spaces : (s : Text) → is_end (collapse_spaces s) ≡ is_end s
unfolding collapse_spaces
is_end-collapse_spaces [] = refl
is_end-collapse_spaces (c ∷ s) = ground (arith, is_end-collapse_spaces s)

words-collapse_spaces : (s : Text) → words (collapse_spaces s) ≡ words s
unfolding words collapse_spaces
words-collapse_spaces [] = refl
words-collapse_spaces (c ∷ s) = ground (arith, words-collapse_spaces s, is_end-collapse_spaces s)

-- the words with one space between them
unfoldable pub unwords : List Text → Text
unwords [] = []
unwords ([] ∷ []) = []
unwords ([] ∷ v ∷ ws) = 32 ∷ unwords (v ∷ ws)
unwords ((c ∷ w) ∷ ws) = c ∷ unwords (w ∷ ws)

words-none : (s : Text) → words s ≡ [] → trim_end s ≡ []
unfolding words trim_end
words-none [] h = refl
words-none (c ∷ s) h = elim (Bool-cases (is_space c)) [
  | inl e ↦ let ih = words-none s (rw e at h) in rw (e, ih) refl
  | inr e ↦ absurd (some_word (words s) (is_end s) (rw e at h))
]
  where
    some_word : (ws : List Text) (b : Bool) → (if b then (c ∷ []) ∷ ws else push_char c ws) ≡ [] → ⊥
    some_word ws true h = cc
    some_word [] false h = cc
    some_word (w ∷ ws) false h = cc

trim_end-tail : (c : ℕ) (s : Text) → trim_end (c ∷ s) ≡ c ∷ s → trim_end s ≡ s
unfolding trim_end
trim_end-tail c s h = ground arith

-- A text with no white space at its end, collapsed, is its words with one space between them,
-- behind a space if it begins with white space.
collapse-unwords :
    (s : Text)
    → trim_end s ≡ s
    → collapse_spaces s
      ≡ (if starts_with_space s then 32 ∷ unwords (words s) else unwords (words s))
unfolding words collapse_spaces unwords
collapse-unwords [] h = refl
collapse-unwords (c ∷ s) h = elim (Bool-cases (is_space c)) [
  | inl e ↦ elim (Bool-cases (starts_with_space s)) [
    | inl b ↦ rw (e, b) (rw b at (collapse-unwords s (trim_end-tail c s h)))
    | inr b ↦ rw (e, b) (ap (λ l. 32 ∷ l) (rw b at (collapse-unwords s (trim_end-tail c s h))))
  ]
  | inr e ↦
      rw e (
        ap (λ l. c ∷ l) (collapse-unwords s (trim_end-tail c s h)) ∙ joined s (trim_end-tail c s h))
]
  where
    spaced : (ws : List Text) → ws ≢ [] → c ∷ 32 ∷ unwords ws ≡ unwords ((c ∷ []) ∷ ws)
    spaced [] ne = absurd (ne refl)
    spaced (w ∷ ws) ne = refl

    pushed : (ws : List Text) → ws ≢ [] → c ∷ unwords ws ≡ unwords (push_char c ws)
    pushed [] ne = absurd (ne refl)
    pushed (w ∷ ws) ne = refl

    joined :
        (t : Text)
        → trim_end t ≡ t
        → c ∷ (if starts_with_space t then 32 ∷ unwords (words t) else unwords (words t))
          ≡ unwords (if is_end t then (c ∷ []) ∷ words t else push_char c (words t))
    joined [] k = refl
    joined (d ∷ t) k =
        let gone : words (d ∷ t) ≡ [] → ⊥ = λ n. let e = words-none (d ∷ t) n in cc in
        elim (Bool-cases (is_space d)) [
          | inl b ↦ rw b (spaced (words t) (λ n. gone (rw b n)))
          | inr b ↦ rw b (pushed _ (λ n. gone (rw b n)))
        ]

trim_end-trim_end : (s : Text) → trim_end (trim_end s) ≡ trim_end s
unfolding trim_end
trim_end-trim_end [] = refl
trim_end-trim_end (c ∷ s) = ground (arith, trim_end-trim_end s)

trim_end-trim_start : (s : Text) → trim_end s ≡ s → trim_end (trim_start s) ≡ trim_start s
unfolding trim_start
trim_end-trim_start [] h = h
trim_end-trim_start (c ∷ s) h = elim (Bool-cases (is_space c)) [
  | inl e ↦ rw e (trim_end-trim_start s (trim_end-tail c s h))
  | inr e ↦ rw e h
]

starts-trim_start : (s : Text) → starts_with_space (trim_start s) ≡ false
unfolding trim_start
starts-trim_start [] = refl
starts-trim_start (c ∷ s) = ground (arith, starts-trim_start s)

words-trim : (s : Text) → words (trim s) ≡ words s
unfolding trim
words-trim s = words-trim_start (trim_end s) ∙ words-trim_end s

-- A line in normal form is its words with one space between them.
collapse-trim : (line : Text) → collapse_spaces (trim line) ≡ unwords (words line)
collapse-trim line =
    let clean : trim_end (trim line) ≡ trim line =
      unfold trim in trim_end-trim_start (trim_end line) (trim_end-trim_end line) in
    let begins : starts_with_space (trim line) ≡ false =
      unfold trim in starts-trim_start (trim_end line) in
    collapse-unwords (trim line) clean ∙ rw begins (ap unwords (words-trim line))

words-unwords : (line : Text) → words (unwords (words line)) ≡ words line
words-unwords line =
    ap words (sym (collapse-trim line)) ∙ words-collapse_spaces (trim line) ∙ words-trim line

is_empty-unwords : (line : Text) → not (is_empty (unwords (words line))) ≡ has_words (words line)
unfolding words unwords
is_empty-unwords [] = refl
is_empty-unwords (c ∷ s) = elim (Bool-cases (is_space c)) [
  | inl e ↦ rw e (is_empty-unwords s)
  | inr e ↦ rw e (some_word (is_end s) (words s))
]
  where
    some_word :
        (b : Bool) (ws : List Text)
        → not (is_empty (unwords (if b then (c ∷ []) ∷ ws else push_char c ws)))
          ≡ has_words (if b then (c ∷ []) ∷ ws else push_char c ws)
    some_word true [] = refl
    some_word true (w ∷ ws) = refl
    some_word false [] = refl
    some_word false (w ∷ ws) = refl

pub norm_lines-unwords :
    (lines : List Text)
    → select (λ line. not (is_empty line)) (map (λ line. collapse_spaces (trim line)) lines)
      ≡ map unwords (filled lines)
norm_lines-unwords [] = refl
norm_lines-unwords (line ∷ lines) = elim (Bool-cases (has_words (words line))) [
  | inl e ↦
      rw (collapse-trim line, is_empty-unwords line, e)
        (ap (λ l. unwords (words line) ∷ l) (norm_lines-unwords lines))
  | inr e ↦ rw (collapse-trim line, is_empty-unwords line, e) (norm_lines-unwords lines)
]

pub map-words-unwords : (lines : List Text) → map words (map unwords (filled lines)) ≡ filled lines
map-words-unwords [] = refl
map-words-unwords (line ∷ lines) = elim (Bool-cases (has_words (words line))) [
  | inl e ↦ rw (e, words-unwords line) (ap (λ l. words line ∷ l) (map-words-unwords lines))
  | inr e ↦ rw e (map-words-unwords lines)
]
