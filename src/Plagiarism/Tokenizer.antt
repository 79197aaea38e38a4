-- ===== src/Plagiarism/Tokenizer.antt =====
-- core/src/service/plagiarism/tokenizer.ts: `normalizeCode`. A text is the list of its code units; each
-- `replace` with a regular expression is the scan from left to right that the expression asks for.
use code_warzz.Plagiarism.Fingerprint.{Token}
use code_warzz.Plagiarism.Keywords.{Language, python, keyword_sets}
use Prim.Native.Char.{code}
use mathlib.Core.List.{reverse}
use mathlib.Core.Option
use code_warzz.Prelude.{
  ℕ, zero, suc, ◌+◌, ◌-◌, ◌/◌, ◌%◌, String, Bool, true, false, not, ◌&&◌, ◌||◌, Option, none, some,
  List, [], ◌∷◌, ◌++◌, map, ltb, leb, ◌==◌, if◌then◌else◌, length, drop, any,
}

abbrev pub codes : String → Token
codes String.[] = []
codes (String.◌∷◌ c s) = code c ∷ codes s

abbrev pub same_text : Token → Token → Bool
same_text [] [] = true
same_text (a ∷ left) (b ∷ right) = a == b && same_text left right
same_text _ _ = false

abbrev pub starts_with : Token → Token → Bool
starts_with [] text = true
starts_with (a ∷ prefix) [] = false
starts_with (a ∷ prefix) (b ∷ text) = a == b && starts_with prefix text

-- what `.` does not match
abbrev pub is_newline : ℕ → Bool
is_newline c = c == 10 || c == 13 || c == 8232 || c == 8233

-- `\s`
abbrev pub is_space : ℕ → Bool
is_space c =
    (leb 9 c && leb c 13)
    || c == 32
    || c == 160
    || c == 5760
    || (leb 8192 c && leb c 8202)
    || c == 8232
    || c == 8233
    || c == 8239
    || c == 8287
    || c == 12288
    || c == 65279

abbrev pub is_digit : ℕ → Bool
is_digit c = leb b'0' c && leb c b'9'

-- `[a-zA-Z_]`
abbrev pub is_letter : ℕ → Bool
is_letter c = (leb b'a' c && leb c b'z') || (leb b'A' c && leb c b'Z') || c == b'_'

-- `\w`
abbrev pub is_word_char : ℕ → Bool
is_word_char c = is_letter c || is_digit c

-- `/<marker>.*$/gm`; `inside` a match nothing is kept up to the end of the line
unfoldable pub replace_line_comments : Token → Bool → Token → Token
replace_line_comments marker inside [] = []
replace_line_comments marker true (c ∷ text) = elim (is_newline c) [
  | true ↦ c ∷ replace_line_comments marker false text
  | false ↦ replace_line_comments marker true text
]
replace_line_comments marker false (c ∷ text) = elim (starts_with marker (c ∷ text)) [
  | true ↦ b' ' ∷ replace_line_comments marker true text
  | false ↦ c ∷ replace_line_comments marker false text
]

-- the length of the shortest text up to the end of `close`
unfoldable pub find_end : Token → Token → Option ℕ
find_end close [] = none
find_end close (c ∷ text) =
    let later = Option.map (λ n. n + 1) (find_end close text) in
    if starts_with close (c ∷ text) then some (length close) else later

-- `/<open>[\s\S]*?<close>/g`; a match has `skip` more characters
unfoldable pub replace_blocks : Token → Token → ℕ → Token → Token
unfolding find_end
replace_blocks open_ close skip [] = []
replace_blocks open_ close (suc skip) (c ∷ text) = replace_blocks open_ close skip text
replace_blocks open_ close zero (c ∷ text) = elim (starts_with open_ (c ∷ text)) [
  | true ↦ elim (find_end close (drop (length open_) (c ∷ text))) [
    | some n ↦ b' ' ∷ replace_blocks open_ close (length open_ + n - 1) text
    | none ↦ c ∷ replace_blocks open_ close zero text
  ]
  | false ↦ c ∷ replace_blocks open_ close zero text
]

-- `COMMENT_PATTERNS`, one after the other
unfoldable pub replace_comments : Language → Token → Token
unfolding replace_line_comments replace_blocks
replace_comments python text = replace_blocks (codes "'''") (codes "'''") 0 (
    replace_blocks (34 ∷ 34 ∷ 34 ∷ []) (34 ∷ 34 ∷ 34 ∷ []) 0
      (replace_line_comments (codes "#") false text))
replace_comments _ text =
    replace_blocks (codes "/*") (codes "*/") 0 (replace_line_comments (codes "//") false text)

-- the length of a string behind its opening quote; a backslash takes the next character with it
unfoldable pub string_end : ℕ → Token → Option ℕ
string_end quote [] = none
string_end quote (c ∷ []) = if c == quote then some 1 else none
string_end quote (c ∷ d ∷ text) =
    let escaped = Option.map (λ n. n + 2) (string_end quote text) in
    let later = Option.map (λ n. n + 1) (string_end quote (d ∷ text)) in
    if c == quote
    then some 1
    else if c == 92
    then (if is_newline d then none else escaped)
    else later

-- `STRING_PATTERN`
unfoldable pub replace_strings : ℕ → Token → Token
unfolding string_end
replace_strings skip [] = []
replace_strings (suc skip) (c ∷ text) = replace_strings skip text
replace_strings zero (c ∷ text) = elim (c == 34 || c == 39) [
  | true ↦ elim (string_end c text) [
    | some n ↦ 34 ∷ b'S' ∷ b'T' ∷ b'R' ∷ 34 ∷ replace_strings n text
    | none ↦ c ∷ replace_strings zero text
  ]
  | false ↦ c ∷ replace_strings zero text
]

-- a longest run of `\w`, or another character: between the two lies what `\b` matches
pub data Piece : Type 0 where
  word : Token → Piece
  mark : ℕ → Piece

abbrev pub add_char : ℕ → List Piece → List Piece
add_char c (word w ∷ ps) = word (c ∷ w) ∷ ps
add_char c ps = word (c ∷ []) ∷ ps

unfoldable pub pieces : Token → List Piece
pieces [] = []
pieces (c ∷ text) =
    let rest = pieces text in if is_word_char c then add_char c rest else mark c ∷ rest

abbrev pub text_of : List Piece → Token
text_of [] = []
text_of (word w ∷ ps) = w ++ text_of ps
text_of (mark c ∷ ps) = c ∷ text_of ps

abbrev pub all_digits : Token → Bool
all_digits [] = true
all_digits (c ∷ w) = is_digit c && all_digits w

abbrev pub number_piece : Piece → Piece
number_piece (word w) = word (if all_digits w then codes "NUM" else w)
number_piece (mark c) = mark c

-- `/\b\d+\b/g`
unfoldable pub replace_numbers : Token → Token
unfolding pieces
replace_numbers text = text_of (map number_piece (pieces text))

-- the decimal digits; the number is enough fuel
abbrev pub decimal : ℕ → ℕ → Token → Token
decimal zero n digits = digits
decimal (suc fuel) n digits = elim (ltb n 10) [
  | true ↦ (48 + n) ∷ digits
  | false ↦ decimal fuel (n / 10) ((48 + n % 10) ∷ digits)
]

-- `ID_${n}`
unfoldable pub id_name : ℕ → Token
id_name n = b'I' ∷ b'D' ∷ b'_' ∷ decimal (n + 1) n []

-- `getKeywords(language).has`
unfoldable pub is_keyword : Language → Token → Bool
is_keyword language w = any (λ k. same_text (codes k) w) (keyword_sets language)

abbrev pub starts_letter : Token → Bool
starts_letter [] = false
starts_letter (c ∷ w) = is_letter c

-- a word that is replaced
unfoldable pub is_identifier : Language → Token → Bool
unfolding is_keyword
is_identifier language w = starts_letter w && not (is_keyword language w)

-- `identifierMap.get`
abbrev pub find_name : Token → List (Token × Token) → Option Token
find_name w [] = none
find_name w ((v, name) ∷ names) =
    let rest = find_name w names in if same_text v w then some name else rest

-- the loop of `replace`, with `identifierMap` and `idCounter`
unfoldable pub replace_from : Language → List (Token × Token) → ℕ → List Piece → Token
replace_from language names counter [] = []
replace_from language names counter (mark c ∷ ps) = c ∷ replace_from language names counter ps
replace_from language names counter (word w ∷ ps) = elim (is_identifier language w) [
  | false ↦ w ++ replace_from language names counter ps
  | true ↦ elim (find_name w names) [
    | some name ↦ name ++ replace_from language names counter ps
    | none ↦
        id_name counter ++ replace_from language ((w, id_name counter) ∷ names) (counter + 1) ps
  ]
]

-- `/\b[a-zA-Z_]\w*\b/g`
unfoldable pub replace_identifiers : Language → Token → Token
unfolding pieces replace_from
replace_identifiers language text = replace_from language [] 0 (pieces text)

-- `/\s+/g`; `after` a space the others are dropped
unfoldable pub collapse_spaces : Bool → Token → Token
collapse_spaces after [] = []
collapse_spaces after (c ∷ text) =
    let rest = collapse_spaces (is_space c) text in
    if is_space c then (if after then rest else b' ' ∷ rest) else c ∷ rest

abbrev pub trim_start : Token → Token
trim_start [] = []
trim_start (c ∷ text) = let rest = trim_start text in if is_space c then rest else c ∷ text

abbrev pub trim : Token → Token
trim text = reverse (trim_start (reverse (trim_start text)))

-- the text before the identifiers are replaced
unfoldable pub stripped : Language → Token → Token
unfolding replace_comments replace_strings replace_numbers
stripped language text = replace_numbers (replace_strings 0 (replace_comments language text))

-- `normalizeCode`
unfoldable pub normalize_code : Language → Token → Token
unfolding stripped replace_identifiers collapse_spaces
normalize_code language text =
    trim (collapse_spaces false (replace_identifiers language (stripped language text)))
