-- ===== src/Plagiarism/Fingerprint.antt =====
-- core/src/service/plagiarism/fingerprint.ts. A hash is a signed 32-bit number, kept as its residue
-- modulo 2 ^ 32; a `Set` is the list of its elements in the order of their insertion.
use code_warzz.Prelude.{
  ℕ, zero, suc, ◌+◌, ◌-◌, ◌*◌, ◌%◌, Bool, List, [], ◌∷◌, ◌++◌, ltb, leb, ◌==◌, if◌then◌else◌,
  length, take, drop, contains,
}

-- the code units of a text
abbrev pub Token : Type 0
Token = List ℕ

-- `DEFAULT_K` and `DEFAULT_W`
abbrev pub default_k : ℕ
default_k = 5

abbrev pub default_w : ℕ
default_w = 4

-- `token.charCodeAt(0)` of a token that is not empty
abbrev pub first_code : Token → ℕ
first_code [] = 0
first_code (c ∷ cs) = c

-- the loop of `rollingHash`, over the tokens from `start` on; it ends where they do
unfoldable pub hash_loop : ℕ → ℕ → List Token → ℕ
hash_loop hash zero ts = hash
hash_loop hash (suc k) [] = hash
hash_loop hash (suc k) (t ∷ ts) = hash_loop ((hash * 31 + first_code t) % 4294967296) k ts

unfoldable pub rolling_hash : List Token → ℕ → ℕ → ℕ
unfolding hash_loop
rolling_hash tokens start k = hash_loop 0 k (drop start tokens)

-- the loop of `generateKGrams` with its rounds left
unfoldable pub k_grams_from : List Token → ℕ → ℕ → ℕ → List ℕ
unfolding rolling_hash
k_grams_from tokens k i zero = []
k_grams_from tokens k i (suc rounds) =
    rolling_hash tokens i k ∷ k_grams_from tokens k (i + 1) rounds

-- `generateKGrams`
unfoldable pub generate_k_grams : List Token → ℕ → List ℕ
unfolding k_grams_from
generate_k_grams tokens k = k_grams_from tokens k 0 (length tokens + 1 - k)

-- `a < b` on signed numbers, given by their residues
abbrev pub signed_lt : ℕ → ℕ → Bool
signed_lt a b = ltb ((a + 2147483648) % 4294967296) ((b + 2147483648) % 4294967296)

-- the inner loop of `winnowing`: the least of a hash and the following ones
unfoldable pub min_hash : ℕ → List ℕ → ℕ
min_hash m [] = m
min_hash m (h ∷ hs) = min_hash (if signed_lt h m then h else m) hs

-- `fingerprints.add(h)`
unfoldable pub add : ℕ → List ℕ → List ℕ
add h s = if contains h s then s else s ++ h ∷ []

-- the outer loop of `winnowing` with its rounds left, over the hashes from `i` on
unfoldable pub winnow_from : ℕ → ℕ → List ℕ → List ℕ → List ℕ
unfolding min_hash add
winnow_from w zero hs fingerprints = fingerprints
winnow_from w (suc rounds) [] fingerprints = fingerprints
winnow_from w (suc rounds) (h ∷ hs) fingerprints =
    winnow_from w rounds hs (add (min_hash h (take (w - 1) hs)) fingerprints)

-- `winnowing`, for windows of at least one hash
unfoldable pub winnowing : List ℕ → ℕ → List ℕ
unfolding winnow_from
winnowing hashes w = winnow_from w (length hashes + 1 - w) hashes []

-- `generateFingerprint`, from the tokens of the normalized code
unfoldable pub generate_fingerprint : List Token → ℕ → ℕ → List ℕ
unfolding generate_k_grams winnowing
generate_fingerprint tokens k w =
    if ltb (length tokens) k then [] else winnowing (generate_k_grams tokens k) w

-- `code.split(' ').filter(t => t.length > 0)`, from the text up to here and the codes to come
unfoldable pub split_from : Token → Token → List Token
split_from t [] = if leb 1 (length t) then t ∷ [] else []
split_from t (c ∷ cs) =
    let rest = split_from [] cs in
    let longer = split_from (t ++ c ∷ []) cs in
    if c == b' ' then (if leb 1 (length t) then t ∷ rest else rest) else longer

unfoldable pub tokens_of : Token → List Token
unfolding split_from
tokens_of code = split_from [] code
