-- ===== src/RateLimit/Rules.antt =====
-- `DEFAULT_RULES` and `findRule` of core/src/middlewares/rateLimiter.middleware.ts. A pattern
-- "POST:/submissions" is its method and its path; paths are lists of code units.
use code_warzz.RateLimit.Core.{RateLimitRule}
use code_warzz.Prelude.{
  ℕ, Bool, true, false, ◌&&◌, Option, none, some, List, [], ◌∷◌, ◌++◌, leb, ◌==◌, if◌then◌else◌,
  is_some, get_or,
}

abbrev pub Text : Type 0
Text = List ℕ

pub data Method : Type 0 where
  get post put patch delete head options : Method

abbrev pub same_method : Method → Method → Bool
same_method get get = true
same_method post post = true
same_method put put = true
same_method patch patch = true
same_method delete delete = true
same_method head head = true
same_method options options = true
same_method _ _ = false

-- the method in a text
abbrev pub spelled : Method → Text
spelled get = b'G' ∷ b'E' ∷ b'T' ∷ []
spelled post = b'P' ∷ b'O' ∷ b'S' ∷ b'T' ∷ []
spelled put = b'P' ∷ b'U' ∷ b'T' ∷ []
spelled patch = b'P' ∷ b'A' ∷ b'T' ∷ b'C' ∷ b'H' ∷ []
spelled delete = b'D' ∷ b'E' ∷ b'L' ∷ b'E' ∷ b'T' ∷ b'E' ∷ []
spelled head = b'H' ∷ b'E' ∷ b'A' ∷ b'D' ∷ []
spelled options = b'O' ∷ b'P' ∷ b'T' ∷ b'I' ∷ b'O' ∷ b'N' ∷ b'S' ∷ []

pub record Entry : Type 0 where
  pub method : Method
  pub path : Text
  pub rule : RateLimitRule

abbrev pub submissions : Text
submissions = b'/' ∷ b's' ∷ b'u' ∷ b'b' ∷ b'm' ∷ b'i' ∷ b's' ∷ b's' ∷ b'i' ∷ b'o' ∷ b'n' ∷ b's' ∷ []

abbrev pub run_suffix : Text
run_suffix = b'/' ∷ b'r' ∷ b'u' ∷ b'n' ∷ []

abbrev pub problems : Text
problems = b'/' ∷ b'p' ∷ b'r' ∷ b'o' ∷ b'b' ∷ b'l' ∷ b'e' ∷ b'm' ∷ b's' ∷ []

abbrev pub login : Text
login = b'/' ∷ b'a' ∷ b'u' ∷ b't' ∷ b'h' ∷ b'/' ∷ b'l' ∷ b'o' ∷ b'g' ∷ b'i' ∷ b'n' ∷ []

abbrev pub signin : Text
signin = b'/' ∷ b'a' ∷ b'u' ∷ b't' ∷ b'h' ∷ b'/' ∷ b's' ∷ b'i' ∷ b'g' ∷ b'n' ∷ b'i' ∷ b'n' ∷ []

abbrev pub leaderboard : Text
leaderboard = b'/' ∷ b'l' ∷ b'e' ∷ b'a' ∷ b'd' ∷ b'e' ∷ b'r' ∷ b'b' ∷ b'o' ∷ b'a' ∷ b'r' ∷ b'd' ∷ []

abbrev limit : ℕ → ℕ → RateLimitRule
limit key n = record { key = key; max_tokens = n; refill = n; requested = none }

-- the keys 'rl:submission', 'rl:run', 'rl:problems', 'rl:login' and 'rl:leaderboard'
abbrev pub submission_rule : RateLimitRule
submission_rule = limit 0 10

abbrev pub run_rule : RateLimitRule
run_rule = limit 1 30

-- `DEFAULT_RULES`, in the order of its properties
abbrev pub default_rules : List Entry
default_rules =
    record { method = post; path = submissions; rule = submission_rule }
    ∷ record { method = post; path = submissions ++ run_suffix; rule = run_rule }
    ∷ record { method = get; path = problems; rule = limit 2 60 }
    ∷ record { method = post; path = login; rule = limit 3 5 }
    ∷ record { method = post; path = signin; rule = limit 3 5 }
    ∷ record { method = get; path = leaderboard; rule = limit 4 120 }
    ∷ []

abbrev pub same_text : Text → Text → Bool
same_text [] [] = true
same_text (a ∷ left) (b ∷ right) = a == b && same_text left right
same_text _ _ = false

-- `path.startsWith(prefix)`
unfoldable pub starts_with : Text → Text → Bool
starts_with path [] = true
starts_with [] (c ∷ prefix) = false
starts_with (a ∷ path) (c ∷ prefix) = a == c && starts_with path prefix

abbrev pub is_digit : ℕ → Bool
is_digit c = leb b'0' c && leb c b'9'

unfoldable pub drop_digits : Text → Text
drop_digits [] = []
drop_digits (c ∷ cs) = let rest = drop_digits cs in if is_digit c then rest else c ∷ cs

-- what is left of "/api/v1…" behind the version, if there is one
unfoldable pub after_mount : Text → Option Text
unfolding drop_digits
after_mount (a ∷ b ∷ c ∷ d ∷ e ∷ f ∷ digit ∷ rest) =
    if same_text (a ∷ b ∷ c ∷ d ∷ e ∷ f ∷ []) (b'/' ∷ b'a' ∷ b'p' ∷ b'i' ∷ b'/' ∷ b'v' ∷ [])
      && is_digit digit
    then some (drop_digits rest)
    else none
after_mount _ = none

abbrev pub or_slash : Text → Text
or_slash [] = b'/' ∷ []
or_slash (c ∷ cs) = c ∷ cs

-- `stripMountPoint`
unfoldable pub strip_mount_point : Text → Text
unfolding after_mount
strip_mount_point full_path = or_slash (get_or (after_mount full_path) full_path)

-- `DEFAULT_RULES[exact]`
unfoldable pub exact_rule : Text → List Entry → Option RateLimitRule
exact_rule exact [] = none
exact_rule exact (e ∷ es) =
    let rest = exact_rule exact es in
    if same_text (spelled e.method ++ b':' ∷ e.path) exact then some e.rule else rest

-- the loop over the entries
unfoldable pub prefix_rule : Method → Text → List Entry → Option RateLimitRule
unfolding starts_with
prefix_rule method path [] = none
prefix_rule method path (e ∷ es) =
    let rest = prefix_rule method path es in
    if same_method e.method method && starts_with path e.path then some e.rule else rest

-- `findRule`
unfoldable pub find_rule : Method → Text → Option RateLimitRule
unfolding strip_mount_point exact_rule prefix_rule
find_rule method full_path =
    let path = strip_mount_point full_path in
    let exact = exact_rule (spelled method ++ path) default_rules in
    if is_some exact then exact else prefix_rule method path default_rules

-- a path as Express gives it, behind the mount point or without one
abbrev pub starts_with_slash : Text → Bool
starts_with_slash [] = false
starts_with_slash (c ∷ cs) = c == b'/'
