-- ===== src/Go.antt =====
-- The functions of Go's `strings` and `strconv` that the Go sources call, on character codes.
pub mod Numbers
pub mod Fields
use gpu_over_ip_capnp.Base.{
  ℕ, ◌-◌, ◌^◌, Bool, true, false, ◌&&◌, ◌||◌, Option, none, some, List, [], ◌∷◌, if◌then◌else◌,
  ◌==◌, leb, Text, codes, scan, is_digit, ℤ, pos, neg_ℤ, ◌++◌, ◌+◌, ◌*◌, ltb,
}
use mathlib.Core.List.{reverse}

abbrev pub is_space : ℕ → Bool
is_space c = (leb 9 c && leb c 13) || (c == 32 || (c == 0x85 || c == 0xA0))

pub trim_left : Text → Text
trim_left [] = []
trim_left (c ∷ t) = let rest = trim_left t in if is_space c then rest else c ∷ t

-- `strings.TrimSpace`
unfoldable pub trim_space : Text → Text
unfolding trim_left
trim_space t = reverse (trim_left (reverse (trim_left t)))

abbrev pub up_to_space : Text → Text
up_to_space [] = []
up_to_space (c ∷ t) = if is_space c then [] else c ∷ up_to_space t

-- The first of `strings.Fields`, `none` where there is none.
pub first_field : Text → Option Text
unfolding trim_left
first_field t = elim (trim_left t) [ [] ↦ none | c ∷ rest ↦ some (up_to_space (c ∷ rest)) ]

-- Whether the first text is a prefix of the second, as `strings.HasPrefix` answers.
abbrev pub begins : Text → Text → Bool
begins [] t = true
begins (p ∷ ps) [] = false
begins (p ∷ ps) (c ∷ t) = p == c && begins ps t

-- `strings.Contains`
unfoldable pub contains : Text → Text → Bool
contains [] p = begins p []
contains (c ∷ t) p = begins p (c ∷ t) || contains t p

abbrev pub add_first : ℕ → List Text → List Text
add_first c [] = (c ∷ []) ∷ []
add_first c (t ∷ ts) = (c ∷ t) ∷ ts

-- `strings.Split` at one character
unfoldable pub split_on : ℕ → Text → List Text
split_on d [] = [] ∷ []
split_on d (c ∷ t) = let rest = split_on d t in if c == d then [] ∷ rest else add_first c rest

abbrev pub split_comma : Text → List Text
split_comma t = split_on b',' t

abbrev pub all_digits : Text → Bool
all_digits [] = true
all_digits (c ∷ t) = is_digit c && all_digits t

abbrev pub int64_limit : ℕ
int64_limit = 2 ^ 63

-- The magnitude of a number, at most `limit`.
pub magnitude : ℕ → Text → Option ℕ
unfolding scan
magnitude limit [] = none
magnitude limit (c ∷ t) =
    if all_digits (c ∷ t)
    then (if leb (scan 0 (c ∷ t)).0 limit then some (scan 0 (c ∷ t)).0 else none)
    else none

abbrev pub signed : (ℕ → ℤ) → Option ℕ → Option ℤ
signed f none = none
signed f (some n) = some (f n)

-- `strconv.Atoi`
unfoldable pub atoi : Text → Option ℤ
unfolding magnitude
atoi [] = none
atoi (c ∷ t) =
    if c == b'-'
    then signed (λ n. neg_ℤ (pos n)) (magnitude int64_limit t)
    else if c == b'+'
    then signed pos (magnitude (int64_limit - 1) t)
    else signed pos (magnitude (int64_limit - 1) (c ∷ t))

-- `strings.Join(ts, ",")`
unfoldable pub join_comma : List Text → Text
join_comma [] = []
join_comma (t ∷ []) = t
join_comma (t ∷ u ∷ ts) = t ++ (codes "," ++ join_comma (u ∷ ts))

abbrev pub same_text : Text → Text → Bool
same_text [] [] = true
same_text [] (d ∷ u) = false
same_text (c ∷ t) [] = false
same_text (c ∷ t) (d ∷ u) = c == d && same_text t u

abbrev pub add_word : Text → List Text → List Text
add_word [] ts = ts
add_word (c ∷ w) ts = (c ∷ w) ∷ ts

-- `strings.Fields`, behind the beginning of a word.
abbrev pub words : Text → Text → List Text
words w [] = add_word w []
words w (c ∷ t) =
    let more = words [] t in
    let longer = words (w ++ c ∷ []) t in if is_space c then add_word w more else longer

abbrev pub fields : Text → List Text
fields t = words [] t

abbrev pub uint64_limit : ℕ
uint64_limit = 2 ^ 64

-- How the digits of a number end: a character that is none, or a number that is too large, whatever
-- stands behind the digit that makes it so.
pub data Parsed : Type 0 where
  syntax_error out_of_range : Parsed
  value : ℕ → Parsed

abbrev pub parse_digits : ℕ → Text → Parsed
parse_digits n [] = value n
parse_digits n (c ∷ t) =
    let m = n * 10 + (c - b'0') in
    let rest = parse_digits m t in
    if is_digit c then (if ltb m uint64_limit then rest else out_of_range) else syntax_error

abbrev pub parse_uint : Text → Parsed
parse_uint [] = syntax_error
parse_uint (c ∷ t) = parse_digits 0 (c ∷ t)

-- The number that `strconv.ParseUint` gives with its error: 0, or the largest.
abbrev pub uint_or_limit : Parsed → ℕ
uint_or_limit syntax_error = 0
uint_or_limit out_of_range = uint64_limit - 1
uint_or_limit (value n) = n

-- A magnitude of at most `limit`, or what `strconv.ParseInt` gives with its error.
abbrev pub int_or_limit : (ℕ → ℤ) → ℕ → Parsed → ℤ
int_or_limit f limit syntax_error = pos 0
int_or_limit f limit out_of_range = f limit
int_or_limit f limit (value n) = f (if leb n limit then n else limit)

-- The number that `strconv.Atoi` gives, with an error or without.
unfoldable pub atoi_or_limit : Text → ℤ
atoi_or_limit [] = pos 0
atoi_or_limit (c ∷ t) =
    if c == b'-'
    then int_or_limit (λ n. neg_ℤ (pos n)) int64_limit (parse_uint t)
    else if c == b'+'
    then int_or_limit pos (int64_limit - 1) (parse_uint t)
    else int_or_limit pos (int64_limit - 1) (parse_uint (c ∷ t))
