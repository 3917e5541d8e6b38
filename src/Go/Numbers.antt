-- ===== src/Go/Numbers.antt =====
-- Numbers and lists of them, written and read back.
use gpu_over_ip_capnp.Base.{
  ℕ, ◌-◌, ◌^◌, ◌<◌, ◌≡◌, refl, sym, ap, ◌∙◌, true, false, none, some, List, [], ◌∷◌, ◌++◌,
  append-nil, ◌==◌, leb, Text, scan, is_digit, pos, All, decimal, decimal_head, scan-decimal, ◌≤◌,
  ◌+◌, ◌*◌, ltb, AllDigits, decimal-AllDigits, arith,
}
use gpu_over_ip_capnp.Go.{
  split_comma, split_on, join_comma, add_first, all_digits, magnitude, int64_limit, atoi, signed,
  parse_digits, parse_uint, value, uint64_limit, atoi_or_limit, int_or_limit,
}

abbrev pub NoComma : Text → Type 0
NoComma t = All (λ c. (c == b',') ≡ false) t

split-NoComma : (t : Text) → NoComma t → split_comma t ≡ t ∷ []
unfolding split_on
split-NoComma [] h = refl
split-NoComma (c ∷ t) h = rw h.0 (ap (add_first c) (split-NoComma t h.1))

split-append : (t rest : Text) → NoComma t → split_comma (t ++ b',' ∷ rest) ≡ t ∷ split_comma rest
unfolding split_on
split-append [] rest h = refl
split-append (c ∷ t) rest h = rw h.0 (ap (add_first c) (split-append t rest h.1))

-- A list of texts without commas is split again as it was joined.
pub split_comma-join_comma :
    (t : Text) (ts : List Text)
    → NoComma t
    → All NoComma ts
    → split_comma (join_comma (t ∷ ts)) ≡ t ∷ ts
unfolding join_comma
split_comma-join_comma t [] h hs = split-NoComma t h
split_comma-join_comma t (u ∷ ts) h hs =
    split-append t (join_comma (u ∷ ts)) h
    ∙ ap (λ us. t ∷ us) (split_comma-join_comma u ts hs.0 hs.1)

AllDigits-NoComma : (t : Text) → AllDigits t → NoComma t
AllDigits-NoComma [] h = tt
AllDigits-NoComma (c ∷ t) h = (ground arith, AllDigits-NoComma t h.1)

pub decimal-NoComma : (n : ℕ) → NoComma (decimal n)
decimal-NoComma n = AllDigits-NoComma (decimal n) (decimal-AllDigits n)

pub append-NoComma : (t u : Text) → NoComma t → NoComma u → NoComma (t ++ u)
append-NoComma [] u h k = k
append-NoComma (c ∷ t) u h k = (h.0, append-NoComma t u h.1 k)

all_digits-AllDigits : (t : Text) → AllDigits t → all_digits t ≡ true
all_digits-AllDigits [] h = refl
all_digits-AllDigits (c ∷ t) h = rw h.0 (all_digits-AllDigits t h.1)

all_digits-append : (t u : Text) (c : ℕ) → is_digit c ≡ false → all_digits (t ++ c ∷ u) ≡ false
all_digits-append [] u c h = rw h refl
all_digits-append (x ∷ t) u c h = ground (arith, all_digits-append t u c h)

-- A text that begins with a digit has no sign.
atoi-digit :
    (c : ℕ) (t : Text)
    → is_digit c ≡ true
    → atoi (c ∷ t) ≡ signed pos (magnitude (int64_limit - 1) (c ∷ t))
unfolding atoi
atoi-digit c t h =
    let minus : (c == b'-') ≡ false = ground arith in
    let plus : (c == b'+') ≡ false = ground arith in rw (minus, plus) refl

pub atoi-decimal : (n : ℕ) → n < 2 ^ 63 → atoi (decimal n) ≡ some (pos n)
unfolding magnitude
atoi-decimal n h =
    let (c, t, e, d) = decimal_head n in
    let digits : all_digits (c ∷ t) ≡ true =
      ap all_digits (sym e) ∙ all_digits-AllDigits (decimal n) (decimal-AllDigits n) in
    let read : (scan 0 (c ∷ t)).0 ≡ n =
      ap (λ u. (scan 0 u).0) (sym e ∙ sym (append-nil (decimal n)))
      ∙ ap (λ (p : ℕ × Text). p.0) (scan-decimal n [] tt) in
    let fits : leb n (int64_limit - 1) ≡ true = ground arith in
    ap atoi e ∙ atoi-digit c t d ∙ rw (digits, read, fits) refl

-- What stands behind a number and is no digit makes an error of it.
pub atoi-decimal_append :
    (n c : ℕ) (t : Text) → is_digit c ≡ false → atoi (decimal n ++ c ∷ t) ≡ none
unfolding magnitude
atoi-decimal_append n c t h =
    let (d, u, e, k) = decimal_head n in
    let mixed : all_digits (d ∷ (u ++ c ∷ t)) ≡ false = all_digits-append (d ∷ u) t c h in
    ap (λ v. atoi (v ++ c ∷ t)) e ∙ atoi-digit d (u ++ c ∷ t) k ∙ rw mixed refl

scan-le : (acc : ℕ) (t : Text) → acc ≤ (scan acc t).0
unfolding scan
scan-le acc [] = omega arith
scan-le acc (c ∷ t) = ground (arith, scan-le (acc * 10 + (c - b'0')) t)

parse_digits-scan :
    (acc : ℕ) (t : Text)
    → AllDigits t
    → (scan acc t).0 < uint64_limit
    → parse_digits acc t ≡ value (scan acc t).0
unfolding scan
parse_digits-scan acc [] d h = refl
parse_digits-scan acc (c ∷ t) d h =
    let m = acc * 10 + (c - b'0') in
    let more : (scan m t).0 < uint64_limit = ground arith in
    let small : ltb m uint64_limit ≡ true = ground (arith, scan-le m t) in
    rw (d.0, small) (parse_digits-scan m t d.1 more)

pub parse_uint-decimal : (n : ℕ) → n < 2 ^ 64 → parse_uint (decimal n) ≡ value n
parse_uint-decimal n h =
    let (c, t, e, d) = decimal_head n in
    let read : (scan 0 (decimal n)).0 ≡ n =
      ap (λ u. (scan 0 u).0) (sym (append-nil (decimal n)))
      ∙ ap (λ (p : ℕ × Text). p.0) (scan-decimal n [] tt) in
    ap parse_uint e
    ∙ ap (parse_digits 0) (sym e)
    ∙ parse_digits-scan 0 (decimal n) (decimal-AllDigits n) (omega (arith, read))
    ∙ ap value read

atoi_or_limit-digit :
    (c : ℕ) (t : Text)
    → is_digit c ≡ true
    → atoi_or_limit (c ∷ t) ≡ int_or_limit pos (int64_limit - 1) (parse_uint (c ∷ t))
unfolding atoi_or_limit
atoi_or_limit-digit c t h =
    let minus : (c == b'-') ≡ false = ground arith in
    let plus : (c == b'+') ≡ false = ground arith in rw (minus, plus) refl

pub atoi_or_limit-decimal : (n : ℕ) → n < 2 ^ 63 → atoi_or_limit (decimal n) ≡ pos n
atoi_or_limit-decimal n h =
    let (c, t, e, d) = decimal_head n in
    let fits : leb n (int64_limit - 1) ≡ true = ground arith in
    ap atoi_or_limit e
    ∙ atoi_or_limit-digit c t d
    ∙ ap (λ u. int_or_limit pos (int64_limit - 1) (parse_uint u)) (sym e)
    ∙ ap (int_or_limit pos (int64_limit - 1)) (parse_uint-decimal n (omega arith))
    ∙ rw fits refl
