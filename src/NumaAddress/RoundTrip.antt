-- ===== src/NumaAddress/RoundTrip.antt =====
-- `fromString` after `toString`.
use gpu_over_ip_capnp.Base.{
  ℕ, suc, ◌≡◌, refl, sym, ap, ◌∙◌, Bool, true, false, some, [], ◌∷◌, ◌++◌, if◌then◌else◌, ◌==◌, ℤ,
  pos, negsuc, neg_ℤ, Text, decimal, scan, is_digit, arith, scan-decimal, decimal_head, AllDigits,
  decimal-AllDigits, append-nil,
}
use gpu_over_ip_capnp.NumaAddress.{
  NumaAddress, decimal_ℤ, is_space, skip_space, in_range, checked, stoi_digits, stoi_sign, stoi,
  to_string, split_colon, from_string,
}

scan-decimal_all : (n : ℕ) → (scan 0 (decimal n)).0 ≡ n
scan-decimal_all n =
    let e : scan 0 (decimal n ++ []) ≡ (n, []) = scan-decimal n [] tt in
    ap (λ r. r.0) ((rw append-nil at e))

stoi_digits-decimal :
    (negative : Bool) (n : ℕ)
    → stoi_digits negative (decimal n) ≡ checked (if negative then neg_ℤ (pos n) else pos n)
stoi_digits-decimal negative n =
    let (c, cs, e, digit) = decimal_head n in
    let value : (scan 0 (c ∷ cs)).0 ≡ n = ap (λ t. (scan 0 t).0) (sym e) ∙ scan-decimal_all n in
    rw e (first c cs digit value)
  where
    first :
        (c : ℕ) (cs : Text)
        → is_digit c ≡ true
        → (scan 0 (c ∷ cs)).0 ≡ n
        → stoi_digits negative (c ∷ cs) ≡ checked (if negative then neg_ℤ (pos n) else pos n)
    first c cs digit value = unfold stoi_digits in rw (digit, value) refl

stoi_pos : (n : ℕ) → stoi (decimal n) ≡ checked (pos n)
unfolding stoi skip_space stoi_sign
stoi_pos n =
    let (c, cs, e, digit) = decimal_head n in
    ap stoi e ∙ from_digit c cs digit ∙ ap (stoi_digits false) (sym e) ∙ stoi_digits-decimal false n
  where
    from_digit :
        (c : ℕ) (cs : Text) → is_digit c ≡ true → stoi (c ∷ cs) ≡ stoi_digits false (c ∷ cs)
    from_digit c cs digit =
        let solid : is_space c ≡ false = ground arith in
        let no_minus : (c == b'-') ≡ false = ground arith in
        let no_plus : (c == b'+') ≡ false = ground arith in rw solid (rw no_minus (rw no_plus refl))

stoi_ℤ : (z : ℤ) → stoi (decimal_ℤ z) ≡ checked z
unfolding decimal_ℤ stoi skip_space stoi_sign
stoi_ℤ (pos n) = stoi_pos n
stoi_ℤ (negsuc n) = stoi_digits-decimal true (suc n) ∙ ground arith

-- No character is a colon.
abbrev NoColon : Text → Type 0
NoColon [] = Unit
NoColon (c ∷ cs) = ((c == b':') ≡ false) × NoColon cs

digits-NoColon : (cs : Text) → AllDigits cs → NoColon cs
digits-NoColon [] h = tt
digits-NoColon (c ∷ cs) h = (ground arith, digits-NoColon cs h.1)

decimal_ℤ-NoColon : (z : ℤ) → NoColon (decimal_ℤ z)
unfolding decimal_ℤ
decimal_ℤ-NoColon (pos n) = digits-NoColon (decimal n) (decimal-AllDigits n)
decimal_ℤ-NoColon (negsuc n) = (refl, digits-NoColon (decimal (suc n)) (decimal-AllDigits (suc n)))

split_colon-append :
    (before after : Text)
    → NoColon before
    → split_colon (before ++ b':' ∷ after) ≡ some (before, after)
unfolding split_colon
split_colon-append [] after h = refl
split_colon-append (c ∷ before) after h = rw h.0 (rw (split_colon-append before after h.1) refl)

-- An address whose identifiers are of the range of `int` is read back from its text.
from_string-to_string :
    (raw a : NumaAddress)
    → in_range a.server_id ≡ true
    → in_range a.numa_id ≡ true
    → from_string raw (to_string a) ≡ some a
unfolding from_string to_string
from_string-to_string raw a server numa =
    let parts =
      split_colon-append (decimal_ℤ a.server_id) (decimal_ℤ a.numa_id)
        (decimal_ℤ-NoColon a.server_id) in
    ground (arith, parts, stoi_ℤ a.server_id, stoi_ℤ a.numa_id)
