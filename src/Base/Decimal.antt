-- ===== src/Base/Decimal.antt =====
-- Texts as lists of character codes, and the decimal numbers that `std::to_string` writes and
-- `std::stoi` reads.
use Prim.Native.Nat.{ℕ, zero, suc, ◌+◌, ◌-◌, ◌*◌, ◌/◌, ◌%◌, ◌<◌}
use Prim.Native.Char.{code}
use Prim.Native.String.{String}
use mathlib.Core.Path.{◌≡◌, refl, ◌∙◌, ap}
use mathlib.Core.Logic.{inl, inr}
use mathlib.Core.Bool.{Bool, true, false, ◌&&◌}
use mathlib.Core.List.{List, [], ◌∷◌, ◌++◌, append_assoc}
use native.Mathlib.Omega.{arith}
use native.Mathlib.Nat.{zero-add}
use gpu_over_ip_capnp.Base.Tests.{ltb, leb, if◌then◌else◌, Bool-cases}

abbrev pub Text : Type 0
Text = List ℕ

abbrev pub codes : String → Text
codes String.[] = []
codes (String.◌∷◌ c s) = code c ∷ codes s

-- The digits of a number, the most significant first; `fuel` is above the number.
pub digits : ℕ → ℕ → Text
digits zero n = []
digits (suc fuel) n =
    let more = digits fuel (n / 10) in
    if ltb n 10 then (b'0' + n) ∷ [] else more ++ (b'0' + n % 10) ∷ []

pub decimal : ℕ → Text
decimal n = digits (suc n) n

abbrev pub is_digit : ℕ → Bool
is_digit c = leb b'0' c && leb c b'9'

-- Reads digits up to the first other character, and gives the number and the rest.
unfoldable pub scan : ℕ → Text → ℕ × Text
scan acc [] = (acc, [])
scan acc (c ∷ cs) =
    let more = scan (acc * 10 + (c - b'0')) cs in if is_digit c then more else (acc, c ∷ cs)

-- A text that no digit begins.
abbrev pub NoDigit : Text → Type 0
NoDigit [] = Unit
NoDigit (c ∷ cs) = is_digit c ≡ false

scan_digit : (acc d : ℕ) (cs : Text) → d < 10 → scan acc ((b'0' + d) ∷ cs) ≡ scan (acc * 10 + d) cs
unfolding scan
scan_digit acc d cs h =
    let same : b'0' + d - b'0' ≡ d = omega arith in
    let low : leb b'0' (b'0' + d) ≡ true = ground arith in
    let high : leb (b'0' + d) b'9' ≡ true = ground arith in rw (low, high) (rw same refl)

scan_rest : (acc : ℕ) (rest : Text) → NoDigit rest → scan acc rest ≡ (acc, rest)
unfolding scan
scan_rest acc [] h = refl
scan_rest acc (c ∷ cs) h = rw h refl

scan-digits : (fuel n : ℕ) (tail : Text) → n < fuel → scan 0 (digits fuel n ++ tail) ≡ scan n tail
unfolding digits
scan-digits zero n tail h = absurd (omega arith)
scan-digits (suc fuel) n tail h = elim (Bool-cases (ltb n 10)) [
  | inl small ↦ rw small (scan_digit 0 n tail (ground arith) ∙ rw zero-add refl)
  | inr large ↦ rw large (
      rw append_assoc (
        scan-digits fuel (n / 10) ((b'0' + n % 10) ∷ tail) (ground arith)
        ∙ scan_digit (n / 10) (n % 10) tail (omega arith)
        ∙ ap (λ m. scan m tail) (omega arith)))
]

-- What `std::to_string` writes is read back, up to the first character that is no digit.
pub scan-decimal : (n : ℕ) (rest : Text) → NoDigit rest → scan 0 (decimal n ++ rest) ≡ (n, rest)
unfolding decimal
scan-decimal n rest h = scan-digits (suc n) n rest (omega arith) ∙ scan_rest n rest h

-- A decimal number begins with a digit.
pub digits_head :
    (fuel n : ℕ) → n < fuel → (c : ℕ) × (cs : Text) × (digits fuel n ≡ c ∷ cs) × (is_digit c ≡ true)
unfolding digits
digits_head zero n h = absurd (omega arith)
digits_head (suc fuel) n h = elim (Bool-cases (ltb n 10)) [
  | inl small ↦ (b'0' + n, [], rw small refl, ground arith)
  | inr large ↦
      let (c, cs, e, d) = digits_head fuel (n / 10) (ground arith) in
      (c, cs ++ (b'0' + n % 10) ∷ [], rw large (rw e refl), d)
]

pub decimal_head : (n : ℕ) → (c : ℕ) × (cs : Text) × (decimal n ≡ c ∷ cs) × (is_digit c ≡ true)
unfolding decimal
decimal_head n = digits_head (suc n) n (omega arith)

-- Every character of a decimal number is a digit.
abbrev pub AllDigits : Text → Type 0
AllDigits [] = Unit
AllDigits (c ∷ cs) = (is_digit c ≡ true) × AllDigits cs

AllDigits-snoc : (cs : Text) (c : ℕ) → AllDigits cs → is_digit c ≡ true → AllDigits (cs ++ c ∷ [])
AllDigits-snoc [] c h d = (d, tt)
AllDigits-snoc (x ∷ cs) c h d = (h.0, AllDigits-snoc cs c h.1 d)

digits-AllDigits : (fuel n : ℕ) → AllDigits (digits fuel n)
unfolding digits
digits-AllDigits zero n = tt
digits-AllDigits (suc fuel) n = elim (Bool-cases (ltb n 10)) [
  | inl small ↦ rw small ((ground arith, tt))
  | inr large ↦ rw large (AllDigits-snoc _ _ (digits-AllDigits fuel (n / 10)) (ground arith))
]

pub decimal-AllDigits : (n : ℕ) → AllDigits (decimal n)
unfolding decimal
decimal-AllDigits n = digits-AllDigits (suc n) n
