-- ===== src/NumaAddress.antt =====
-- `NumaAddress`: client/launcher/memory/numa_address.h. An `int` has 32 bits. `std::to_string` and
-- `std::stoi` are the language's, for the base 10; `none` is an exception.
pub mod RoundTrip
use gpu_over_ip_capnp.Base.{
  ℕ, suc, ◌+◌, ◌-◌, ◌^◌, ◌≡◌, Bool, true, false, ◌&&◌, ◌||◌, not, Option, none, some, List, [], ◌∷◌,
  ◌++◌, if◌then◌else◌, ltb, leb, ◌==◌, ℤ, pos, negsuc, neg_ℤ, pos_part, neg_part, Text, decimal,
  scan, is_digit,
}

pub record NumaAddress : Type 0 where
  pub server_id : ℤ
  pub numa_id : ℤ

-- `std::to_string`
pub decimal_ℤ : ℤ → Text
decimal_ℤ (pos n) = decimal n
decimal_ℤ (negsuc n) = b'-' ∷ decimal (suc n)

abbrev pub is_space : ℕ → Bool
is_space c = c == b' ' || leb 9 c && leb c 13

pub skip_space : Text → Text
skip_space [] = []
skip_space (c ∷ cs) = let rest = skip_space cs in if is_space c then rest else c ∷ cs

-- The range of `int`.
abbrev pub in_range : ℤ → Bool
in_range z = ltb (pos_part z) (2 ^ 31) && leb (neg_part z) (2 ^ 31)

abbrev pub checked : ℤ → Option ℤ
checked z = if in_range z then some z else none

-- The digits, where there is one at least.
pub stoi_digits : Bool → Text → Option ℤ
stoi_digits negative [] = none
stoi_digits negative (c ∷ cs) =
    let n = (scan 0 (c ∷ cs)).0 in
    if is_digit c then checked (if negative then neg_ℤ (pos n) else pos n) else none

pub stoi_sign : Text → Option ℤ
stoi_sign [] = none
stoi_sign (c ∷ cs) =
    if c == b'-'
    then stoi_digits true cs
    else if c == b'+'
    then stoi_digits false cs
    else stoi_digits false (c ∷ cs)

-- `std::stoi`
pub stoi : Text → Option ℤ
stoi s = stoi_sign (skip_space s)

pub to_string : NumaAddress → Text
to_string a = decimal_ℤ a.server_id ++ b':' ∷ decimal_ℤ a.numa_id

-- The texts before and after the first colon.
pub split_colon : Text → Option (Text × Text)
split_colon [] = none
split_colon (c ∷ cs) =
    let rest = split_colon cs in
    if c == b':'
    then some ([], cs)
    else elim rest [ none ↦ none | some (before, after) ↦ some (c ∷ before, after) ]

-- `raw` is `addr` before its members are set.
pub from_string : NumaAddress → Text → Option NumaAddress
from_string raw s = elim (split_colon s) [
  | none ↦ some raw
  | some (before, after) ↦ elim (stoi before) [
    | none ↦ none
    | some server_id ↦ elim (stoi after) [
      | none ↦ none
      | some numa_id ↦ some (record { server_id = server_id; numa_id = numa_id })
    ]
  ]
]
