-- ===== src/Float.antt =====
-- The floating-point arithmetic that the scheduler computes with, as an interface: the C++ types
-- `float` and `double` are the language's, and no law here is one that rounding breaks. Values are
-- not NaN, as all that the program computes from finite input.
pub mod Fixed
pub mod Monotone
use gpu_over_ip_capnp.Base.{
  ℕ, ◌≡◌, refl, Bool, true, false, ◌⊎◌, inl, inr, ℤ, pos, arith, if◌then◌else◌, Bool-cases,
}

pub record Float : Type 1 where
  pub Real : Type 0
  -- the literal `n / d`, as in 0.8 for 8 and 10
  pub lit : ℕ → ℕ → Real
  pub from_int : ℤ → Real
  pub plus : Real → Real → Real
  pub minus : Real → Real → Real
  pub times : Real → Real → Real
  pub div : Real → Real → Real
  pub neg : Real → Real
  pub exp : Real → Real
  -- the conversion of a `double` to a `float`
  pub narrow : Real → Real
  -- `a < b`
  pub less : Real → Real → Bool

-- `a ≤ b`
abbrev pub AtMost : (f : Float) → f.Real → f.Real → Type 0
AtMost f a b = f.less b a ≡ false

abbrev pub fl_zero : (f : Float) → f.Real
fl_zero f = f.lit 0 1

abbrev pub fl_one : (f : Float) → f.Real
fl_one f = f.lit 1 1

abbrev pub fl_half : (f : Float) → f.Real
fl_half f = f.lit 1 2

-- What IEEE 754 gives for values that are not NaN: the order is a strict weak order, rounding
-- keeps the order, and the products of 1 are exact.
pub record Laws (f : Float) : Type 0 where
  pub less_irrefl : (a : f.Real) → f.less a a ≡ false
  pub less_trans : (a b c : f.Real) → f.less a b ≡ true → f.less b c ≡ true → f.less a c ≡ true
  pub at_most_trans : (a b c : f.Real) → AtMost f a b → AtMost f b c → AtMost f a c
  pub half_lt_four_fifths : f.less (fl_half f) (f.lit 8 10) ≡ true
  pub four_fifths_lt_one : f.less (f.lit 8 10) (fl_one f) ≡ true
  pub exp_nonneg : (x : f.Real) → AtMost f (fl_zero f) (f.exp x)
  pub exp_le_one : (x : f.Real) → AtMost f x (fl_zero f) → AtMost f (f.exp x) (fl_one f)
  pub one_minus : (y : f.Real) → AtMost f (fl_zero f) y → AtMost f (f.minus (fl_one f) y) (fl_one f)
  pub times_mono :
      (a b c : f.Real)
      → AtMost f (fl_zero f) a
      → AtMost f b c
      → AtMost f (f.times a b) (f.times a c)
  pub times_mono_left :
      (a b c : f.Real)
      → AtMost f (fl_zero f) c
      → AtMost f a b
      → AtMost f (f.times a c) (f.times b c)
  pub times_one : (a : f.Real) → f.times a (fl_one f) ≡ a
  pub one_times : (a : f.Real) → f.times (fl_one f) a ≡ a
  pub times_nonneg :
      (a b : f.Real)
      → AtMost f (fl_zero f) a
      → AtMost f (fl_zero f) b
      → AtMost f (fl_zero f) (f.times a b)
  pub from_int_nonneg : (n : ℕ) → AtMost f (fl_zero f) (f.from_int (pos n))
  pub div_nonneg :
      (a b : f.Real)
      → AtMost f (fl_zero f) a
      → f.less (fl_zero f) b ≡ true
      → AtMost f (fl_zero f) (f.div a b)
  pub hundred_pos : f.less (fl_zero f) (f.lit 100 1) ≡ true
  pub neg_times :
      (a b : f.Real)
      → AtMost f (fl_zero f) a
      → AtMost f (fl_zero f) b
      → AtMost f (f.times (f.neg a) b) (fl_zero f)
  pub lit_nonneg : (n d : ℕ) → AtMost f (fl_zero f) (f.lit n d)
  pub narrow_le_one : (a : f.Real) → AtMost f a (fl_one f) → AtMost f (f.narrow a) (fl_one f)
  pub narrow_nonneg : (a : f.Real) → AtMost f (fl_zero f) a → AtMost f (fl_zero f) (f.narrow a)

-- `std::min(a, b)`
abbrev pub fl_min : (f : Float) → f.Real → f.Real → f.Real
fl_min f a b = if f.less b a then b else a

module _ (f : Float) (l : Laws f) where
  pub AtMost-of_less : (a b : f.Real) → f.less a b ≡ true → AtMost f a b
  AtMost-of_less a b h = elim (Bool-cases (f.less b a)) [
    | inl back ↦ ground (arith, l.less_trans a b a h back, l.less_irrefl a)
    | inr no_more ↦ no_more
  ]

  pub AtMost-refl : (a : f.Real) → AtMost f a a
  AtMost-refl a = l.less_irrefl a

  pub less_of_AtMost : (a b c : f.Real) → AtMost f a b → f.less b c ≡ true → f.less a c ≡ true
  less_of_AtMost a b c h k = elim (Bool-cases (f.less a c)) [
    | inl less ↦ less
    | inr more ↦ ground (arith, l.at_most_trans c a b more h)
  ]

  pub fl_min-le-left : (a b : f.Real) → AtMost f (fl_min f a b) a
  fl_min-le-left a b = elim (Bool-cases (f.less b a)) [
    | inl less ↦ ground (arith, AtMost-of_less b a less)
    | inr more ↦ ground (arith, AtMost-refl a)
  ]

  pub fl_min_nonneg :
      (a b : f.Real)
      → AtMost f (fl_zero f) a
      → AtMost f (fl_zero f) b
      → AtMost f (fl_zero f) (fl_min f a b)
  fl_min_nonneg a b h k = ground arith
