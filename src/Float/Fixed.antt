-- ===== src/Float/Fixed.antt =====
-- A concrete `Float`: numbers in thousandths, rounded towards zero. It shows that the laws can hold
-- together, and runs the tests. `exp` is 1 at 0 and above and halves once below it: it is no
-- approximation of the library's function.
use gpu_over_ip_capnp.Base.{
  ℕ, suc, ◌+◌, ◌*◌, ◌/◌, ◌≤◌, ◌<◌, ◌≡◌, refl, true, ℤ, pos, negsuc, pos_part, neg_part, sub_ℕ,
  neg_ℤ, ltb_ℤ, arith,
}
use native.Mathlib.Nat.{le-div_iff_mul-le, div-mul-le_self}
use gpu_over_ip_capnp.Float.{Float, Laws, AtMost}
use gpu_over_ip_capnp.Float.Monotone.{Monotone}

-- A product of signed numbers in thousandths.
unfoldable pub fixed_times : ℤ → ℤ → ℤ
fixed_times (pos a) (pos b) = pos (a * b / 1000)
fixed_times (pos a) (negsuc b) = sub_ℕ 0 (a * suc b / 1000)
fixed_times (negsuc a) (pos b) = sub_ℕ 0 (suc a * b / 1000)
fixed_times (negsuc a) (negsuc b) = pos (suc a * suc b / 1000)

unfoldable pub fixed_div : ℤ → ℤ → ℤ
fixed_div a (pos b) = sub_ℕ (pos_part a * 1000 / b) (neg_part a * 1000 / b)
fixed_div a (negsuc b) = sub_ℕ (neg_part a * 1000 / suc b) (pos_part a * 1000 / suc b)

unfoldable pub fixed_exp : ℤ → ℤ
fixed_exp (pos a) = pos 1000
fixed_exp (negsuc a) = pos 500

abbrev pub fixed : Float
fixed = record {
  Real = ℤ;
  lit = λ n d. pos (n * 1000 / d);
  from_int = λ z. sub_ℕ (pos_part z * 1000) (neg_part z * 1000);
  plus = λ a b. sub_ℕ (pos_part a + pos_part b) (neg_part a + neg_part b);
  minus = λ a b. sub_ℕ (pos_part a + neg_part b) (neg_part a + pos_part b);
  times = fixed_times;
  div = fixed_div;
  neg = neg_ℤ;
  exp = fixed_exp;
  narrow = λ a. a;
  less = ltb_ℤ;
}

product_mono : (a b c : ℕ) → b ≤ c → a * b / 1000 ≤ a * c / 1000
product_mono a b c h = let p : a * b ≤ a * c = grind arith in omega arith

fixed_times_mono :
    (a b c : ℤ)
    → AtMost fixed (pos 0) a
    → AtMost fixed b c
    → AtMost fixed (fixed_times a b) (fixed_times a c)
unfolding fixed_times
fixed_times_mono (pos a) (pos b) (pos c) h k = ground (arith, product_mono a b c (ground arith))
fixed_times_mono (pos a) (pos b) (negsuc c) h k = ground arith
fixed_times_mono (pos a) (negsuc b) (pos c) h k = ground arith
fixed_times_mono (pos a) (negsuc b) (negsuc c) h k =
    ground (arith, product_mono a (suc c) (suc b) (ground arith))
fixed_times_mono (negsuc a) b c h k = ground arith

mul_comm_div : (a b : ℕ) → a * b / 1000 ≡ b * a / 1000
mul_comm_div a b = omega arith

fixed_times_comm : (a b : ℤ) → fixed_times a b ≡ fixed_times b a
unfolding fixed_times
fixed_times_comm (pos a) (pos b) = ground (arith, mul_comm_div a b)
fixed_times_comm (pos a) (negsuc b) = ground (arith, mul_comm_div a (suc b))
fixed_times_comm (negsuc a) (pos b) = ground (arith, mul_comm_div (suc a) b)
fixed_times_comm (negsuc a) (negsuc b) = ground (arith, mul_comm_div (suc a) (suc b))

pub fixed-Laws : Laws fixed
unfolding fixed_times fixed_div fixed_exp
fixed-Laws = record {
  less_irrefl = λ a. ground arith;
  less_trans = λ a b c h k. ground arith;
  at_most_trans = λ a b c h k. ground arith;
  half_lt_four_fifths = refl;
  four_fifths_lt_one = refl;
  exp_nonneg = λ x. ground arith;
  exp_le_one = λ x h. ground arith;
  one_minus = λ y h. ground arith;
  times_mono = fixed_times_mono;
  times_mono_left =
      λ a b c h k. rw (fixed_times_comm a c, fixed_times_comm b c) (fixed_times_mono c a b h k);
  times_one = λ a. ground arith;
  one_times = λ a. ground arith;
  times_nonneg = λ a b h k. ground arith;
  from_int_nonneg = λ n. ground arith;
  div_nonneg = λ a b h k. ground arith;
  hundred_pos = refl;
  neg_times = λ a b h k. ground arith;
  lit_nonneg = λ n d. ground arith;
  narrow_le_one = λ a h. h;
  narrow_nonneg = λ a h. h;
}

quotient_mono : (a b c : ℕ) → 0 < c → a ≤ b → a / c ≤ b / c
quotient_mono a b c p h = let q = div-mul-le_self a c in (le-div_iff_mul-le p).1 (omega arith)

quotient_anti : (a b c : ℕ) → 0 < a → a ≤ b → c / b ≤ c / a
quotient_anti a b c p h =
    let q = div-mul-le_self c b in
    let r : c / b * a ≤ c / b * b = grind arith in (le-div_iff_mul-le p).1 (omega arith)

fixed_div_mono :
    (a b c : ℤ)
    → ltb_ℤ (pos 0) c ≡ true
    → AtMost fixed a b
    → AtMost fixed (fixed_div a c) (fixed_div b c)
unfolding fixed_div
fixed_div_mono a b (negsuc c) p h = absurd (ground arith)
fixed_div_mono (pos a) (pos b) (pos c) p h =
    ground (arith, quotient_mono (a * 1000) (b * 1000) c (ground arith) (ground arith))
fixed_div_mono (pos a) (negsuc b) (pos c) p h = absurd (ground arith)
fixed_div_mono (negsuc a) (pos b) (pos c) p h = ground arith
fixed_div_mono (negsuc a) (negsuc b) (pos c) p h =
    ground (arith, quotient_mono (suc b * 1000) (suc a * 1000) c (ground arith) (ground arith))

fixed_div_anti :
    (a b c : ℤ)
    → AtMost fixed (pos 0) c
    → ltb_ℤ (pos 0) a ≡ true
    → AtMost fixed a b
    → AtMost fixed (fixed_div c b) (fixed_div c a)
unfolding fixed_div
fixed_div_anti (pos a) (pos b) (pos c) n p h =
    ground (arith, quotient_anti a b (c * 1000) (ground arith) (ground arith))
fixed_div_anti (negsuc a) b c n p h = absurd (ground arith)
fixed_div_anti (pos a) (negsuc b) c n p h = absurd (ground arith)
fixed_div_anti (pos a) (pos b) (negsuc c) n p h = absurd (ground arith)

pub fixed-Monotone : Monotone fixed
fixed-Monotone = record {
  plus_mono = λ a b c d h k. ground arith;
  minus_anti = λ a b c h. ground arith;
  div_mono = fixed_div_mono;
  div_anti = fixed_div_anti;
  from_int_mono = λ a b h. ground arith;
  from_int_nonneg = λ n. ground arith;
  from_int_pos = λ a h. ground arith;
  one_plus_pos = λ a h. ground arith;
  two_hundred_pos = refl;
}
