-- ===== src/Float/Monotone.antt =====
-- More laws of the arithmetic, which the score of the dispatcher needs: each operation keeps or turns
-- the order, as rounding keeps it.
use gpu_over_ip_capnp.Base.{ℕ, ◌≡◌, true, false, ℤ, pos, ltb_ℤ}
use gpu_over_ip_capnp.Float.{Float, AtMost, fl_zero, fl_one}

pub record Monotone (f : Float) : Type 0 where
  pub plus_mono :
      (a b c d : f.Real) → AtMost f a b → AtMost f c d → AtMost f (f.plus a c) (f.plus b d)
  pub minus_anti : (a b c : f.Real) → AtMost f a b → AtMost f (f.minus c b) (f.minus c a)
  pub div_mono :
      (a b c : f.Real)
      → f.less (fl_zero f) c ≡ true
      → AtMost f a b
      → AtMost f (f.div a c) (f.div b c)
  pub div_anti :
      (a b c : f.Real)
      → AtMost f (fl_zero f) c
      → f.less (fl_zero f) a ≡ true
      → AtMost f a b
      → AtMost f (f.div c b) (f.div c a)
  pub from_int_mono : (a b : ℤ) → ltb_ℤ b a ≡ false → AtMost f (f.from_int a) (f.from_int b)
  pub from_int_nonneg : (n : ℕ) → AtMost f (fl_zero f) (f.from_int (pos n))
  pub from_int_pos : (a : ℤ) → ltb_ℤ (pos 0) a ≡ true → f.less (fl_zero f) (f.from_int a) ≡ true
  pub one_plus_pos :
      (a : f.Real) → AtMost f (fl_zero f) a → f.less (fl_zero f) (f.plus (fl_one f) a) ≡ true
  pub two_hundred_pos : f.less (fl_zero f) (f.lit 200 1) ≡ true
