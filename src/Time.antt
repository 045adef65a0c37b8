-- ===== src/Time.antt =====
-- libtatum/tatum/Time.hpp and Time.inl in their scalar form (TIME_VEC_WIDTH is 1): a time is a
-- `float`. The arithmetic of floats is the platform's, so it is an interface here, with the laws of
-- IEEE 754 comparisons that the tags rely on.
pub mod Model
use tatum.Prelude.{◌≡◌, Bool, true, false, not}

pub record Float : Type 1 where
  pub Scalar : Type 0
  pub lt : Scalar → Scalar → Bool
  pub eq : Scalar → Scalar → Bool
  pub add : Scalar → Scalar → Scalar
  pub sub : Scalar → Scalar → Scalar
  pub neg : Scalar → Scalar
  pub is_nan : Scalar → Bool
  pub is_inf : Scalar → Bool
  pub nan : Scalar
  pub zero_time : Scalar
  pub infinity : Scalar
  -- A comparison with a NaN is false.
  pub lt_nan_left : (a b : Scalar) → is_nan a ≡ true → lt a b ≡ false
  pub lt_nan_right : (a b : Scalar) → is_nan b ≡ true → lt a b ≡ false
  -- `<` is a strict order, and among numbers `a >= b` and `b >= c` give `a >= c`.
  pub lt_irrefl : (a : Scalar) → lt a a ≡ false
  pub lt_trans : (a b c : Scalar) → lt a b ≡ true → lt b c ≡ true → lt a c ≡ true
  pub ge_trans :
      (a b c : Scalar) → is_nan b ≡ false → lt a b ≡ false → lt b c ≡ false → lt a c ≡ false

module _ (F : Float) where
  -- Time::valid
  abbrev pub valid : F.Scalar → Bool
  valid t = not (F.is_nan t)

  -- operator>
  abbrev pub gt : F.Scalar → F.Scalar → Bool
  gt a b = F.lt b a
