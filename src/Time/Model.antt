-- ===== src/Time/Model.antt =====
-- The interface of floats can be met: numbers with infinities and a NaN.
use tatum.Prelude.{ℕ, ◌+◌, ◌-◌, ◌≡◌, Bool, true, false, ltb, ◌==◌, arith}
use tatum.Time.{Float}

pub data Extended : Type 0 where
  not_a_number minus_infinity plus_infinity : Extended
  finite : ℕ → Extended

abbrev pub lt_extended : Extended → Extended → Bool
lt_extended not_a_number b = false
lt_extended minus_infinity not_a_number = false
lt_extended minus_infinity minus_infinity = false
lt_extended minus_infinity plus_infinity = true
lt_extended minus_infinity (finite n) = true
lt_extended plus_infinity b = false
lt_extended (finite n) not_a_number = false
lt_extended (finite n) minus_infinity = false
lt_extended (finite n) plus_infinity = true
lt_extended (finite n) (finite m) = ltb n m

abbrev pub eq_extended : Extended → Extended → Bool
eq_extended minus_infinity minus_infinity = true
eq_extended plus_infinity plus_infinity = true
eq_extended (finite n) (finite m) = n == m
eq_extended _ _ = false

abbrev pub add_extended : Extended → Extended → Extended
add_extended not_a_number b = not_a_number
add_extended a not_a_number = not_a_number
add_extended minus_infinity plus_infinity = not_a_number
add_extended plus_infinity minus_infinity = not_a_number
add_extended minus_infinity b = minus_infinity
add_extended plus_infinity b = plus_infinity
add_extended (finite n) minus_infinity = minus_infinity
add_extended (finite n) plus_infinity = plus_infinity
add_extended (finite n) (finite m) = finite (n + m)

-- Only numbers from zero on: the difference stops at zero, and the negative of a number is zero.
abbrev pub neg_extended : Extended → Extended
neg_extended not_a_number = not_a_number
neg_extended minus_infinity = plus_infinity
neg_extended plus_infinity = minus_infinity
neg_extended (finite n) = finite 0

abbrev pub sub_extended : Extended → Extended → Extended
sub_extended (finite n) (finite m) = finite (n - m)
sub_extended a b = add_extended a (neg_extended b)

abbrev pub is_nan_extended : Extended → Bool
is_nan_extended not_a_number = true
is_nan_extended _ = false

abbrev pub is_inf_extended : Extended → Bool
is_inf_extended minus_infinity = true
is_inf_extended plus_infinity = true
is_inf_extended _ = false

pub lt_nan_left : (a b : Extended) → is_nan_extended a ≡ true → lt_extended a b ≡ false
lt_nan_left a b h = ground arith

pub lt_nan_right : (a b : Extended) → is_nan_extended b ≡ true → lt_extended a b ≡ false
lt_nan_right a b h = ground arith

pub lt_irrefl : (a : Extended) → lt_extended a a ≡ false
lt_irrefl a = ground arith

pub lt_trans :
    (a b c : Extended) → lt_extended a b ≡ true → lt_extended b c ≡ true → lt_extended a c ≡ true
lt_trans a b c p q = ground arith

pub ge_trans :
    (a b c : Extended)
    → is_nan_extended b ≡ false
    → lt_extended a b ≡ false
    → lt_extended b c ≡ false
    → lt_extended a c ≡ false
ge_trans a b c n p q = ground arith

abbrev pub extended : Float
extended = record {
  Scalar = Extended;
  lt = lt_extended;
  eq = eq_extended;
  add = add_extended;
  sub = sub_extended;
  neg = neg_extended;
  is_nan = is_nan_extended;
  is_inf = is_inf_extended;
  nan = not_a_number;
  zero_time = finite 0;
  infinity = plus_infinity;
  lt_nan_left = lt_nan_left;
  lt_nan_right = lt_nan_right;
  lt_irrefl = lt_irrefl;
  lt_trans = lt_trans;
  ge_trans = ge_trans;
}
