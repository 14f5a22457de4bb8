-- ===== src/Reconnect/Tests.antt =====
-- Runs of the theorems on the delays, on floats that are numbers, with a NaN and without.
use native.Mathlib.Nat.{le_trans, mul-le-mul_left, mul-one}
use preconfs_client.Prelude.{
  ℕ, ◌*◌, ◌^◌, ◌≤◌, ◌≡◌, refl, ap, arith, Option, none, some, ltb, min, if◌then◌else◌,
}
use preconfs_client.Reconnect.{Float, Reconnect, default, from_millis, from_secs, interval}
use preconfs_client.Reconnect.Backoff.{FloatLaws, interval_bounds, interval_grows}

abbrev larger : ℕ → ℕ → ℕ
larger x y = if ltb x y then y else x

-- The conversion of nanoseconds, which refuses what is past the limit.
abbrev convert : ℕ → Option ℕ
convert x = if ltb 18446744073709551615 x then none else some x

-- Numbers for floats, and the nanoseconds of a second for a unit.
abbrev pub numbers : Float
numbers = record {
  F = ℕ;
  one = 1;
  two = 2;
  mul = ◌*◌;
  powi = ◌^◌;
  fmax = larger;
  as_secs_f64 = λ d. d;
  try_from_secs_f64 = convert;
}

-- Numbers or a NaN, which is `none`.
abbrev Maybe : Type 0
Maybe = Option ℕ

abbrev scale : Maybe → Maybe → Maybe
scale (some x) (some y) = some (x * y)
scale _ _ = none

-- Powers stop at 2^100, which stands for infinity.
abbrev power : Maybe → ℕ → Maybe
power none e = none
power (some x) e = some (x ^ min e 100)

abbrev maximum : Maybe → Maybe → Maybe
maximum none y = y
maximum (some x) none = some x
maximum (some x) (some y) = some (larger x y)

abbrev converted : Maybe → Option ℕ
converted none = none
converted (some x) = convert x

abbrev pub maybe_numbers : Float
maybe_numbers = record {
  F = Maybe;
  one = some 1;
  two = some 2;
  mul = scale;
  powi = power;
  fmax = maximum;
  as_secs_f64 = λ d. some d;
  try_from_secs_f64 = converted;
}

abbrev AtMost : Maybe → Maybe → Type 0
AtMost (some x) (some y) = x ≤ y
AtMost _ _ = ⊥

AtMost-trans : (x y z : Maybe) → AtMost x y → AtMost y z → AtMost x z
AtMost-trans (some x) (some y) (some z) h k = le_trans h k
AtMost-trans none y z h k = absurd h
AtMost-trans (some x) none z h k = absurd h
AtMost-trans (some x) (some y) none h k = absurd k

maximum_one : (x : Maybe) → AtMost (some 1) (maximum x (some 1))
maximum_one none = omega arith
maximum_one (some x) = ground arith

maximum_mono : (x y : Maybe) → AtMost x y → AtMost (maximum x (some 1)) (maximum y (some 1))
maximum_mono (some x) (some y) h = ground arith
maximum_mono none y h = absurd h
maximum_mono (some x) none h = absurd h

scale_mono : (d : ℕ) (x y : Maybe) → AtMost x y → AtMost (scale (some d) x) (scale (some d) y)
scale_mono d (some x) (some y) h = mul-le-mul_left d h
scale_mono d none y h = absurd h
scale_mono d (some x) none h = absurd h

converted_mono :
    (x y : Maybe) (b : ℕ)
    → AtMost x y
    → converted y ≡ some b
    → (a : ℕ) × (converted x ≡ some a) × (a ≤ b)
converted_mono (some x) (some y) b h e = (x, ground arith, ground arith)
converted_mono none y b h e = absurd h
converted_mono (some x) none b h e = absurd h

abbrev laws : FloatLaws maybe_numbers
laws = record {
  Le = AtMost;
  Le-trans = AtMost-trans;
  as_secs-Le = λ d. omega arith;
  fmax_one = maximum_one;
  fmax_mono = maximum_mono;
  mul_one = λ d. ap some (mul-one d);
  mul_mono = λ d x y positive h. scale_mono d x y h;
  try_from_mono = λ x y b positive h e. converted_mono x y b h e;
}

-- A schedule whose multiplier is NaN.
abbrev unmultiplied : Reconnect maybe_numbers
unmultiplied = record {
  initial_interval = from_millis 100;
  multiplier = none;
  max_interval = from_secs 10;
  max_retries = none;
}

interval_bounds_example :
    (min 100000000 10000000000 ≤ interval maybe_numbers unmultiplied 7)
    × (interval maybe_numbers unmultiplied 7 ≤ 10000000000)
interval_bounds_example =
    interval_bounds maybe_numbers laws unmultiplied (omega arith) 100000000 7 refl

interval_grows_example :
    interval maybe_numbers (default maybe_numbers) 3
    ≤ interval maybe_numbers (default maybe_numbers) 6
unfolding default
interval_grows_example =
    interval_grows maybe_numbers laws (default maybe_numbers) (omega arith) 3 6 (omega arith)
      (omega arith) (omega arith)
