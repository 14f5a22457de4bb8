-- ===== src/Reconnect/Backoff.antt =====
-- The delays of a schedule, for every multiplier: between the first delay and the cap, and no shorter
-- where the power that is computed is no smaller.
use preconfs_client.Prelude.{
  ℕ, ◌-◌, ◌≤◌, ◌≡◌, refl, subst, sym, Option, none, some, arith, min, map_or,
}
use preconfs_client.Reconnect.{Float, Reconnect, exponent, i32_max, factor, interval}

-- What IEEE 754 and the standard library say of the operations that the schedule uses, on every value
-- of f64. `Le x y` is `x <= y`, which NaN is in with no value. Nothing is said of `powi`, whose
-- precision is not specified.
pub record FloatLaws (float : Float) : Type 1 where
  pub Le : float.F → float.F → Type 0
  pub Le-trans : (x y z : float.F) → Le x y → Le y z → Le x z
  -- seconds are not negative
  pub as_secs-Le : (d : ℕ) → Le (float.as_secs_f64 0) (float.as_secs_f64 d)
  -- f64::max passes over a NaN
  pub fmax_one : (x : float.F) → Le float.one (float.fmax x float.one)
  pub fmax_mono : (x y : float.F) → Le x y → Le (float.fmax x float.one) (float.fmax y float.one)
  pub mul_one : (d : ℕ) → float.mul (float.as_secs_f64 d) float.one ≡ float.as_secs_f64 d
  -- rounding keeps the order, and seconds that are not zero are finite and positive
  pub mul_mono :
      (d : ℕ) (x y : float.F)
      → 1 ≤ d
      → Le x y
      → Le (float.mul (float.as_secs_f64 d) x) (float.mul (float.as_secs_f64 d) y)
  -- of values that are not negative, the conversion refuses the ones that are too large
  pub try_from_mono :
      (x y : float.F) (b : ℕ)
      → Le (float.as_secs_f64 0) x
      → Le x y
      → float.try_from_secs_f64 y ≡ some b
      → (a : ℕ) × (float.try_from_secs_f64 x ≡ some a) × (a ≤ b)

-- The end of `interval`: the converted delay under the cap, or the cap.
abbrev under_cap : ℕ → Option ℕ → ℕ
under_cap cap = map_or cap (λ delay. min delay cap)

capped : (cap : ℕ) (o : Option ℕ) → under_cap cap o ≤ cap
capped cap none = omega arith
capped cap (some d) = omega arith

-- A conversion that fails on the larger value only.
under_cap_mono :
    (cap : ℕ) (x y : Option ℕ)
    → ((b : ℕ) → y ≡ some b → (a : ℕ) × (x ≡ some a) × (a ≤ b))
    → under_cap cap x ≤ under_cap cap y
under_cap_mono cap x none h = capped cap x
under_cap_mono cap x (some b) h = let (a, is_a, le) = h b refl in rw is_a (omega arith)

exponent_small : (attempt : ℕ) → attempt - 1 ≤ i32_max → exponent attempt ≡ attempt - 1
exponent_small attempt h = ground arith

module _ (float : Float) (laws : FloatLaws float) (self : Reconnect float)
    (waits : 1 ≤ self.initial_interval) where
  -- A product of the first delay by 1 or more is no less than the first delay.
  scaled-Le :
      (x : float.F)
      → laws.Le float.one x
      → laws.Le
          (float.as_secs_f64 self.initial_interval)
          (float.mul (float.as_secs_f64 self.initial_interval) x)
  scaled-Le x h =
      subst (λ y. laws.Le y (float.mul (float.as_secs_f64 self.initial_interval) x))
        (laws.mul_one self.initial_interval)
        (laws.mul_mono self.initial_interval float.one x waits h)

  -- For every multiplier, NaN, negative ones and ones below 1 included, and whatever `powi` gives, no
  -- attempt waits longer than the cap, and none less than the first delay or the cap, whichever is
  -- less. The first delay is positive, and is taken as f64 and its conversion round it.
  -- The other operations of f64 keep the laws of IEEE 754 and of the standard library (`FloatLaws`).
  pub interval_bounds :
      (first attempt : ℕ)
      → float.try_from_secs_f64 (float.as_secs_f64 self.initial_interval) ≡ some first
      → (min first self.max_interval ≤ interval float self attempt)
        × (interval float self attempt ≤ self.max_interval)
  unfolding interval
  interval_bounds first attempt converts =
      let product =
        float.mul (float.as_secs_f64 self.initial_interval) (factor float self attempt) in
      let at_least =
        under_cap_mono self.max_interval
          (float.try_from_secs_f64 (float.as_secs_f64 self.initial_interval))
          (float.try_from_secs_f64 product)
          (λ b.
            laws.try_from_mono (float.as_secs_f64 self.initial_interval) product b
              (laws.as_secs-Le self.initial_interval)
              (scaled-Le (factor float self attempt) (laws.fmax_one _))) in
      (
        subst (λ o. under_cap self.max_interval o ≤ interval float self attempt) converts at_least,
        capped self.max_interval (float.try_from_secs_f64 product),
      )

  -- Take two attempts a and b up to number 2^31, in any order. If the power of the multiplier that is
  -- computed for a, to the exponent a - 1, is at most the one that is computed for b, to the exponent
  -- b - 1, then a waits at most as long as b. The first delay is positive.
  -- The other operations of f64 keep the laws of IEEE 754 and of the standard library (`FloatLaws`).
  pub interval_grows :
      (a b : ℕ)
      → a - 1 ≤ i32_max
      → b - 1 ≤ i32_max
      → laws.Le (float.powi self.multiplier (a - 1)) (float.powi self.multiplier (b - 1))
      → interval float self a ≤ interval float self b
  unfolding interval
  interval_grows a b a_small b_small le =
      let power = float.powi self.multiplier in
      let at_a =
        subst (λ e. laws.Le (power e) (power (b - 1))) (sym (exponent_small a a_small)) le in
      let at_both =
        subst (λ e. laws.Le (power (exponent a)) (power e)) (sym (exponent_small b b_small)) at_a in
      under_cap_mono self.max_interval _ _ (λ d.
        laws.try_from_mono _ _ d
          (laws.Le-trans _ _ _ (laws.as_secs-Le self.initial_interval)
            (scaled-Le (factor float self a) (laws.fmax_one _)))
          (laws.mul_mono self.initial_interval (factor float self a) (factor float self b) waits
            (laws.fmax_mono _ _ at_both)))
