-- ===== src/Double.antt =====
-- All that the program does with a `double`: decimal constants, arithmetic, comparisons, the C math
-- functions and conversions. Floating point is the compiler's and the C library's, so a type of
-- doubles with these operations is a parameter of the model.
use prediction_market_arbitr.Base.{
  ℕ, ℤ, String, Bool, true, Option, if◌then◌else◌, ◌≡◌, ◌⊎◌, not, ◌&&◌,
}

pub record Double (W : Type 0) : Type 0 where
  -- `lit m e` is the double nearest to m / 10^e
  pub lit : ℕ → ℕ → W
  pub of_int : ℤ → W
  pub nan : W
  pub infinity : W
  pub add : W → W → W
  pub sub : W → W → W
  pub mul : W → W → W
  pub div : W → W → W
  pub neg : W → W
  pub lt : W → W → Bool
  pub le : W → W → Bool
  pub is_finite : W → Bool
  pub round : W → W
  pub exp : W → W
  pub log : W → W
  pub sqrt : W → W
  pub erfc : W → W
  pub stod : String → Option W

module _ {W : Type 0} ⦃d : Double W⦄ where
  -- `std::max` and `std::min`, which return their first argument on a tie and on a NaN
  abbrev pub fmax : W → W → W
  fmax a b = if d.lt a b then b else a

  abbrev pub fmin : W → W → W
  fmin a b = if d.lt b a then b else a

  abbrev pub fabs : W → W
  fabs a = if d.lt a (d.lit 0 0) then d.neg a else a

  -- `a == b` and `std::isnan(a)`, by IEEE comparisons
  abbrev pub feq : W → W → Bool
  feq a b = d.le a b && d.le b a

  abbrev pub is_nan : W → Bool
  is_nan a = not (d.le a a)

infix 4 ◌≼◌
abbrev pub ◌≼◌ : {W : Type 0} ⦃d : Double W⦄ → W → W → Type 0
◌≼◌ ⦃d⦄ x y = d.le x y ≡ true

-- What IEEE comparisons give. A value that is not `<=` itself is NaN.
pub record IsOrdered (W : Type 0) ⦃d : Double W⦄ : Type 0 where
  pub le_trans : (x y z : W) → x ≼ y → y ≼ z → x ≼ z
  pub refl_of_le : (x y : W) → x ≼ y → (x ≼ x) × (y ≼ y)
  pub le_total : (x y : W) → x ≼ x → y ≼ y → (x ≼ y) ⊎ (y ≼ x)
  pub lt-eq-not-le : (x y : W) → x ≼ x → y ≼ y → d.lt x y ≡ not (d.le y x)
  pub le_of_lt : (x y : W) → d.lt x y ≡ true → x ≼ y
  pub finite_refl : (x : W) → d.is_finite x ≡ true → x ≼ x
