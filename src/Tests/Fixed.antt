-- ===== src/Tests/Fixed.antt =====
-- Doubles for the tests: decimals with nine places, infinity and NaN. The functions of the C library
-- are rough.
use prediction_market_arbitr.Base.{
  ℕ, zero, suc, ◌*◌, ◌/◌, ◌^◌, ℤ, pos, negsuc, ◌+ℤ◌, ◌-ℤ◌, ◌*ℤ◌, leb_ℤ, ltb_ℤ, Bool, true, false,
  not, Option, none, some, codes, ◌≡◌, arith, ◌⊎◌,
}
use prediction_market_arbitr.Buckets.Slug.{stoll}
use prediction_market_arbitr.Double.{Double, IsOrdered}

pub data Fixed : Type 0 where
  fin : ℤ → Fixed
  infinite not_a_number : Fixed

abbrev pub one : ℕ
one = 1000000000

abbrev pub dec : ℕ → ℕ → Fixed
dec m e = fin (pos (m * one / 10 ^ e))

abbrev quot : ℤ → ℤ → ℤ
quot (pos a) (pos b) = pos (a / b)
quot (pos a) (negsuc b) = pos 0 -ℤ pos (a / suc b)
quot (negsuc a) (pos b) = pos 0 -ℤ pos (suc a / b)
quot (negsuc a) (negsuc b) = pos (suc a / suc b)

abbrev lift2 : (ℤ → ℤ → ℤ) → Fixed → Fixed → Fixed
lift2 f (fin a) (fin b) = fin (f a b)
lift2 f _ _ = not_a_number

abbrev divide : Fixed → Fixed → Fixed
divide (fin a) (fin (pos zero)) = not_a_number
divide (fin a) (fin b) = fin (quot (a *ℤ pos one) b)
divide _ _ = not_a_number

abbrev at_most : Fixed → Fixed → Bool
at_most (fin a) (fin b) = leb_ℤ a b
at_most (fin a) infinite = true
at_most infinite infinite = true
at_most _ _ = false

abbrev below : Fixed → Fixed → Bool
below (fin a) (fin b) = ltb_ℤ a b
below (fin a) infinite = true
below _ _ = false

abbrev finite : Fixed → Bool
finite (fin a) = true
finite _ = false

-- A text that is read as a double begins with a whole number here.
abbrev whole_number : Option ℤ → Option Fixed
whole_number none = none
whole_number (some n) = some (fin (n *ℤ pos one))

instance unfoldable pub Double-Fixed : Double Fixed
Double-Fixed = record {
  lit = dec;
  of_int = λ n. fin (n *ℤ pos one);
  nan = not_a_number;
  infinity = infinite;
  add = lift2 (λ a b. a +ℤ b);
  sub = lift2 (λ a b. a -ℤ b);
  mul = lift2 (λ a b. quot (a *ℤ b) (pos one));
  div = divide;
  neg = lift2 (λ a b. b -ℤ a) (fin (pos 0));
  lt = below;
  le = at_most;
  is_finite = finite;
  round = lift2 (λ a b. quot (b +ℤ pos 500000000) (pos one) *ℤ pos one) (fin (pos 0));
  exp = lift2 (λ a b. a +ℤ b) (dec 1 0);
  log = lift2 (λ a b. b -ℤ a) (dec 1 0);
  sqrt = λ x. x;
  erfc = lift2 (λ a b. a -ℤ b) (dec 1 0);
  stod = λ s. whole_number (stoll (codes s));
}

pub Fixed-IsOrdered : IsOrdered Fixed
unfolding Double-Fixed
Fixed-IsOrdered = record {
  le_trans = trans;
  refl_of_le = ends;
  le_total = total;
  lt-eq-not-le = negated;
  le_of_lt = weak;
  finite_refl = whole;
}
  where
    trans : (x y z : Fixed) → at_most x y ≡ true → at_most y z ≡ true → at_most x z ≡ true
    trans x y z h k = ground arith

    ends : (x y : Fixed) → at_most x y ≡ true → (at_most x x ≡ true) × (at_most y y ≡ true)
    ends x y h = ground arith

    total :
        (x y : Fixed)
        → at_most x x ≡ true
        → at_most y y ≡ true
        → (at_most x y ≡ true) ⊎ (at_most y x ≡ true)
    total x y h k = ground arith

    negated :
        (x y : Fixed) → at_most x x ≡ true → at_most y y ≡ true → below x y ≡ not (at_most y x)
    negated x y h k = ground arith

    weak : (x y : Fixed) → below x y ≡ true → at_most x y ≡ true
    weak x y h = ground arith

    whole : (x : Fixed) → finite x ≡ true → at_most x x ≡ true
    whole x h = ground arith
