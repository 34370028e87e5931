-- ===== src/Buckets/Slug.antt =====
-- src/polymarket/bucket_market_discovery.cpp: the name of a bucket's market, and the epoch read back
-- from it. Texts are lists of character codes.
use prediction_market_arbitr.Base.{
  ℕ, zero, suc, ◌+◌, ◌-◌, ◌*◌, ◌/◌, ◌%◌, ◌^◌, ℤ, pos, negsuc, Bool, false, not, if◌then◌else◌, ◌&&◌,
  ◌||◌, ltb, leb, ◌==◌, List, [], ◌∷◌, ◌++◌, map, Option, none, some, codes, prefix_of, to_lower,
  length,
}

abbrev pub Text : Type 0
Text = List ℕ

abbrev pub is_digit : ℕ → Bool
is_digit c = leb 48 c && leb c 57

-- `std::to_string`. Each round takes a digit, so `n` rounds are enough.
unfoldable pub digits : (fuel n : ℕ) → Text → Text
digits zero n more = (48 + n % 10) ∷ more
digits (suc fuel) n more =
    let rest = digits fuel (n / 10) ((48 + n % 10) ∷ more) in
    if ltb n 10 then (48 + n) ∷ more else rest

unfoldable pub to_string : ℤ → Text
to_string (pos n) = digits n n []
to_string (negsuc n) = 45 ∷ digits (suc n) (suc n) []

-- `std::stoll`: blanks, a sign, and at least one digit; what follows is ignored. `none` is an exception.
unfoldable pub scan : Text → ℕ → ℕ
scan [] n = n
scan (c ∷ cs) n = let rest = scan cs (n * 10 + (c - 48)) in if is_digit c then rest else n

abbrev pub starts_digit : Text → Bool
starts_digit [] = false
starts_digit (c ∷ cs) = is_digit c

abbrev pub max_i64 : ℕ
max_i64 = 2 ^ 63 - 1

unfoldable pub magnitude : Text → Option ℤ
magnitude cs =
    let n = scan cs 0 in
    if not (starts_digit cs) then none else if ltb max_i64 n then none else some (pos n)

abbrev pub negated : ℕ → ℤ
negated zero = pos 0
negated (suc n) = negsuc n

unfoldable pub negative : Text → Option ℤ
negative cs =
    let n = scan cs 0 in
    if not (starts_digit cs) then none else if ltb (suc max_i64) n then none else some (negated n)

abbrev pub is_blank : ℕ → Bool
is_blank c = c == 32 || (leb 9 c && leb c 13)

unfoldable pub stoll : Text → Option ℤ
stoll [] = none
stoll (c ∷ cs) =
    let rest = stoll cs in
    if is_blank c
    then rest
    else if c == 45
    then negative cs
    else if c == 43
    then magnitude cs
    else magnitude (c ∷ cs)

abbrev pub slug_prefix : Text
slug_prefix = codes "btc-updown-5m-"

unfoldable pub slug_for_bucket : ℤ → Text
slug_for_bucket bucket_ts = slug_prefix ++ to_string bucket_ts

-- `substr`
unfoldable pub drop : {A : Type 0} → ℕ → List A → List A
drop zero xs = xs
drop (suc n) [] = []
drop (suc n) (x ∷ xs) = drop n xs

unfoldable pub parse_bucket_epoch_from_slug : Text → Option ℤ
parse_bucket_epoch_from_slug slug =
    if leb (length slug) 14
    then none
    else if not (prefix_of slug_prefix (map to_lower slug))
    then none
    else stoll (drop 14 slug)
