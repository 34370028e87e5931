-- ===== src/Buckets/RoundTrip.antt =====
-- src/polymarket/bucket_market_discovery.cpp: the epoch that is read back from a bucket's slug.
use prediction_market_arbitr.Base.{
  ℕ, zero, suc, ◌+◌, ◌-◌, ◌*◌, ◌/◌, ◌%◌, ◌≤◌, ◌<◌, pos, true, false, ◌≡◌, refl, ap, ◌∙◌, if_intro,
  ltb, leb, [], ◌∷◌, ◌++◌, some, to_lower, length, arith,
}
use prediction_market_arbitr.Buckets.Slug.{
  Text, is_digit, digits, to_string, scan, starts_digit, max_i64, magnitude, stoll, slug_prefix,
  slug_for_bucket, drop, parse_bucket_epoch_from_slug,
}

digit_lem : (d : ℕ) → d < 10 → is_digit (48 + d) ≡ true
digit_lem d h = ground arith

scan-digit : (d n : ℕ) (more : Text) → d < 10 → scan ((48 + d) ∷ more) n ≡ scan more (n * 10 + d)
unfolding scan
scan-digit d n more h = let e : 48 + d - 48 ≡ d = omega arith in rw (digit_lem d h, e) refl

scan-digits : (fuel n : ℕ) (more : Text) → n ≤ fuel → scan (digits fuel n more) 0 ≡ scan more n
unfolding digits
scan-digits zero n more h =
    let e : 0 * 10 + n % 10 ≡ n = omega (arith, h) in
    scan-digit (n % 10) 0 more (omega arith) ∙ ap (scan more) e
scan-digits (suc fuel) n more h =
    if_intro (λ (t : Text). scan t 0 ≡ scan more n) (ltb n 10) _ _
      (λ e.
        let k : 0 * 10 + n ≡ n = omega arith in
        scan-digit n 0 more (ground arith) ∙ ap (scan more) k)
      (λ e.
        let k : n / 10 * 10 + n % 10 ≡ n = omega arith in
        scan-digits fuel (n / 10) _ (ground arith)
        ∙ scan-digit (n % 10) (n / 10) more (omega arith)
        ∙ ap (scan more) k)

digits-starts : (fuel n : ℕ) (more : Text) → starts_digit (digits fuel n more) ≡ true
unfolding digits
digits-starts zero n more = digit_lem (n % 10) (omega arith)
digits-starts (suc fuel) n more =
    if_intro (λ (t : Text). starts_digit t ≡ true) (ltb n 10) _ _ (λ e. digit_lem n (ground arith))
      (λ e. digits-starts fuel (n / 10) ((48 + n % 10) ∷ more))

stoll-magnitude : (cs : Text) → starts_digit cs ≡ true → stoll cs ≡ magnitude cs
unfolding stoll
stoll-magnitude [] h = cc (h)
stoll-magnitude (c ∷ cs) h = ground arith

long_enough : (ds : Text) → starts_digit ds ≡ true → leb (length (slug_prefix ++ ds)) 14 ≡ false
long_enough [] h = cc (h)
long_enough (c ∷ cs) h = ground arith

not-ltb : (a b : ℕ) → b ≤ a → ltb a b ≡ false
not-ltb a b h = ground arith

-- The epoch that names a bucket's market is read back from its slug, up to the greatest 64-bit value.
pub parse_bucket_epoch_from_slug-slug_for_bucket :
    (n : ℕ) → n ≤ max_i64 → parse_bucket_epoch_from_slug (slug_for_bucket (pos n)) ≡ some (pos n)
unfolding parse_bucket_epoch_from_slug slug_for_bucket to_string drop to_lower magnitude scan
parse_bucket_epoch_from_slug-slug_for_bucket n h =
    let s = digits-starts n n [] in
    let k = scan-digits n n [] (omega arith) in
    let b : ltb max_i64 n ≡ false = not-ltb max_i64 n h in
    rw (long_enough (digits n n []) s, stoll-magnitude (digits n n []) s, magnitude, s, k, scan, b)
      refl
