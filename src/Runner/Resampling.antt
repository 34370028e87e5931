-- ===== src/Runner/Resampling.antt =====
-- The grid of `resample_mids_from_hist`, and what a realized volatility that is accepted satisfies.
use prediction_market_arbitr.Base.{
  ℕ, zero, suc, ◌+◌, ◌-◌, ◌<◌, ◌≤◌, ℤ, pos, ◌+ℤ◌, ◌-ℤ◌, pos_part, neg_part, +ℤ_parts, -ℤ_parts,
  leb_ℤ, ◌≡◌, refl, ap, ◌∙◌, sym, if_intro, leb, leb→le, ltb, true, false, inl, inr, List, [], ◌∷◌,
  length, arith, Bool-cases, if◌then◌else◌,
}
use prediction_market_arbitr.Double.{Double}
use prediction_market_arbitr.Runner.Amounts.{Each}
use prediction_market_arbitr.Runner.State.{Config}
use prediction_market_arbitr.Runner.Volatility.{
  hour_ms, max_points, skip_to, catch_up, sample, resample_mids_from_hist, sigma_of_returns,
  realized_vol_from_resampled_mids,
}

-- `m` milliseconds remain from `t` to `now`.
abbrev pub Remain : ℕ → ℤ → ℤ → Type 0
Remain m t now = pos_part t + neg_part now + m ≡ pos_part now + neg_part t

Remain-step : (m k : ℕ) (t now : ℤ) → k ≤ m → Remain m t now → Remain (m - k) (t +ℤ pos k) now
Remain-step m k t now le h = omega (arith, le, h, +ℤ_parts t (pos k))

past_of_Remain : (m k : ℕ) (t now : ℤ) → m < k → Remain m t now → leb_ℤ (t +ℤ pos k) now ≡ false
past_of_Remain m k t now lt h = ground (arith, lt, h, +ℤ_parts t (pos k))

Remain-hour : (now : ℤ) → Remain 3600000 (now -ℤ hour_ms) now
Remain-hour now = omega (arith, -ℤ_parts now hour_ms)

module _ {W : Type 0} where
  sample_past :
      (n : ℕ) (step t now : ℤ) (last : W) (obs : List (ℤ × W))
      → leb_ℤ t now ≡ false
      → sample n step t now last obs ≡ []
  unfolding sample
  sample_past zero step t now last obs h = refl
  sample_past (suc n) step t now last obs h = rw h refl

  sample_enough :
      (n n' k m : ℕ) (t now : ℤ) (last : W) (obs : List (ℤ × W))
      → 0 < k
      → Remain m t now
      → m < n
      → m < n'
      → sample n (pos k) t now last obs ≡ sample n' (pos k) t now last obs
  unfolding sample
  sample_enough zero n' k m t now last obs p r h h' = absurd (omega (arith, h))
  sample_enough (suc n) zero k m t now last obs p r h h' = absurd (omega (arith, h'))
  sample_enough (suc n) (suc n') k m t now last obs p r h h' =
      let o = catch_up t last obs in
      ap (λ (rest : List W). if leb_ℤ t now then o.0 ∷ rest else [])
        (elim (Bool-cases (leb k m)) [
          | inl le ↦
              sample_enough n n' k (m - k) (t +ℤ pos k) now o.0 o.1 p
                (Remain-step m k t now (leb→le k m le) r) (omega (arith, p, h, leb→le k m le))
                (omega (arith, p, h', leb→le k m le))
          | inr more ↦
              sample_past n (pos k) (t +ℤ pos k) now o.0 o.1
                (past_of_Remain m k t now (ground (arith, more)) r)
              ∙ sym (
                  sample_past n' (pos k) (t +ℤ pos k) now o.0 o.1
                    (past_of_Remain m k t now (ground (arith, more)) r))
        ])

  -- With a step of at least a millisecond, the grid ends because it has passed `now`: allowing it more
  -- points than the bound of the model changes nothing.
  pub resample_complete :
      (x : ℤ × W) (xs : List (ℤ × W)) (now : ℤ) (k n : ℕ)
      → 0 < k
      → max_points ≤ n
      → 3 ≤ length (x ∷ xs)
      → resample_mids_from_hist (x ∷ xs) now (pos k)
        ≡ sample n
            (pos k)
            (now -ℤ hour_ms)
            now
            (skip_to (now -ℤ hour_ms) x xs).0.1
            (skip_to (now -ℤ hour_ms) x xs).1
  unfolding resample_mids_from_hist
  resample_complete x xs now k n p enough long =
      let first = skip_to (now -ℤ hour_ms) x xs in
      if_intro (λ (ys : List W). ys ≡ sample n (pos k) (now -ℤ hour_ms) now first.0.1 first.1)
        (ltb (length (x ∷ xs)) 3) [] _ (λ short. absurd (ground (arith, short, long)))
        λ _.
          sample_enough max_points n k 3600000 (now -ℤ hour_ms) now first.0.1 first.1 p
            (Remain-hour now) (omega arith) (omega (arith, enough))

module _ {W : Type 0} ⦃d : Double W⦄ where
  open d use {is_finite, lt}

  -- A volatility that `sigma_rv_min` and `sigma_rv_max` admit.
  abbrev pub InRange : Config W → W → Type 0
  InRange c sig =
      (is_finite sig ≡ true) × (lt sig c.sigma_rv_min ≡ false) × (lt c.sigma_rv_max sig ≡ false)

  -- A realized volatility that is reported is finite and lies within the accepted range.
  pub realized_vol-InRange :
      (c : Config W) (step : ℤ) (mids : List W)
      → Each (InRange c) (realized_vol_from_resampled_mids c step mids)
  unfolding realized_vol_from_resampled_mids sigma_of_returns
  realized_vol-InRange c step [] = tt
  realized_vol-InRange c step (x ∷ xs) = ground arith
