-- ===== src/Runner/CarryForward.antt =====
-- Which observation each resampled mid comes from.
use prediction_market_arbitr.Base.{
  ℕ, zero, suc, ◌≤◌, ℤ, pos, ◌+ℤ◌, ◌-ℤ◌, ◌≤ℤ◌, +ℤ_parts, ltb_ℤ, leb_ℤ, ◌≡◌, refl, ap, ◌∙◌, sym,
  true, ◌⊎◌, inl, inr, List, [], ◌∷◌, map, length, arith, Bool-cases, if◌then◌else◌, if_intro, ltb,
}
use prediction_market_arbitr.Runner.Volatility.{
  hour_ms, max_points, skip_to, catch_up, sample, resample_mids_from_hist,
}

-- The times of the grid from `t` to `now`, `n` of them at most.
unfoldable pub grid : ℕ → (step t now : ℤ) → List ℤ
grid zero step t now = []
grid (suc n) step t now =
    let rest = grid n step (t +ℤ step) now in if leb_ℤ t now then t ∷ rest else []

later_of_leb : (a t t' : ℤ) → t ≤ℤ t' → leb_ℤ a t ≡ true → leb_ℤ a t' ≡ true
later_of_leb a t t' h k = ground arith

le_refl-ℤ : (t : ℤ) → t ≤ℤ t
le_refl-ℤ t = omega arith

later_step : (k : ℕ) (t t' : ℤ) → (t +ℤ pos k) ≤ℤ t' → t ≤ℤ t'
later_step k t t' h = omega (arith, h, +ℤ_parts t (pos k))

module _ {W : Type 0} where
  -- The mid at `t` by a scan of all observations: the last one, before the first that is later than
  -- `t`, or `before` if there is none.
  abbrev pub mid_at : W → List (ℤ × W) → ℤ → W
  mid_at before obs t = (catch_up t before obs).0

  -- Going on from where an earlier scan stopped is as good as a scan from the beginning.
  catch_up-again :
      (t t' : ℤ) (before : W) (obs : List (ℤ × W))
      → t ≤ℤ t'
      → catch_up t' (catch_up t before obs).0 (catch_up t before obs).1 ≡ catch_up t' before obs
  unfolding catch_up
  catch_up-again t t' before [] h = refl
  catch_up-again t t' before (x ∷ xs) h = elim (Bool-cases (leb_ℤ x.0 t)) [
    | inl seen ↦ rw (seen, later_of_leb x.0 t t' h seen) (catch_up-again t t' x.1 xs h)
    | inr unseen ↦ rw unseen refl
  ]

  -- A cursor that agrees with the whole history from `t` on samples what the whole history says.
  sample-map :
      (n k : ℕ) (t now : ℤ) (last before : W) (rest obs : List (ℤ × W))
      → ((t' : ℤ) → t ≤ℤ t' → catch_up t' last rest ≡ catch_up t' before obs)
      → sample n (pos k) t now last rest ≡ map (mid_at before obs) (grid n (pos k) t now)
  unfolding sample grid
  sample-map zero k t now last before rest obs agree = refl
  sample-map (suc n) k t now last before rest obs agree = elim (Bool-cases (leb_ℤ t now)) [
    | inr past ↦ rw past refl
    | inl within ↦ rw within (
        cons_eq (ap (λ (r : W × List (ℤ × W)). r.0) (agree t (le_refl-ℤ t))) (
          sample-map n k (t +ℤ pos k) now (catch_up t last rest).0 before (catch_up t last rest).1
            obs
            λ t' h.
              catch_up-again t t' last rest (later_step k t t' h) ∙ agree t' (later_step k t t' h)))
  ]
    where
      cons_eq : {x y : W} {xs ys : List W} → x ≡ y → xs ≡ ys → (x ∷ xs) ≡ (y ∷ ys)
      cons_eq e f = rw (e, f) refl

  -- The cursor that `resample_mids_from_hist` moves along the history gives what a scan of the
  -- observations from the start of the hour gives at each time of the grid: the mid of the last
  -- observation that is not later, or the first mid of those if all are later.
  pub resample_mids_from_hist-map :
      (x : ℤ × W) (xs : List (ℤ × W)) (now : ℤ) (k : ℕ)
      → 3 ≤ length (x ∷ xs)
      → resample_mids_from_hist (x ∷ xs) now (pos k)
        ≡ map
            (mid_at (skip_to (now -ℤ hour_ms) x xs).0.1 (skip_to (now -ℤ hour_ms) x xs).1)
            (grid max_points (pos k) (now -ℤ hour_ms) now)
  unfolding resample_mids_from_hist
  resample_mids_from_hist-map x xs now k long =
      let first = skip_to (now -ℤ hour_ms) x xs in
      if_intro
        (λ (ys : List W).
          ys ≡ map (mid_at first.0.1 first.1) (grid max_points (pos k) (now -ℤ hour_ms) now))
        (ltb (length (x ∷ xs)) 3) [] _ (λ short. absurd (ground (arith, short, long)))
        λ _.
          sample-map max_points k (now -ℤ hour_ms) now first.0.1 first.0.1 first.1 first.1
            (λ t' h. refl)

  -- Skipping the older observations loses nothing at times from the first one that is kept on.
  skip_to-first :
      (start : ℤ) (y : ℤ × W) (ys : List (ℤ × W))
      → (ltb_ℤ y.0 start ≡ true) ⊎ ((skip_to start y ys).0 ≡ y)
  unfolding skip_to
  skip_to-first start y [] = inr refl
  skip_to-first start y (z ∷ zs) = elim (Bool-cases (ltb_ℤ y.0 start)) [
    | inl older ↦ inl older
    | inr kept ↦ inr (rw kept refl)
  ]

  mid_at-seen :
      (before : W) (y : ℤ × W) (ys : List (ℤ × W)) (t : ℤ)
      → leb_ℤ y.0 t ≡ true
      → mid_at before (y ∷ ys) t ≡ mid_at y.1 ys t
  unfolding catch_up
  mid_at-seen before y ys t h = rw (mid_at, h) refl

  -- From the first observation that is not before the start of the hour on, each time's mid is that of
  -- a scan of the whole history: the last observation that is not later than it.
  pub mid_at-skip_to :
      (start t : ℤ) (x : ℤ × W) (xs : List (ℤ × W))
      → start ≤ℤ t
      → (skip_to start x xs).0.0 ≤ℤ t
      → mid_at (skip_to start x xs).0.1 (skip_to start x xs).1 t ≡ mid_at x.1 xs t
  unfolding skip_to catch_up
  mid_at-skip_to start t x [] h k = refl
  mid_at-skip_to start t x (y ∷ ys) h k = elim (Bool-cases (ltb_ℤ x.0 start)) [
    | inr kept ↦ rw kept refl
    | inl older ↦ rw older (
        mid_at-skip_to start t y ys h (rw older at k)
        ∙ sym (mid_at-seen x.1 y ys t (seen (rw older at k))))
  ]
    where
      seen_of_le : (a : ℤ) → a ≤ℤ t → leb_ℤ a t ≡ true
      seen_of_le a l = ground (arith, l)

      seen : (skip_to start y ys).0.0 ≤ℤ t → leb_ℤ y.0 t ≡ true
      seen l = elim (skip_to-first start y ys) [
        | inl before ↦ ground (arith, before, h)
        | inr same ↦ seen_of_le y.0 (rw same at l)
      ]
