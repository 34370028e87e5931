-- ===== src/Runner/Resamples.antt =====
-- What the resampled mids are, without the cursor: one for each time of the grid, and of the last
-- observation that is not later.
use mathlib.Core.Path.{subst}
use prediction_market_arbitr.Base.{
  ℕ, zero, suc, ◌≤◌, ℤ, pos, ◌+ℤ◌, ◌-ℤ◌, ◌≤ℤ◌, leb_ℤ, ltb_ℤ, ◌≡◌, refl, ap, sym, true, false, ◌⊎◌,
  inl, inr, List, [], ◌∷◌, ◌++◌, All, map, length, arith, Bool-cases,
}
use prediction_market_arbitr.Runner.CarryForward.{grid, mid_at, resample_mids_from_hist-map}
use prediction_market_arbitr.Runner.Volatility.{
  hour_ms, max_points, skip_to, catch_up, resample_mids_from_hist,
}

le_of_leb : (a b : ℤ) → leb_ℤ a b ≡ true → a ≤ℤ b
le_of_leb a b h = ground (arith, h)

not_le : (a b : ℤ) → leb_ℤ a b ≡ false → a ≤ℤ b → ⊥
not_le a b h k = ground (arith, h, k)

older_of_ltb : (a b : ℤ) → ltb_ℤ a b ≡ true → b ≤ℤ a → ⊥
older_of_ltb a b h k = ground (arith, h, k)

reached_of_ltb : (a b : ℤ) → ltb_ℤ a b ≡ false → b ≤ℤ a
reached_of_ltb a b h = ground (arith, h)

module _ {W : Type 0} where
  -- No observation comes first that is not later than `t`.
  abbrev pub Later : ℤ → List (ℤ × W) → Type 0
  Later t [] = Unit
  Later t (x ∷ xs) = x.0 ≤ℤ t → ⊥

  -- The mid of the last of these observations, or the earlier one if there is none.
  abbrev pub last_mid : W → List (ℤ × W) → W
  last_mid before [] = before
  last_mid before (x ∷ xs) = last_mid x.1 xs

  -- `y` is carried forward to `t`: it is of the last observation before the first that is later.
  pub record IsCarried (before : W) (obs : List (ℤ × W)) (t : ℤ) (y : W) : Type 0 where
    pub seen : List (ℤ × W)
    pub rest : List (ℤ × W)
    pub split : obs ≡ seen ++ rest
    pub not_later : All (λ x. x.0 ≤ℤ t) seen
    pub later : Later t rest
    pub mid : y ≡ last_mid before seen

  -- One mid for each `step` from `t` on that is not after `now`, `n` of them at most.
  abbrev pub Resampled : (before : W) (obs : List (ℤ × W)) (step now : ℤ) → ℕ → ℤ → List W → Type 0
  Resampled before obs step now zero t ys = ys ≡ []
  Resampled before obs step now (suc n) t [] = t ≤ℤ now → ⊥
  Resampled before obs step now (suc n) t (y ∷ ys) =
      (t ≤ℤ now) × IsCarried before obs t y × Resampled before obs step now n (t +ℤ step) ys

  -- The observation that the hour starts with: those before it are older than the hour, and it is not,
  -- unless all are.
  pub record IsFirst (start : ℤ) (obs : List (ℤ × W)) (first : ℤ × W) (rest : List (ℤ × W))
      : Type 0 where
    pub before : List (ℤ × W)
    pub split : obs ≡ before ++ (first ∷ rest)
    pub older : All (λ x. start ≤ℤ x.0 → ⊥) before
    pub reached : (start ≤ℤ first.0) ⊎ (rest ≡ [])

  mid_at-IsCarried :
      (before : W) (obs : List (ℤ × W)) (t : ℤ) → IsCarried before obs t (mid_at before obs t)
  unfolding catch_up
  mid_at-IsCarried before [] t = record {
    seen = [];
    rest = [];
    split = refl;
    not_later = tt;
    later = tt;
    mid = refl;
  }
  mid_at-IsCarried before (x ∷ xs) t = elim (Bool-cases (leb_ℤ x.0 t)) [
    | inl early ↦
        let h = mid_at-IsCarried x.1 xs t in
        rw (mid_at, early)
          (record {
            seen = x ∷ h.seen;
            rest = h.rest;
            split = ap (λ l. x ∷ l) h.split;
            not_later = (le_of_leb x.0 t early, h.not_later);
            later = h.later;
            mid = h.mid;
          })
    | inr late ↦
        rw (mid_at, late)
          (record {
            seen = [];
            rest = x ∷ xs;
            split = refl;
            not_later = tt;
            later = not_le x.0 t late;
            mid = refl;
          })
  ]

  map-Resampled :
      (before : W) (obs : List (ℤ × W)) (step now : ℤ) (n : ℕ) (t : ℤ)
      → Resampled before obs step now n t (map (mid_at before obs) (grid n step t now))
  unfolding grid
  map-Resampled before obs step now zero t = refl
  map-Resampled before obs step now (suc n) t = elim (Bool-cases (leb_ℤ t now)) [
    | inl within ↦ rw within (
      le_of_leb t now within,
      mid_at-IsCarried before obs t,
      map-Resampled before obs step now n (t +ℤ step),
    )
    | inr past ↦ rw past (not_le t now past)
  ]

  skip_to-IsFirst :
      (start : ℤ) (x : ℤ × W) (xs : List (ℤ × W))
      → IsFirst start (x ∷ xs) (skip_to start x xs).0 (skip_to start x xs).1
  unfolding skip_to
  skip_to-IsFirst start x [] = record { before = []; split = refl; older = tt; reached = inr refl }
  skip_to-IsFirst start x (y ∷ ys) = elim (Bool-cases (ltb_ℤ x.0 start)) [
    | inl old ↦
        let h = skip_to-IsFirst start y ys in
        rw old (record {
          before = x ∷ h.before;
          split = ap (λ l. x ∷ l) h.split;
          older = (older_of_ltb x.0 start old, h.older);
          reached = h.reached;
        })
    | inr kept ↦ rw kept (record {
      before = [];
      split = refl;
      older = tt;
      reached = inl (reached_of_ltb x.0 start kept);
    })
  ]

  -- Of a history of at least three observations, `resample_mids_from_hist` starts at the first that is
  -- not older than the hour, or at the last if all are, and gives one mid for each step from the
  -- beginning of the hour to now, up to the bound on the points: that of the last observation before
  -- the first one that is later than the time of the grid, or that of the observation it started at.
  pub resample_mids_from_hist-Resampled :
      (x : ℤ × W) (xs : List (ℤ × W)) (now : ℤ) (k : ℕ)
      → 3 ≤ length (x ∷ xs)
      → (first : ℤ × W) × (rest : List (ℤ × W)) × IsFirst (now -ℤ hour_ms) (x ∷ xs) first rest
        × Resampled first.1 rest
            (pos k)
            now
            max_points
            (now -ℤ hour_ms)
            (resample_mids_from_hist (x ∷ xs) now (pos k))
  resample_mids_from_hist-Resampled x xs now k long =
      let start = now -ℤ hour_ms in
      let f = skip_to start x xs in
      (
        f.0,
        f.1,
        skip_to-IsFirst start x xs,
        subst (λ ys. Resampled f.0.1 f.1 (pos k) now max_points start ys)
            (sym (resample_mids_from_hist-map x xs now k long))
            (map-Resampled f.0.1 f.1 (pos k) now max_points start),
      )
