-- ===== src/Chainlink/Strikes.antt =====
-- src/polymarket/rtds_chainlink_feed.cpp: which tick becomes the strike.
use mathlib.Core.Path.{subst}
use prediction_market_arbitr.Base.{
  ℤ, ◌≤ℤ◌, ◌≤◌, Bool, true, false, ◌≡◌, refl, ◌⊎◌, inl, inr, if◌then◌else◌, ◌&&◌, List, [], ◌∷◌,
  Option, none, some, All, Bool-cases, arith,
}
use prediction_market_arbitr.Chainlink.Selection.{
  TickSel, no_ticks, choose, skew, is_before, is_after, later, earlier, nearer, consider,
  consider_all,
}
use prediction_market_arbitr.Chainlink.Ticks.{Tick}

-- This is one of the elements.
abbrev pub Among : {T : Type 0} → T → List T → Type 0
Among b [] = ⊥
Among b (t ∷ ts) = (t ≡ b) ⊎ Among b ts

module _ {T : Type 0} (eligible : T → Bool) (R : T → T → Type 0) where
  -- The best of the eligible elements, if there are any.
  abbrev pub Chosen : List T → Option T → Type 0
  Chosen ts none = All (λ t. eligible t ≡ false) ts
  Chosen ts (some b) = Among b ts × (eligible b ≡ true) × All (λ t. (eligible t ≡ false) ⊎ R b t) ts

abbrev choose_all :
    {T : Type 0} (eligible : T → Bool) (better : T → T → Bool) → List T → Option T → Option T
choose_all eligible better [] o = o
choose_all eligible better (t ∷ ts) o = choose_all eligible better ts (choose eligible better t o)

module _ {T : Type 0} (eligible : T → Bool) (better : T → T → Bool) (R : T → T → Type 0)
    (R_refl : (x : T) → R x x) (R_trans : (x y z : T) → R x y → R y z → R x z)
    (wins : (x y : T) → better x y ≡ true → R x y)
    (loses : (x y : T) → better x y ≡ false → R y x) where
  abbrev GoodFor : T → Option T → Type 0
  GoodFor b none = Unit
  GoodFor b (some a) = R b a

  abbrev ChosenWith : Option T → List T → Option T → Type 0
  ChosenWith o ts none = (o ≡ none) × All (λ t. eligible t ≡ false) ts
  ChosenWith o ts (some b) =
      ((o ≡ some b) ⊎ Among b ts × (eligible b ≡ true))
      × GoodFor b o
      × All (λ t. (eligible t ≡ false) ⊎ R b t) ts

  passed_over :
      (t : T) (ts : List T) (o r : Option T)
      → eligible t ≡ false
      → ChosenWith o ts r
      → ChosenWith o (t ∷ ts) r
  passed_over t ts o none e (n, all) = (n, (e, all))
  passed_over t ts o (some b) e (inl k, g, all) = (inl k, g, (inl e, all))
  passed_over t ts o (some b) e (inr (k, q), g, all) = (inr (inr k, q), g, (inl e, all))

  taken :
      (t : T) (ts : List T) (o r : Option T)
      → eligible t ≡ true
      → ((b : T) → R b t → GoodFor b o)
      → ChosenWith (some t) ts r
      → ChosenWith o (t ∷ ts) r
  taken t ts o none e w (n, all) = cc (n)
  taken t ts o (some b) e w (inl k, g, all) = (inr (inl (cc (k)), cc (k, e)), w b g, (inr g, all))
  taken t ts o (some b) e w (inr (k, q), g, all) = (inr (inr k, q), w b g, (inr g, all))

  kept :
      (t a : T) (ts : List T) (r : Option T)
      → R a t
      → ChosenWith (some a) ts r
      → ChosenWith (some a) (t ∷ ts) r
  kept t a ts none w (n, all) = cc (n)
  kept t a ts (some b) w (inl k, g, all) = (inl k, g, (inr (R_trans b a t g w), all))
  kept t a ts (some b) w (inr (k, q), g, all) = (inr (inr k, q), g, (inr (R_trans b a t g w), all))

  choose_step :
      (t : T) (ts : List T) (o r : Option T)
      → ChosenWith (choose eligible better t o) ts r
      → ChosenWith o (t ∷ ts) r
  choose_step t ts none r h = elim (Bool-cases (eligible t)) [
    | inl e ↦
        taken t ts none r e (λ b k. tt)
          (subst (λ (q : Bool). ChosenWith (if q then some t else none) ts r) e h)
    | inr e ↦
        passed_over t ts none r e
          (subst (λ (q : Bool). ChosenWith (if q then some t else none) ts r) e h)
  ]
  choose_step t ts (some a) r h = elim (Bool-cases (eligible t)) [
    | inr e ↦
        passed_over t ts (some a) r e
          (subst (λ (q : Bool). ChosenWith (if q && better t a then some t else some a) ts r) e h)
    | inl e ↦
        let k =
          subst (λ (q : Bool). ChosenWith (if q && better t a then some t else some a) ts r) e h in
        elim (Bool-cases (better t a)) [
          | inl w ↦
              taken t ts (some a) r e (λ b l. R_trans b t a l (wins t a w))
                (subst (λ (q : Bool). ChosenWith (if q then some t else some a) ts r) w k)
          | inr w ↦
              kept t a ts r (loses t a w)
                (subst (λ (q : Bool). ChosenWith (if q then some t else some a) ts r) w k)
        ]
  ]

  choose_all-ChosenWith :
      (ts : List T) (o : Option T) → ChosenWith o ts (choose_all eligible better ts o)
  choose_all-ChosenWith [] none = (refl, tt)
  choose_all-ChosenWith [] (some b) = (inl refl, R_refl b, tt)
  choose_all-ChosenWith (t ∷ ts) o =
      choose_step t ts o _ (choose_all-ChosenWith ts (choose eligible better t o))

  of_none : (ts : List T) (r : Option T) → ChosenWith none ts r → Chosen eligible R ts r
  of_none ts none h = h.1
  of_none ts (some b) (inl k, g, all) = cc (k)
  of_none ts (some b) (inr (k, q), g, all) = (k, q, all)

  choose_all-Chosen : (ts : List T) → Chosen eligible R ts (choose_all eligible better ts none)
  choose_all-Chosen ts = of_none ts _ (choose_all-ChosenWith ts none)

module _ {W : Type 0} (target_ms max_skew_ms : ℤ) where
  abbrev select : List (Tick W) → TickSel W
  select ts = consider_all target_ms max_skew_ms ts no_ticks

  all_after :
      (ts : List (Tick W)) (sel : TickSel W)
      → (consider_all target_ms max_skew_ms ts sel).best_after
        ≡ choose_all
            (is_after target_ms max_skew_ms)
            (earlier target_ms max_skew_ms)
            ts
            sel.best_after
  unfolding consider_all consider
  all_after [] sel = refl
  all_after (t ∷ ts) sel = all_after ts (consider target_ms max_skew_ms t sel)

  all_before :
      (ts : List (Tick W)) (sel : TickSel W)
      → (consider_all target_ms max_skew_ms ts sel).best_before
        ≡ choose_all
            (is_before target_ms max_skew_ms)
            (later target_ms max_skew_ms)
            ts
            sel.best_before
  unfolding consider_all consider
  all_before [] sel = refl
  all_before (t ∷ ts) sel = all_before ts (consider target_ms max_skew_ms t sel)

  all_any :
      (ts : List (Tick W)) (sel : TickSel W)
      → (consider_all target_ms max_skew_ms ts sel).best_any
        ≡ choose_all (λ u. true) (nearer target_ms max_skew_ms) ts sel.best_any
  unfolding consider_all consider
  all_any [] sel = refl
  all_any (t ∷ ts) sel = all_any ts (consider target_ms max_skew_ms t sel)

  -- After a snapshot: the first tick at or after the boundary and the last one at or before it, of those
  -- within the skew, and a nearest one of all.
  pub consider_all-Chosen :
      (ts : List (Tick W))
      → Chosen (is_after target_ms max_skew_ms) (λ a b. a.0 ≤ℤ b.0) ts (select ts).best_after
        × Chosen (is_before target_ms max_skew_ms) (λ a b. b.0 ≤ℤ a.0) ts (select ts).best_before
        × Chosen
            (λ u. true)
            (λ a b. skew target_ms max_skew_ms a ≤ skew target_ms max_skew_ms b)
            ts
            (select ts).best_any
  consider_all-Chosen ts = (
    rw (all_after ts no_ticks) (
        choose_all-Chosen (is_after target_ms max_skew_ms) (earlier target_ms max_skew_ms)
          (λ a b. a.0 ≤ℤ b.0) (λ x. omega arith) (λ x y z h k. omega (arith, h, k))
          (λ x y h. ground arith) (λ x y h. ground arith) ts),
    rw (all_before ts no_ticks) (
        choose_all-Chosen (is_before target_ms max_skew_ms) (later target_ms max_skew_ms)
          (λ a b. b.0 ≤ℤ a.0) (λ x. omega arith) (λ x y z h k. omega (arith, h, k))
          (λ x y h. ground arith) (λ x y h. ground arith) ts),
    rw (all_any ts no_ticks) (
        choose_all-Chosen (λ u. true) (nearer target_ms max_skew_ms)
          (λ a b. skew target_ms max_skew_ms a ≤ skew target_ms max_skew_ms b) (λ x. omega arith)
          (λ x y z h k. omega (arith, h, k)) (λ x y h. ground arith) (λ x y h. ground arith) ts),
  )
