-- ===== src/Quotes/Best.antt =====
-- src/polymarket, the feeds of quotes: the top of a book is its best level on each side, in whatever
-- order the levels come.
use mathlib.Core.Path.{subst, ◌∙◌}
use prediction_market_arbitr.Base.{
  Bool, true, false, not, ◌≡◌, refl, ◌⊎◌, inl, inr, if◌then◌else◌, if_intro, List, [], ◌∷◌, Option,
  none, some, All, Bool-cases, arith,
}
use prediction_market_arbitr.Double.{Double, ◌≼◌, IsOrdered, is_nan}
use prediction_market_arbitr.Json.{Json}
use prediction_market_arbitr.Quotes.Book.{
  json_to_double, json_level_size_positive, higher, improve, level_price, best_of, both,
  side_levels, parse_top_of_book_from_book,
}

module _ {A W : Type 0} (price : A → Option W) (R : W → W → Type 0) where
  -- Some level has this price.
  abbrev pub Offered : W → List A → Type 0
  Offered b [] = ⊥
  Offered b (x ∷ xs) = (price x ≡ some b) ⊎ Offered b xs

  -- The price is as good as this one, if there is one.
  abbrev pub AsGood : W → Option W → Type 0
  AsGood b none = Unit
  AsGood b (some p) = R b p

  -- The best price of these levels: one of theirs, as good as each; none if no level counts.
  abbrev pub BestOf : List A → Option W → Type 0
  BestOf xs none = All (λ x. price x ≡ none) xs
  BestOf xs (some b) = Offered b xs × All (λ x. AsGood b (price x)) xs

module _ {W J : Type 0} ⦃d : Double W⦄ (json : Json W J) (laws : IsOrdered W) where
  open d use {lt, le}
  open laws use {le_trans, refl_of_le, le_total, lt-eq-not-le, le_of_lt}

  abbrev price : J → Option W
  price lvl = level_price json lvl

  abbrev Valid : Option W → Type 0
  Valid none = Unit
  Valid (some p) = p ≼ p

  not-nan : (p : W) → is_nan p ≡ false → p ≼ p
  not-nan p h = ground arith

  -- A price that counts is not NaN.
  level_price-Valid : (lvl : J) → Valid (price lvl)
  unfolding level_price
  level_price-Valid lvl =
      if_intro Valid (not (json.contains lvl "price")) _ _ (λ e. tt)
        (λ e.
          if_intro Valid (not (json_level_size_positive json lvl)) _ _ (λ e'. tt)
            (λ e'.
              if_intro Valid (is_nan (json_to_double json (json.at lvl "price"))) _ _ (λ k. tt)
                (λ k. not-nan (json_to_double json (json.at lvl "price")) k)))

  module _ (better : W → W → Bool) (R : W → W → Type 0) (R_refl : (x : W) → x ≼ x → R x x)
      (R_trans : (x y z : W) → R x y → R y z → R x z) (wins : (x y : W) → better x y ≡ true → R x y)
      (loses : (x y : W) → x ≼ x → y ≼ y → better x y ≡ false → R y x) where
    -- The best of an earlier price and of these levels.
    abbrev BestWith : Option W → List J → Option W → Type 0
    BestWith best lvls none = (best ≡ none) × All (λ x. price x ≡ none) lvls
    BestWith best lvls (some b) =
        ((best ≡ some b) ⊎ Offered price R b lvls)
        × AsGood price R b best
        × All (λ x. AsGood price R b (price x)) lvls

    unpriced :
        (lvl : J) (lvls : List J) (best r : Option W)
        → price lvl ≡ none
        → BestWith best lvls r
        → BestWith best (lvl ∷ lvls) r
    unpriced lvl lvls best none e (n, all) = (n, (e, all))
    unpriced lvl lvls best (some c) e (inl k, g, all) = (inl k, g, (rw e tt, all))
    unpriced lvl lvls best (some c) e (inr k, g, all) = (inr (inr k), g, (rw e tt, all))

    first_price :
        (lvl : J) (lvls : List J) (p : W) (best r : Option W)
        → price lvl ≡ some p
        → ((c : W) → R c p → AsGood price R c best)
        → BestWith (some p) lvls r
        → BestWith best (lvl ∷ lvls) r
    first_price lvl lvls p best none e w (n, all) = cc (n)
    first_price lvl lvls p best (some c) e w (inl k, g, all) =
        (inr (inl (e ∙ k)), w c g, (rw e g, all))
    first_price lvl lvls p best (some c) e w (inr k, g, all) = (inr (inr k), w c g, (rw e g, all))

    kept_price :
        (lvl : J) (lvls : List J) (p b : W) (r : Option W)
        → price lvl ≡ some p
        → R b p
        → BestWith (some b) lvls r
        → BestWith (some b) (lvl ∷ lvls) r
    kept_price lvl lvls p b none e w (n, all) = cc (n)
    kept_price lvl lvls p b (some c) e w (inl k, g, all) =
        (inl k, g, (rw e (R_trans c b p g w), all))
    kept_price lvl lvls p b (some c) e w (inr k, g, all) =
        (inr (inr k), g, (rw e (R_trans c b p g w), all))

    best_step :
        (lvl : J) (lvls : List J) (o best r : Option W)
        → price lvl ≡ o
        → Valid o
        → Valid best
        → BestWith (improve better o best) lvls r
        → BestWith best (lvl ∷ lvls) r
    best_step lvl lvls none best r e v w h = unpriced lvl lvls best r e h
    best_step lvl lvls (some p) none r e v w h = first_price lvl lvls p none r e (λ c k. tt) h
    best_step lvl lvls (some p) (some b) r e v w h = elim (Bool-cases (better p b)) [
      | inl t ↦
          first_price lvl lvls p (some b) r e (λ c k. R_trans c p b k (wins p b t))
            (subst (λ (q : Bool). BestWith (if q then some p else some b) lvls r) t h)
      | inr t ↦
          kept_price lvl lvls p b r e (loses p b v w t)
            (subst (λ (q : Bool). BestWith (if q then some p else some b) lvls r) t h)
    ]

    improve-Valid : (o best : Option W) → Valid o → Valid best → Valid (improve better o best)
    improve-Valid none best v w = w
    improve-Valid (some p) none v w = v
    improve-Valid (some p) (some b) v w = if_intro Valid (better p b) _ _ (λ e. v) (λ e. w)

    best_of-BestWith :
        (lvls : List J) (best : Option W)
        → Valid best
        → BestWith best lvls (best_of json better lvls best)
    unfolding best_of
    best_of-BestWith [] none v = (refl, tt)
    best_of-BestWith [] (some b) v = (inl refl, R_refl b v, tt)
    best_of-BestWith (lvl ∷ lvls) best v =
        best_step lvl lvls (price lvl) best _ refl (level_price-Valid lvl) v (
          best_of-BestWith lvls (improve better (price lvl) best)
            (improve-Valid (price lvl) best (level_price-Valid lvl) v))

    of_none : (lvls : List J) (r : Option W) → BestWith none lvls r → BestOf price R lvls r
    of_none lvls none h = h.1
    of_none lvls (some b) (inl k, g, all) = cc (k)
    of_none lvls (some b) (inr k, g, all) = (k, all)

    best_of-BestOf : (lvls : List J) → BestOf price R lvls (best_of json better lvls none)
    best_of-BestOf lvls = of_none lvls _ (best_of-BestWith lvls none tt)

  best_of_best :
      (bids asks : List J)
      → BestOf price (λ x y. y ≼ x) bids (best_of json higher bids none)
        × BestOf price (λ x y. x ≼ y) asks (best_of json lt asks none)
  best_of_best bids asks = (
    best_of-BestOf higher (λ x y. y ≼ x) (λ x h. h) (λ x y z h k. le_trans z y x k h)
        (λ x y h. le_of_lt y x h) (λ x y hx hy h. ground (arith, lt-eq-not-le y x hy hx)) bids,
    best_of-BestOf lt (λ x y. x ≼ y) (λ x h. h) le_trans le_of_lt
        (λ x y hx hy h. ground (arith, lt-eq-not-le x y hx hy)) asks,
  )

  -- What the top of the book `j` is: the greatest bid and the least ask, both of levels that count.
  abbrev pub IsTop : J → Option (W × W) → Type 0
  IsTop j none =
      All (λ x. price x ≡ none) (side_levels json j "bids")
      ⊎ All (λ x. price x ≡ none) (side_levels json j "asks")
  IsTop j (some (bid, ask)) =
      BestOf price (λ x y. y ≼ x) (side_levels json j "bids") (some bid)
      × BestOf price (λ x y. x ≼ y) (side_levels json j "asks") (some ask)

  both-IsTop :
      (j : J) (bid ask : Option W)
      → BestOf price (λ x y. y ≼ x) (side_levels json j "bids") bid
      → BestOf price (λ x y. x ≼ y) (side_levels json j "asks") ask
      → IsTop j (both bid ask)
  both-IsTop j none ask h k = inl h
  both-IsTop j (some bid) none h k = inr k
  both-IsTop j (some bid) (some ask) h k = (h, k)

  -- The bid of the quote that the feed takes from a book is the price of one of the levels of `bids`,
  -- no smaller than that of any, and its ask is the price of one of the levels of `asks`, no greater
  -- than that of any; there is no quote only if one of the two lists has no level that counts. A level
  -- counts if it has a size above 1e-18 and a price that is a number.
  pub parse_top_of_book_from_book-IsTop : (j : J) → IsTop j (parse_top_of_book_from_book json j)
  unfolding parse_top_of_book_from_book
  parse_top_of_book_from_book-IsTop j =
      let b = best_of_best (side_levels json j "bids") (side_levels json j "asks") in
      both-IsTop j _ _ b.0 b.1
