-- ===== src/Web/Priced.antt =====
-- src/polymarket/polymarket_web_ptb.cpp: which price is found in the page's document.
use mathlib.Core.Path.{subst}
use prediction_market_arbitr.Base.{
  String, true, false, ◌≡◌, refl, sym, ap, ◌⊎◌, inl, inr, List, [], ◌∷◌, ◌++◌, Option, none, some,
  All, same_refl, eq_of_same, Option-cases, Bool-cases, arith,
}
use prediction_market_arbitr.Double.{Double}
use prediction_market_arbitr.Json.{Json}
use prediction_market_arbitr.Web.Page.{
  positive, json_to_positive_double, ptb_from_event_obj, scan_next_data_for_slug_ptb,
}
use prediction_market_arbitr.Web.Search.{first_price, page_events, scan_next_data-eq-first_price}

module _ {W J : Type 0} ⦃d : Double W⦄ (json : Json W J) where
  open json use {
    contains, at, is_object, is_array, is_number, is_string, get_double, get_string, elements,
  }

  -- The value is the number `p`, or a text that is read as `p`.
  abbrev pub Reads : J → W → Type 0
  Reads j p =
      ((is_number j ≡ true) × (get_double j ≡ p))
      ⊎ ((is_number j ≡ false) × (is_string j ≡ true) × (d.stod (get_string j) ≡ some p))

  -- The value is a finite positive number.
  pub record IsPrice (j : J) (p : W) : Type 0 where
    pub reads : Reads j p
    pub finite : d.is_finite p ≡ true
    pub positive : d.lt (d.lit 0 0) p ≡ true

  -- The event has the wanted slug, and the price to beat `p` in its metadata.
  pub record IsPriced (want : String) (ev : J) (p : W) : Type 0 where
    pub event : is_object ev ≡ true
    pub named : contains ev "slug" ≡ true
    pub slug_text : is_string (at ev "slug") ≡ true
    pub slug : get_string (at ev "slug") ≡ want
    pub described : contains ev "eventMetadata" ≡ true
    pub metadata : is_object (at ev "eventMetadata") ≡ true
    pub told : contains (at ev "eventMetadata") "priceToBeat" ≡ true
    pub price : IsPrice (at (at ev "eventMetadata") "priceToBeat") p

  abbrev pub Unpriced : String → J → Type 0
  Unpriced want ev = (p : W) → IsPriced want ev p → ⊥

  -- The price of the first of these events that has one; none if none has.
  abbrev pub IsFirstPrice : String → List J → Option W → Type 0
  IsFirstPrice want evs none = All (Unpriced want) evs
  IsFirstPrice want evs (some p) =
      (before : List J) × (ev : J) × (after : List J) × (evs ≡ before ++ (ev ∷ after))
      × All (Unpriced want) before
      × IsPriced want ev p

  some-neq : {o : Option W} {p : W} → o ≡ some p → o ≡ none → ⊥
  some-neq e n = ground (arith, e, n)

  price_of_positive :
      (j : J) (o : Option W) (p : W)
      → ((x : W) → o ≡ some x → Reads j x)
      → positive json o ≡ some p
      → IsPrice j p
  price_of_positive j none p r h = absurd (ground (arith, h))
  price_of_positive j (some x) p r h = record {
    reads = subst (λ y. Reads j y) (same_value h) (r x refl);
    finite = ground (arith, h);
    positive = ground (arith, h);
  }
    where
      same_value : positive json (some x) ≡ some p → x ≡ p
      same_value k = ground (arith, k)

  price_of_read : (j : J) (p : W) → json_to_positive_double json j ≡ some p → IsPrice j p
  unfolding json_to_positive_double
  price_of_read j p h = elim (Bool-cases (is_number j)) [
    | inl n ↦
        price_of_positive j (some (get_double j)) p (λ x e. inl (n, ground (arith, e)))
          (ground (arith, h, n))
    | inr n ↦ elim (Bool-cases (is_string j)) [
      | inl t ↦
          price_of_positive j (d.stod (get_string j)) p (λ x e. inr (n, t, e))
            (ground (arith, h, n, t))
      | inr t ↦ absurd (ground (arith, h, n, t))
    ]
  ]

  read_of_price : (j : J) (p : W) → IsPrice j p → json_to_positive_double json j ≡ some p
  unfolding json_to_positive_double
  read_of_price j p h = ground (arith, h.reads, h.finite, h.positive)

  ptb_from_event_obj-IsPriced :
      (want : String) (ev : J) (p : W)
      → ptb_from_event_obj json ev want ≡ some p
      → IsPriced want ev p
  unfolding ptb_from_event_obj
  ptb_from_event_obj-IsPriced want ev p h = record {
    event = ground (arith, h);
    named = ground (arith, h);
    slug_text = ground (arith, h);
    slug = eq_of_same (get_string (at ev "slug")) want (ground (arith, h));
    described = ground (arith, h);
    metadata = ground (arith, h);
    told = ground (arith, h);
    price = price_of_read (at (at ev "eventMetadata") "priceToBeat") p (ground (arith, h));
  }

  ptb_from_event_obj-eq :
      (want : String) (ev : J) (p : W)
      → IsPriced want ev p
      → ptb_from_event_obj json ev want ≡ some p
  unfolding ptb_from_event_obj
  ptb_from_event_obj-eq want ev p h =
      rw (h.event, h.named, h.slug_text, h.slug, same_refl want, h.described, h.metadata, h.told)
        (read_of_price _ p h.price)

  first_price-IsFirstPrice :
      (want : String) (evs : List J) → IsFirstPrice want evs (first_price json evs want)
  first_price-IsFirstPrice want [] = tt
  first_price-IsFirstPrice want (ev ∷ evs) = elim (Option-cases (ptb_from_event_obj json ev want)) [
    | inl n ↦ rw (first_price, n) (later _ (unpriced n) (first_price-IsFirstPrice want evs))
    | inr (p, e) ↦
        rw (first_price, e) ([], ev, evs, refl, tt, ptb_from_event_obj-IsPriced want ev p e)
  ]
    where
      unpriced : ptb_from_event_obj json ev want ≡ none → Unpriced want ev
      unpriced n p h = some-neq (ptb_from_event_obj-eq want ev p h) n

      later :
          (o : Option W)
          → Unpriced want ev
          → IsFirstPrice want evs o
          → IsFirstPrice want (ev ∷ evs) o
      later none u h = (u, h)
      later (some p) u (before, ev', after, e, h, k) =
          (ev ∷ before, ev', after, ap (λ l. ev ∷ l) e, (u, h), k)

  -- The price found in the page's document is that of the first event, in the order of the page, that
  -- has the wanted slug and, in its metadata, a price to beat that is finite and positive, as a number
  -- or as text; none is found only if no event has one.
  pub scan_next_data-IsFirstPrice :
      (root : J) (want : String)
      → IsFirstPrice want (page_events json root) (scan_next_data_for_slug_ptb json root want)
  scan_next_data-IsFirstPrice root want =
      subst (λ o. IsFirstPrice want (page_events json root) o)
        (sym (scan_next_data-eq-first_price json root want))
        (first_price-IsFirstPrice want (page_events json root))
