-- ===== src/Buckets/Market.antt =====
-- src/polymarket/bucket_market_discovery.cpp: what is read from an event and its market. The reading of
-- ISO times is a parameter, since it is `sscanf` and `timegm` of the C library.
use prediction_market_arbitr.Base.{
  ℕ, suc, String, Bool, true, false, not, if◌then◌else◌, ◌&&◌, ◌||◌, ◌==◌, List, [], ◌∷◌, Option,
  none, some, codes, codes_eq, lower, length, get_elem?,
}
use prediction_market_arbitr.Buckets.Slug.{Text, to_string}
use prediction_market_arbitr.Double.{Double}
use prediction_market_arbitr.Json.{Json, value_string, value_boolean}

-- The result of a step: a value, `false` with a message, or an exception.
pub data Outcome (A : Type 0) : Type 0 where
  found : A → Outcome A
  rejected : String → Outcome A
  raised : Outcome A

infixl 20 ◌>>=◌
abbrev pub ◌>>=◌ : {A B : Type 0} → Outcome A → (A → Outcome B) → Outcome B
found a >>= f = f a
rejected m >>= f = rejected m
raised >>= f = raised

abbrev pub or_raise : {A : Type 0} → Option A → Outcome A
or_raise none = raised
or_raise (some a) = found a

abbrev pub or_reject : {A : Type 0} → String → Option A → Outcome A
or_reject m none = rejected m
or_reject m (some a) = found a

-- `index_up_outcome` and `index_down_outcome`
unfoldable pub index_outcome : Text → List String → Option ℕ
index_outcome want [] = none
index_outcome want (o ∷ os) = elim (codes_eq (lower o) want) [
  | true ↦ some 0
  | false ↦ elim (index_outcome want os) [ none ↦ none | some i ↦ some (suc i) ]
]

-- The tokens of the outcomes `up` and `down`.
unfoldable pub up_and_down : (outs toks : List String) → Outcome (String × String)
up_and_down outs toks =
    or_reject "outcomes/tokens missing or not Up/Down aligned" (index_outcome (codes "up") outs)
    >>= λ up_i.
        or_reject "outcomes/tokens missing or not Up/Down aligned"
          (index_outcome (codes "down") outs)
        >>= λ down_i.
            if not (length outs == length toks)
            then rejected "outcomes/tokens missing or not Up/Down aligned"
            else (or_reject "cannot resolve Up/Down token indices" (get_elem? toks up_i) >>= λ up.
                or_reject "cannot resolve Up/Down token indices" (get_elem? toks down_i) >>= λ down.
                found (up, down))

module _ {W J : Type 0} (json : Json W J) where
  open json use {
    contains, at, is_object, is_array, is_null, is_string, is_number, is_integer, get_string,
    get_double, get_int, elements, parse,
  }

  unfoldable pub strings : List J → List String
  strings [] = []
  strings (x ∷ xs) = let rest = strings xs in if is_string x then get_string x ∷ rest else rest

  abbrev pub parsed_strings : Option J → List String
  parsed_strings none = []
  parsed_strings (some arr) = strings (elements arr)

  -- `outcomes_from_market` and `tokens_from_market`: an array, or a text that holds one.
  unfoldable pub strings_field : J → String → List String
  strings_field m key =
      if not (contains m key)
      then []
      else if is_array (at m key)
      then strings (elements (at m key))
      else if is_string (at m key)
      then parsed_strings (parse (get_string (at m key)))
      else []

  unfoldable pub json_scalar_id_string : J → String → Text
  json_scalar_id_string j key =
      if not (contains j key)
      then []
      else if is_string (at j key)
      then codes (get_string (at j key))
      else if is_integer (at j key)
      then to_string (get_int (at j key))
      else []

  abbrev pub text_of : J → String → Outcome String
  text_of j key = or_raise (value_string json j key "")

  abbrev pub flag_of : J → String → Bool → Outcome Bool
  flag_of j key default = or_raise (value_boolean json j key default)

  -- `active` and not `closed`; `closed` is read only of what is active.
  unfoldable pub is_live : J → Outcome Bool
  is_live j = flag_of j "active" false >>= λ active.
      if not active then found false else (flag_of j "closed" true >>= λ closed. found (not closed))

  abbrev pub first_object : List J → Option J
  first_object [] = none
  first_object (m ∷ ms) = if is_object m then some m else none

  -- The loop of `find_market_for_slug`; `whole` is the list that it started with.
  unfoldable pub find_in : (whole : List J) → Text → List J → Outcome (Option J)
  find_in whole want [] = found (first_object whole)
  find_in whole want (m ∷ ms) =
      let rest = find_in whole want ms in
      if not (is_object m)
      then rest
      else (text_of m "slug" >>= λ slug.
          if codes_eq (codes slug) want then found (some m) else rest)

  unfoldable pub find_market_for_slug : J → Text → Outcome (Option J)
  find_market_for_slug event want =
      if contains event "markets" && is_array (at event "markets")
      then find_in (elements (at event "markets")) want (elements (at event "markets"))
      else found none

  abbrev pub object_or_none : Option J → Option J
  object_or_none none = none
  object_or_none (some em) = if is_object em then some em else none

  unfoldable pub event_metadata_object : J → Option J
  event_metadata_object event =
      let meta = at event "eventMetadata" in
      if not (contains event "eventMetadata")
      then none
      else if is_null meta
      then none
      else if is_object meta
      then some meta
      else if is_string meta
      then object_or_none (parse (get_string meta))
      else none

  module _ ⦃d : Double W⦄ where
    abbrev pub positive : Option W → Option W
    positive none = none
    positive (some x) = if not (d.is_finite x) || d.le x (d.lit 0 0) then none else some x

    abbrev pub price_in : J → Option W
    price_in em =
        let v = at em "priceToBeat" in
        if not (contains em "priceToBeat")
        then none
        else if is_number v
        then positive (some (get_double v))
        else if is_string v
        then positive (d.stod (get_string v))
        else none

    abbrev pub price_of : Option J → Option W
    price_of none = none
    price_of (some em) = price_in em

    unfoldable pub extract_price_to_beat_from_gamma_event : J → Option W
    extract_price_to_beat_from_gamma_event event = price_of (event_metadata_object event)
