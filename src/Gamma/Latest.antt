-- ===== src/Gamma/Latest.antt =====
-- src/polymarket/gamma_bootstrap.cpp: which market is chosen.
use mathlib.Core.Path.{subst}
use prediction_market_arbitr.Base.{
  IfSome, Bool, true, false, not, if◌then◌else◌, ◌||◌, ◌==◌, ◌≡◌, refl, sym, ap, ◌∙◌, inl, inr,
  String, List, [], ◌∷◌, All, Option, none, some, codes, length, get_elem?, if_intro, Option-cases,
  arith,
}
use prediction_market_arbitr.Buckets.Market.{strings_field}
use prediction_market_arbitr.Buckets.Slug.{Text}
use prediction_market_arbitr.Gamma.Bootstrap.{
  GammaBootstrapParams, GammaMarket, text_lt, index_up_outcome, index_down_outcome, last,
  is_candidate, candidates_of, end_date, keyed, market_in, latest, read_market, choose_market,
  no_items,
}
use prediction_market_arbitr.Gamma.Outcomes.{
  IsTokenOf, index_or-IsTokenOf, Suits, is_candidate-Suits,
}
use prediction_market_arbitr.Json.{Json, value_string, value_boolean}
use prediction_market_arbitr.Gamma.Order.{
  Among, IfSome-map, bind-IfSome, All-map, text_lt_irrefl, IsSortOf, last-latest, at_entry,
}

module _ {W J : Type 0} (json : Json W J) where
  -- An entry is a candidate with its end date.
  pub record IsEntry (ms : List J) (p : Text × J) : Type 0 where
    pub candidate : Among p.1 ms
    pub date : String
    pub dated : end_date json p.1 ≡ some date
    pub key : p.0 ≡ codes date

  IsEntry-later : (m : J) (ms : List J) (p : Text × J) → IsEntry ms p → IsEntry (m ∷ ms) p
  IsEntry-later m ms p h = record {
    candidate = inr h.candidate;
    date = h.date;
    dated = h.dated;
    key = h.key;
  }

  keyed-All : (ms : List J) → IfSome (All (IsEntry ms)) (keyed json ms)
  unfolding keyed
  keyed-All [] = tt
  keyed-All (m ∷ ms) = bind-IfSome (All (IsEntry (m ∷ ms))) (end_date json m) _ λ date e.
      bind-IfSome (All (IsEntry (m ∷ ms))) (keyed json ms) _ λ rest k. (
        record { candidate = inl refl; date = date; dated = e; key = refl },
        All-map (IsEntry ms) (IsEntry (m ∷ ms)) rest (IsEntry-later m ms)
            (subst (λ o. IfSome (All (IsEntry ms)) o) k (keyed-All ms)),
      )

  -- What is told of the market `m`.
  pub record IsReading (m : J) (g : GammaMarket) : Type 0 where
    pub slug : value_string json m "slug" "" ≡ some g.ref.slug
    pub condition : value_string json m "conditionId" "" ≡ some g.ref.condition_id
    pub ends : end_date json m ≡ some g.end_time
    pub aligned :
        length (strings_field json m "outcomes") ≡ length (strings_field json m "clobTokenIds")
    pub up :
        IsTokenOf
          (codes "up")
          (strings_field json m "outcomes")
          (strings_field json m "clobTokenIds")
          g.ref.up_token_id
    pub down :
        IsTokenOf
          (codes "down")
          (strings_field json m "outcomes")
          (strings_field json m "clobTokenIds")
          g.ref.down_token_id

  module _ (sort : List (Text × J) → List (Text × J)) (show : W → Text) where
    read_market-IsReading : (m : J) → IfSome (IsReading m) (read_market json sort show m)
    unfolding read_market index_up_outcome index_down_outcome
    read_market-IsReading m =
        let outs = strings_field json m "outcomes" in
        let toks = strings_field json m "clobTokenIds" in
        if_intro (IfSome (IsReading m)) (no_items toks || not (length outs == length toks)) none _
          (λ _. tt)
          λ same. bind-IfSome (IsReading m) (value_string json m "conditionId" "") _ λ condition c.
            bind-IfSome (IsReading m) (value_string json m "slug" "") _ λ slug s.
              bind-IfSome (IsReading m) (value_boolean json m "active" true) _ λ active a.
                bind-IfSome (IsReading m) (value_string json m "startDate" "") _ λ start_time b.
                  bind-IfSome (IsReading m) (end_date json m) _ λ end_time e.
                    bind-IfSome (IsReading m) (get_elem? toks (index_up_outcome outs)) _ λ up u.
                      bind-IfSome (IsReading m) (get_elem? toks (index_down_outcome outs)) _
                        λ down w. record {
                          slug = s;
                          condition = c;
                          ends = e;
                          aligned = ground (arith, same);
                          up = index_or-IsTokenOf (codes "up") outs toks up u;
                          down = index_or-IsTokenOf (codes "down") outs toks down w;
                        }

  -- The market is an entry, and no entry ends after it.
  pub record IsLast (ks : List (Text × J)) (m : J) : Type 0 where
    pub key : Text
    pub entry : Among (key, m) ks
    pub latest_key : All (λ (q : Text × J). text_lt key q.0 ≡ false) ks

  single_entry :
      (m : J) (ks : List (Text × J)) (date : String)
      → end_date json m ≡ some date
      → keyed json (m ∷ []) ≡ some ks
      → (codes date, m) ∷ [] ≡ ks
  unfolding keyed
  single_entry m ks date present e = ground (arith, present, e)

  no_entry :
      (m : J) (ks : List (Text × J)) → end_date json m ≡ none → keyed json (m ∷ []) ≡ some ks → ⊥
  unfolding keyed
  no_entry m ks absent e = ground (arith, absent, e)

  same_date : (m : J) (a b : String) → end_date json m ≡ some a → end_date json m ≡ some b → a ≡ b
  same_date m a b h k = cc

  keyed_single : (m : J) (ks : List (Text × J)) → keyed json (m ∷ []) ≡ some ks → IsLast ks m
  keyed_single m ks e = elim (Option-cases (end_date json m)) [
    | inl absent ↦ absurd (no_entry m ks absent e)
    | inr (date, present) ↦
        subst (λ (xs : List (Text × J)). IsLast xs m) (single_entry m ks date present e)
          (record {
            key = codes date;
            entry = inl refl;
            latest_key = (text_lt_irrefl (codes date), tt);
          })
  ]

  module _ (sort : List (Text × J) → List (Text × J)) (show : W → Text) where
    market_in-IsLast :
        (ks : List (Text × J)) (o : Option (Text × J))
        → IsSortOf ks (sort ks)
        → last (sort ks) ≡ o
        → IfSome (IsLast ks) (market_in json sort show o)
    market_in-IsLast ks none s e = tt
    market_in-IsLast ks (some l) s e =
        let h = last-latest l ks (sort ks) s e in
        record { key = l.0; entry = h.0; latest_key = h.1 }

    latest-IsLast :
        (ms : List J) (ks : List (Text × J))
        → keyed json ms ≡ some ks
        → IsSortOf ks (sort ks)
        → IfSome (IsLast ks) (latest json sort show ms)
    unfolding latest
    latest-IsLast [] ks e s = tt
    latest-IsLast (m ∷ []) ks e s = keyed_single m ks e
    latest-IsLast (m ∷ m' ∷ ms) ks e s = rw e (market_in-IsLast ks (last (sort ks)) s refl)

    -- What the choice is, among the candidates and their entries.
    pub record IsChosen (params : GammaBootstrapParams) (ms : List J) (ks : List (Text × J))
        (g : GammaMarket) : Type 0 where
      pub market : J
      pub among : Among market ms
      pub suits : Suits json params market
      pub reading : IsReading market g
      pub not_earlier : All (λ (q : Text × J). text_lt (codes g.end_time) q.0 ≡ false) ks

    chosen :
        (params : GammaBootstrapParams) (ms : List J) (ks : List (Text × J)) (m : J)
        (g : GammaMarket)
        → All (IsEntry ms) ks
        → All (Suits json params) ms
        → IsLast ks m
        → IsReading m g
        → IsChosen params ms ks g
    chosen params ms ks m g entries suited l r =
        let n = at_entry (IsEntry ms) (l.key, m) ks entries l.entry in
        let date = same_date m g.end_time n.date r.ends n.dated in
        record {
          market = m;
          among = n.candidate;
          suits = at_entry (Suits json params) m ms suited n.candidate;
          reading = r;
          not_earlier =
              subst (λ (t : Text). All (λ (q : Text × J). text_lt t q.0 ≡ false) ks)
                (n.key ∙ ap codes (sym date)) l.latest_key;
        }

    kept_if :
        (params : GammaBootstrapParams) (m : J) (c : Bool) (rest : List J)
        → is_candidate json params m ≡ some c
        → All (Suits json params) rest
        → All (Suits json params) (if c then m ∷ rest else rest)
    kept_if params m true rest e h = (is_candidate-Suits json params m e, h)
    kept_if params m false rest e h = h

    candidates_of-All :
        (params : GammaBootstrapParams) (arr : List J)
        → IfSome (All (Suits json params)) (candidates_of json params arr)
    unfolding candidates_of
    candidates_of-All params [] = tt
    candidates_of-All params (m ∷ ms) =
        bind-IfSome (All (Suits json params)) (is_candidate json params m) _ λ c e.
          bind-IfSome (All (Suits json params)) (candidates_of json params ms) _ λ rest k.
            kept_if params m c rest e
              (subst (λ o. IfSome (All (Suits json params)) o) k (candidates_of-All params ms))

    -- Where `std::sort` has sorted the entries of the candidates by their end dates, a market that is
    -- found is one of the candidates and its slug has the prefix, up to the case of letters; it has
    -- outcomes Up and Down if they are required; no candidate ends after it; it has as many tokens as
    -- outcomes, and its Up and Down tokens stand where its first outcomes of these names do, or first
    -- if no outcome has the name.
    pub choose_market-IsChosen :
        (params : GammaBootstrapParams) (arr : J) (ms : List J) (ks : List (Text × J))
        → candidates_of json params (json.elements arr) ≡ some ms
        → keyed json ms ≡ some ks
        → IsSortOf ks (sort ks)
        → IfSome (IsChosen params ms ks) (choose_market json sort show params arr)
    unfolding choose_market
    choose_market-IsChosen params arr ms ks c k s =
        if_intro (IfSome (IsChosen params ms ks)) (not (json.is_array arr)) none _ (λ _. tt)
          λ _. rw c (
            bind-IfSome (IsChosen params ms ks) (latest json sort show ms) _ λ m l.
              IfSome-map (IsReading m) (IsChosen params ms ks) (read_market json sort show m)
                (λ g r.
                  chosen params ms ks m g
                    (subst (λ o. IfSome (All (IsEntry ms)) o) k (keyed-All ms))
                    (subst (λ o. IfSome (All (Suits json params)) o) c
                      (candidates_of-All params (json.elements arr)))
                    (subst (λ o. IfSome (IsLast ks) o) l (latest-IsLast ms ks k s)) r)
                (read_market-IsReading sort show m))
