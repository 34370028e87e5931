-- ===== src/Gamma/Outcomes.antt =====
-- src/polymarket/gamma_bootstrap.cpp: which markets are candidates, and which token an outcome has.
use mathlib.Core.Path.{subst}
use prediction_market_arbitr.Base.{
  ℕ, zero, suc, true, false, ◌≡◌, ◌≢◌, refl, ◌⊎◌, inl, inr, String, List, [], ◌∷◌, ◌++◌, All,
  Option, none, some, codes, codes_eq, prefix_of, lower, get_elem?, Option-cases, Bool-cases, arith,
}
use prediction_market_arbitr.Buckets.Market.{strings_field, index_outcome}
use prediction_market_arbitr.Buckets.Slug.{Text}
use prediction_market_arbitr.Gamma.Bootstrap.{GammaBootstrapParams, has_outcome, is_candidate}
use prediction_market_arbitr.Json.{Json, value_string}
use prediction_market_arbitr.Quotes.Rolling.{slug_has_prefix_ci, index_or}
use prediction_market_arbitr.Startup.Variables.{codes_eq_sound}

-- The outcome has this name, up to the case of its letters.
abbrev pub IsNamed : Text → String → Type 0
IsNamed want o = lower o ≡ want

-- One of the outcomes has this name.
abbrev pub SomeNamed : Text → List String → Type 0
SomeNamed want [] = ⊥
SomeNamed want (o ∷ os) = IsNamed want o ⊎ SomeNamed want os

-- The token stands where the first outcome of this name does.
abbrev pub Stands : Text → (outs toks : List String) → String → Type 0
Stands want (o ∷ os) (t ∷ ts) tok =
    (IsNamed want o × (t ≡ tok)) ⊎ ((lower o ≢ want) × Stands want os ts tok)
Stands want [] toks tok = ⊥
Stands want (o ∷ os) [] tok = ⊥

-- The token of the first outcome of this name, or the first token if no outcome has it.
abbrev pub IsTokenOf : Text → (outs toks : List String) → String → Type 0
IsTokenOf want outs toks tok =
    Stands want outs toks tok ⊎ (All (λ o. lower o ≢ want) outs × (get_elem? toks 0 ≡ some tok))

codes_eq_refl : (xs : Text) → codes_eq xs xs ≡ true
unfolding codes_eq
codes_eq_refl [] = refl
codes_eq_refl (x ∷ xs) = ground (arith, codes_eq_refl xs)

not_named : (xs ys : Text) → codes_eq xs ys ≡ false → xs ≢ ys
not_named xs ys n e =
    let same : codes_eq xs ys ≡ true = subst (λ zs. codes_eq xs zs ≡ true) e (codes_eq_refl xs) in
    ground (arith, n, same)

has_outcome-SomeNamed :
    (want : Text) (outs : List String) → has_outcome want outs ≡ true → SomeNamed want outs
unfolding has_outcome
has_outcome-SomeNamed want [] h = ground (arith, h)
has_outcome-SomeNamed want (o ∷ os) h = elim (Bool-cases (codes_eq (lower o) want)) [
  | inl same ↦ inl (codes_eq_sound (lower o) want same)
  | inr other ↦ inr (has_outcome-SomeNamed want os (rw other at h))
]

index_outcome-Stands :
    (want : Text) (outs toks : List String) (i : ℕ) (tok : String)
    → index_outcome want outs ≡ some i
    → get_elem? toks i ≡ some tok
    → Stands want outs toks tok
unfolding index_outcome
index_outcome-Stands want [] toks i tok e g = ground (arith, e)
index_outcome-Stands want (o ∷ os) [] i tok e g = ground (arith, g)
index_outcome-Stands want (o ∷ os) (t ∷ ts) i tok e g =
    elim (Bool-cases (codes_eq (lower o) want)) [
      | inl same ↦
          inl (codes_eq_sound (lower o) want same, at_first i (rw (index_outcome, same) at e) g)
      | inr other ↦ inr (
        not_named (lower o) want other,
        at_later (λ j. index_outcome-Stands want os ts j tok) i (rw (index_outcome, other) at e) g,
      )
    ]
  where
    at_first : (j : ℕ) → some 0 ≡ some j → get_elem? (t ∷ ts) j ≡ some tok → t ≡ tok
    at_first zero k h = ground (arith, h)
    at_first (suc j) k h = ground (arith, k)

    at_later :
        ((j : ℕ)
          → index_outcome want os ≡ some j
          → get_elem? ts j ≡ some tok
          → Stands want os ts tok)
        → (j : ℕ)
        → elim (index_outcome want os) as (λ x. Option ℕ) [ none ↦ none | some k ↦ some (suc k) ]
          ≡ some j
        → get_elem? (t ∷ ts) j ≡ some tok
        → Stands want os ts tok
    at_later rest zero k h = ground (arith, k)
    at_later rest (suc j) k h = rest j (ground (arith, k)) h

index_outcome-absent :
    (want : Text) (outs : List String)
    → index_outcome want outs ≡ none
    → All (λ o. lower o ≢ want) outs
unfolding index_outcome
index_outcome-absent want [] e = tt
index_outcome-absent want (o ∷ os) e = elim (Bool-cases (codes_eq (lower o) want)) [
  | inl same ↦ absurd (ground (arith, e, same))
  | inr other ↦
      (not_named (lower o) want other, index_outcome-absent want os (ground (arith, e, other)))
]

pub index_or-IsTokenOf :
    (want : Text) (outs toks : List String) (tok : String)
    → get_elem? toks (index_or 0 (index_outcome want outs)) ≡ some tok
    → IsTokenOf want outs toks tok
index_or-IsTokenOf want outs toks tok g = elim (Option-cases (index_outcome want outs)) [
  | inl n ↦ inr (index_outcome-absent want outs n, rw n at g)
  | inr (i, e) ↦ inl (index_outcome-Stands want outs toks i tok e (rw e at g))
]

prefix_of-append : (xs ys : Text) → prefix_of xs ys ≡ true → (zs : Text) × (ys ≡ xs ++ zs)
prefix_of-append [] ys h = (ys, refl)
prefix_of-append (x ∷ xs) [] h = ground (arith, h)
prefix_of-append (x ∷ xs) (y ∷ ys) h =
    let r = prefix_of-append xs ys (ground (arith, h)) in (r.0, heads y (ground (arith, h)) r.1)
  where
    heads : (z : ℕ) → x ≡ z → {us vs : Text} → us ≡ vs → (z ∷ us) ≡ (x ∷ vs)
    heads z e k = rw (e, k) refl

module _ {W J : Type 0} (json : Json W J) where
  -- The market may be chosen: its slug has the prefix, up to the case of letters, and it has outcomes
  -- Up and Down if they are required.
  pub record Suits (params : GammaBootstrapParams) (m : J) : Type 0 where
    pub object : json.is_object m ≡ true
    pub slug : String
    pub named : value_string json m "slug" "" ≡ some slug
    pub after : Text
    pub prefixed : lower slug ≡ lower params.slug_prefix ++ after
    pub outcomes :
        (params.require_up_down_outcomes ≡ false)
        ⊎ (SomeNamed (codes "up") (strings_field json m "outcomes")
            × SomeNamed (codes "down") (strings_field json m "outcomes"))

  pub is_candidate-Suits :
      (params : GammaBootstrapParams) (m : J)
      → is_candidate json params m ≡ some true
      → Suits params m
  unfolding is_candidate slug_has_prefix_ci
  is_candidate-Suits params m h = elim (Option-cases (value_string json m "slug" "")) [
    | inl n ↦ absurd (ground (arith, h, n))
    | inr (slug, e) ↦
        let r = prefix_of-append (lower params.slug_prefix) (lower slug) (ground (arith, h, e)) in
        record {
          object = ground (arith, h);
          slug = slug;
          named = e;
          after = r.0;
          prefixed = r.1;
          outcomes = elim (Bool-cases params.require_up_down_outcomes) [
            | inr free ↦ inl free
            | inl bound ↦ inr (
              has_outcome-SomeNamed (codes "up") (strings_field json m "outcomes")
                  (ground (arith, h, e, bound)),
              has_outcome-SomeNamed (codes "down") (strings_field json m "outcomes")
                  (ground (arith, h, e, bound)),
            )
          ];
        }
  ]
