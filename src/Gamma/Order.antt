-- ===== src/Gamma/Order.antt =====
-- src/polymarket/gamma_bootstrap.cpp: entries sorted by a text, and the last of them.
use mathlib.Core.Path.{subst}
use prediction_market_arbitr.Backtest.Events.{◌>>=◌}
use prediction_market_arbitr.Base.{
  IfSome, false, ◌≡◌, refl, sym, ◌⊎◌, inl, inr, List, [], ◌∷◌, All, Option, none, some, arith,
}
use prediction_market_arbitr.Buckets.Slug.{Text}
use prediction_market_arbitr.Gamma.Bootstrap.{text_lt, last}

-- One of the elements.
abbrev pub Among : {A : Type 0} → A → List A → Type 0
Among a [] = ⊥
Among a (x ∷ xs) = (a ≡ x) ⊎ Among a xs

pub IfSome-map :
    {A : Type 0} (P Q : A → Type 0) (o : Option A) → ((a : A) → P a → Q a) → IfSome P o → IfSome Q o
IfSome-map P Q none f h = tt
IfSome-map P Q (some a) f h = f a h

pub bind-IfSome :
    {A B : Type 0} (P : B → Type 0) (o : Option A) (f : A → Option B)
    → ((a : A) → o ≡ some a → IfSome P (f a))
    → IfSome P (o >>= f)
bind-IfSome P none f h = tt
bind-IfSome P (some a) f h = h a refl

pub All-map :
    {A : Type 0} (P Q : A → Type 0) (xs : List A) → ((a : A) → P a → Q a) → All P xs → All Q xs
All-map P Q [] f h = tt
All-map P Q (x ∷ xs) f h = (f x h.0, All-map P Q xs f h.1)

pub text_lt_irrefl : (s : Text) → text_lt s s ≡ false
unfolding text_lt
text_lt_irrefl [] = refl
text_lt_irrefl (c ∷ s) = ground (arith, text_lt_irrefl s)

module _ {J : Type 0} where
  -- No later entry is before an earlier one.
  abbrev pub IsSorted : List (Text × J) → Type 0
  IsSorted [] = Unit
  IsSorted (p ∷ ps) = All (λ (q : Text × J). text_lt q.0 p.0 ≡ false) ps × IsSorted ps

  -- The second list is the first one sorted.
  pub record IsSortOf (ps qs : List (Text × J)) : Type 0 where
    pub ordered : IsSorted qs
    pub kept : (p : Text × J) → Among p ps → Among p qs
    pub fresh : (p : Text × J) → Among p qs → Among p ps

  at_most_last :
      (l p : Text × J) (ps : List (Text × J))
      → last (p ∷ ps) ≡ some l
      → All (λ (q : Text × J). text_lt q.0 p.0 ≡ false) ps
      → text_lt l.0 p.0 ≡ false
  unfolding last
  at_most_last l p [] e h = ground (arith, e, text_lt_irrefl p.0)
  at_most_last l p (q ∷ []) e h = ground (arith, e, h.0)
  at_most_last l p (q ∷ r ∷ ps) e h = at_most_last l p (r ∷ ps) e h.1

  -- The last entry of a sorted list is not before any.
  last_of_sorted :
      (l q : Text × J) (ps : List (Text × J))
      → last ps ≡ some l
      → IsSorted ps
      → Among q ps
      → text_lt l.0 q.0 ≡ false
  unfolding last
  last_of_sorted l q [] e h k = absurd k
  last_of_sorted l q (p ∷ ps) e h (inl k) =
      subst (λ (r : Text × J). text_lt l.0 r.0 ≡ false) (sym k) (at_most_last l p ps e h.0)
  last_of_sorted l q (p ∷ []) e h (inr k) = absurd k
  last_of_sorted l q (p ∷ r ∷ ps) e h (inr k) = last_of_sorted l q (r ∷ ps) e h.1 k

  All-Among :
      (P : Text × J → Type 0) (ps : List (Text × J))
      → ((p : Text × J) → Among p ps → P p)
      → All P ps
  All-Among P [] h = tt
  All-Among P (p ∷ ps) h = (h p (inl refl), All-Among P ps (λ q k. h q (inr k)))

  Among-last : (l : Text × J) (ps : List (Text × J)) → last ps ≡ some l → Among l ps
  unfolding last
  Among-last l [] e = absurd (cc (e))
  Among-last l (p ∷ []) e = inl (ground (arith, e))
  Among-last l (p ∷ r ∷ ps) e = inr (Among-last l (r ∷ ps) e)

  -- Nothing that was compared ends after the last one of the sorted list.
  pub last-latest :
      (l : Text × J) (ps qs : List (Text × J))
      → IsSortOf ps qs
      → last qs ≡ some l
      → Among l ps × All (λ (q : Text × J). text_lt l.0 q.0 ≡ false) ps
  last-latest l ps qs s e = (
    s.fresh l (Among-last l qs e),
    All-Among _ ps (λ q k. last_of_sorted l q qs e s.ordered (s.kept q k)),
  )

pub at_entry : {A : Type 0} (P : A → Type 0) (a : A) (xs : List A) → All P xs → Among a xs → P a
at_entry P a [] h k = absurd k
at_entry P a (x ∷ xs) h (inl e) = subst P (sym e) h.0
at_entry P a (x ∷ xs) h (inr k) = at_entry P a xs h.1 k
