-- ===== src/Chainlink/Buffer.antt =====
-- src/polymarket/rtds_chainlink_feed.cpp: a buffer that keeps the last of the elements put into it.
use mathlib.Core.Path.{subst}
use mathlib.Core.List.{append_assoc, append-nil}
use prediction_market_arbitr.Base.{
  ℕ, ◌≤◌, ltb, true, ◌≡◌, refl, ap, ◌∙◌, sym, ◌⊎◌, inl, inr, if_intro, List, [], ◌∷◌, ◌++◌, length,
  length-append, arith,
}
use prediction_market_arbitr.Chainlink.Feed.{pop_front, push_back}

module _ {A : Type 0} where
  -- These are the last `cap` elements of all of them, or all of them if there are no more.
  pub record IsLast (cap : ℕ) (all kept : List A) : Type 0 where
    pub gone : List A
    pub split : all ≡ gone ++ kept
    pub at_most : length kept ≤ cap
    pub no_less : (gone ≡ []) ⊎ (length kept ≡ cap)

  no_room :
      (cap : ℕ) (x : A) (xs gone kept : List A)
      → gone ≡ []
      → xs ≡ gone ++ kept
      → length kept ≤ cap
      → ltb cap (length (x ∷ xs)) ≡ true
      → length kept ≡ cap
  no_room cap x xs gone kept g s h e =
      let k = ap length s ∙ length-append gone kept in
      let z : length gone ≡ 0 = ap length g in ground (arith, k, z)

  pop_front-IsLast : (cap : ℕ) (xs : List A) → IsLast cap xs (pop_front cap xs)
  unfolding pop_front
  pop_front-IsLast cap [] = record {
    gone = [];
    split = refl;
    at_most = omega arith;
    no_less = inl refl;
  }
  pop_front-IsLast cap (x ∷ xs) =
      let h = pop_front-IsLast cap xs in
      if_intro (IsLast cap (x ∷ xs)) (ltb cap (length (x ∷ xs))) _ _
        (λ e. record {
          gone = x ∷ h.gone;
          split = ap (λ ys. x ∷ ys) h.split;
          at_most = h.at_most;
          no_less = elim h.no_less [
            | inl g ↦ inr (no_room cap x xs h.gone (pop_front cap xs) g h.split h.at_most e)
            | inr k ↦ inr k
          ];
        })
        (λ e. record { gone = []; split = refl; at_most = ground arith; no_less = inl refl })

  overfull :
      (cap : ℕ) (b kept gone : List A) (x : A)
      → length b ≡ cap
      → gone ≡ []
      → (b ++ (x ∷ [])) ≡ gone ++ kept
      → length kept ≤ cap
      → ⊥
  overfull cap b kept gone x k g s h =
      let l = ap length s ∙ length-append gone kept in
      let z : length gone ≡ 0 = ap length g in
      let m = length-append b (x ∷ []) in omega (arith, k, l, z, m, h)

  push_one-IsLast :
      (cap : ℕ) (all b : List A) (x : A)
      → IsLast cap all b
      → IsLast cap (all ++ (x ∷ [])) (pop_front cap (b ++ (x ∷ [])))
  push_one-IsLast cap all b x h =
      let p = pop_front-IsLast cap (b ++ (x ∷ [])) in
      record {
        gone = h.gone ++ p.gone;
        split =
            ap (λ ys. ys ++ (x ∷ [])) h.split
            ∙ append_assoc h.gone b (x ∷ [])
            ∙ ap (λ ys. h.gone ++ ys) p.split
            ∙ sym (append_assoc h.gone p.gone (pop_front cap (b ++ (x ∷ []))));
        at_most = p.at_most;
        no_less = elim p.no_less [
          | inr k ↦ inr k
          | inl g ↦ elim h.no_less [
            | inl g' ↦ inl (ap (λ ys. ys ++ p.gone) g' ∙ g)
            | inr k ↦
                elim (overfull cap b (pop_front cap (b ++ (x ∷ []))) p.gone x k g p.split
                  p.at_most) [ ]
          ]
        ];
      }

  pub push_back-IsLast :
      (cap : ℕ) (all b ts : List A) → IsLast cap all b → IsLast cap (all ++ ts) (push_back cap b ts)
  unfolding push_back
  push_back-IsLast cap all b [] h = subst (λ ys. IsLast cap ys b) (sym (append-nil all)) h
  push_back-IsLast cap all b (x ∷ ts) h =
      subst (λ ys. IsLast cap ys (push_back cap (pop_front cap (b ++ (x ∷ []))) ts))
        (append_assoc all (x ∷ []) ts)
        (push_back-IsLast cap (all ++ (x ∷ [])) (pop_front cap (b ++ (x ∷ []))) ts
          (push_one-IsLast cap all b x h))
