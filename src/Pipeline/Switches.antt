-- ===== src/Pipeline/Switches.antt =====
-- apps/live_pipeline.cpp: the markets that the recorder goes through.
use mathlib.Core.Path.{subst}
use prediction_market_arbitr.Base.{
  ℤ, pos, ◌*◌, ◌+ℤ◌, ◌≤ℤ◌, +ℤ_parts, pos_part, neg_part, true, not, ◌≡◌, refl, sym, ap, if_intro,
  List, [], ◌∷◌, ◌++◌, length, Option, none, some, arith,
}
use prediction_market_arbitr.Buckets.Slug.{Text}
use prediction_market_arbitr.Double.{Double}
use prediction_market_arbitr.Pipeline.Market.{
  Pipeline, RolloverRow, Target, row_of, is_complete, entered, switch_market,
}
use prediction_market_arbitr.Quotes.Contexts.{
  IsFor, set_market_context-IsFor, switch_token-IsFor, token-switch_token,
}
use prediction_market_arbitr.Quotes.Fixed.{FixedFeed, switch_token, set_market_context}
use prediction_market_arbitr.Runner.State.{up, down}

pub stayed : (n : ℤ) → n +ℤ pos (300 * 0) ≤ℤ n
stayed n = omega (arith, +ℤ_parts n (pos (300 * 0)))

module _ {W : Type 0} where
  -- Both feeds name the market that the loop is at, and the next market follows it.
  pub record IsAligned (p : Pipeline W) : Type 0 where
    pub begun : pos 0 ≤ℤ p.active_epoch
    pub next : p.next_epoch ≡ p.active_epoch +ℤ pos 300
    pub for_up : IsFor p.current_slug p.active_epoch up p.feed_up
    pub for_down : IsFor p.current_slug p.active_epoch down p.feed_down

  -- The rows of the rollovers lead from one slug to another.
  abbrev pub Linked : Text → List (RolloverRow W) → Text → Type 0
  Linked from [] to = to ≡ from
  Linked from (row ∷ rows) to = (row.old_slug ≡ from) × Linked row.new_slug rows to

  pub Linked-append :
      (from mid to : Text) (rows more : List (RolloverRow W))
      → Linked from rows mid
      → Linked mid more to
      → Linked from (rows ++ more) to
  Linked-append from mid to [] more h k = subst (λ (s : Text). Linked s more to) h k
  Linked-append from mid to (row ∷ rows) more h k =
      (h.0, Linked-append row.new_slug mid to rows more h.1 k)

  -- The rollover that this row tells of: from the market of `p` to that of `p'`, five minutes or more
  -- later, with each feed from the old token of its side to the new one.
  pub record IsRoll (p p' : Pipeline W) (row : RolloverRow W) : Type 0 where
    pub aligned : IsAligned p'
    pub old_slug : row.old_slug ≡ p.current_slug
    pub new_slug : p'.current_slug ≡ row.new_slug
    pub forward : p.active_epoch +ℤ pos 300 ≤ℤ p'.active_epoch
    pub old_up : row.old_up ≡ p.feed_up.token_id
    pub old_down : row.old_down ≡ p.feed_down.token_id
    pub new_up : p'.feed_up.token_id ≡ row.new_up
    pub new_down : p'.feed_down.token_id ≡ row.new_down

  -- What a round does, with the rows that it writes: it stays at the market, or it rolls over.
  pub data Went (p p' : Pipeline W) : List (RolloverRow W) → Type 0 where
    stays :
        IsAligned p'
        → p'.current_slug ≡ p.current_slug
        → p'.active_epoch ≡ p.active_epoch
        → Went p p' []
    rolls : (row : RolloverRow W) → IsRoll p p' row → Went p p' (row ∷ [])

  pub Went-IsAligned :
      (p p' : Pipeline W) (rows : List (RolloverRow W)) → Went p p' rows → IsAligned p'
  Went-IsAligned p p' rows (stays h s a) = h
  Went-IsAligned p p' rows (rolls row h) = h.aligned

  pub Went-Linked :
      (p p' : Pipeline W) (rows : List (RolloverRow W))
      → Went p p' rows
      → Linked p.current_slug rows p'.current_slug
  Went-Linked p p' rows (stays h s a) = s
  Went-Linked p p' rows (rolls row h) = (h.old_slug, h.new_slug)

  pub Went-forward :
      (p p' : Pipeline W) (rows : List (RolloverRow W))
      → Went p p' rows
      → p.active_epoch +ℤ pos (300 * length rows) ≤ℤ p'.active_epoch
  Went-forward p p' rows (stays h s a) =
      subst (λ (n : ℤ). p.active_epoch +ℤ pos (300 * 0) ≤ℤ n) (sym a) (stayed p.active_epoch)
  Went-forward p p' rows (rolls row h) = h.forward

  abbrev pub IfWent :
      {E : Type 0} → Pipeline W → Option (Pipeline W × List (RolloverRow W)) × E → Type 0
  IfWent p (none, e) = Unit
  IfWent p (some (p', rows), e) = Went p p' rows

module _ {W : Type 0} ⦃d : Double W⦄ where
  -- A target that is not before the next bucket, or that is not complete.
  abbrev pub IsAhead : Pipeline W → Target W → Type 0
  IsAhead p t = is_complete t ≡ true → p.next_epoch ≤ℤ t.target_epoch

  gone_on :
      (p : Pipeline W) (n : ℤ) → IsAligned p → p.next_epoch ≤ℤ n → p.active_epoch +ℤ pos 300 ≤ℤ n
  gone_on p n h k = subst (λ (m : ℤ). m ≤ℤ n) h.next k

  begun_after : (p : Pipeline W) (n : ℤ) → IsAligned p → p.next_epoch ≤ℤ n → pos 0 ≤ℤ n
  begun_after p n h k =
      omega (
        arith,
        h.begun,
        k,
        ap pos_part h.next,
        ap neg_part h.next,
        +ℤ_parts p.active_epoch (pos 300),
      )

  entered-Went :
      (t : Target W) (p : Pipeline W) (u w : FixedFeed W)
      → IsAligned p
      → p.next_epoch ≤ℤ t.target_epoch
      → u.token_id ≡ t.target_up
      → w.token_id ≡ t.target_down
      → Went p (entered t (record p { feed_up = u; feed_down = w })) (row_of p t ∷ [])
  unfolding set_market_context
  entered-Went t p u w h k a b = rolls (row_of p t) (record {
    aligned = record {
      begun = begun_after p t.target_epoch h k;
      next = refl;
      for_up = set_market_context-IsFor t.target_slug t.target_epoch up u;
      for_down = set_market_context-IsFor t.target_slug t.target_epoch down w;
    };
    old_slug = refl;
    new_slug = refl;
    forward = gone_on p t.target_epoch h k;
    old_up = refl;
    old_down = refl;
    new_up = a;
    new_down = b;
  })

  half_switched :
      (p : Pipeline W) (u w : FixedFeed W)
      → IsAligned p
      → IsFor p.current_slug p.active_epoch up u
      → IsFor p.current_slug p.active_epoch down w
      → Went p (record p { feed_up = u; feed_down = w }) []
  half_switched p u w h a b =
      stays (record { begun = h.begun; next = h.next; for_up = a; for_down = b }) refl refl

  pub switch_market-Went :
      (t : Target W) (p : Pipeline W)
      → IsAligned p
      → IsAhead p t
      → Went p (switch_market t p).0 (switch_market t p).1
  unfolding switch_market
  switch_market-Went t p h k =
      let P = λ (r : Pipeline W × List (RolloverRow W)). Went p r.0 r.1 in
      let u = switch_token t.target_up p.feed_up in
      let w = switch_token t.target_down p.feed_down in
      let a = switch_token-IsFor p.current_slug p.active_epoch up p.feed_up h.for_up t.target_up in
      let b =
        switch_token-IsFor p.current_slug p.active_epoch down p.feed_down h.for_down
          t.target_down in
      if_intro P (not (is_complete t)) _ _ (λ _. stays h refl refl)
        λ c.
          if_intro P (not u.1) _ _ (λ _. half_switched p u.0 p.feed_down h a h.for_down)
            λ x.
              if_intro P (not w.1) _ _ (λ _. half_switched p u.0 w.0 h a b)
                λ y.
                  entered-Went t p u.0 w.0 h (k (ground (arith, c)))
                    (token-switch_token t.target_up p.feed_up (ground (arith, x)))
                    (token-switch_token t.target_down p.feed_down (ground (arith, y)))
