-- ===== src/Pipeline/Runs.antt =====
-- apps/live_pipeline.cpp: the loop over all its rounds.
use mathlib.Core.Path.{subst}
use prediction_market_arbitr.Base.{
  ℕ, ℤ, pos, ◌+◌, ◌*◌, ◌+ℤ◌, ◌≤ℤ◌, +ℤ_parts, pos_part, neg_part, leb_ℤ, Bool, refl, sym, ap, ◌∙◌,
  if_intro, List, [], ◌∷◌, ◌++◌, length, length-append, Option, none, some, arith,
}
use prediction_market_arbitr.Double.{Double}
use prediction_market_arbitr.Json.{Json}
use prediction_market_arbitr.Pipeline.Hot.{HotState}
use prediction_market_arbitr.Pipeline.Loop.{
  prefetch, find_target, after_target, roll_over, then_roll, round, with_hot, after_round, run,
}
use prediction_market_arbitr.Pipeline.Market.{Pipeline, RolloverRow, drop_stale}
use prediction_market_arbitr.Pipeline.Switches.{
  IsAligned, Linked, Linked-append, Went, stays, rolls, IfWent, stayed, Went-IsAligned, Went-Linked,
  Went-forward,
}
use prediction_market_arbitr.Quotes.Fixed.{FixedFeed}
use prediction_market_arbitr.Startup.Strikes.{Sources}
use prediction_market_arbitr.Pipeline.Rounds.{
  IsSamePlace, IfSame, prefetch-IfSame, drop_stale-IsSamePlace, find_target-IfAhead,
  after_target-IfWent,
}

added :
    (a b c : ℤ) (m n : ℕ)
    → a +ℤ pos (300 * m) ≤ℤ b
    → b +ℤ pos (300 * n) ≤ℤ c
    → a +ℤ pos (300 * (m + n)) ≤ℤ c
added a b c m n h k = omega (
  arith,
  h,
  k,
  +ℤ_parts a (pos (300 * m)),
  +ℤ_parts b (pos (300 * n)),
  +ℤ_parts a (pos (300 * (m + n))),
)

module _ {W : Type 0} where
  IsAligned-same : (p q : Pipeline W) → IsAligned p → IsSamePlace p q → IsAligned q
  IsAligned-same p q h s = ground (arith, h, s)

  -- A round from a state at the same place.
  Went-same :
      (p q p' : Pipeline W) (rows : List (RolloverRow W))
      → IsSamePlace p q
      → Went q p' rows
      → Went p p' rows
  Went-same p q p' rows s (stays h slug epoch) = stays h (slug ∙ s.same_slug) (epoch ∙ s.same_epoch)
  Went-same p q p' rows s (rolls row h) = rolls row (record {
    aligned = h.aligned;
    old_slug = h.old_slug ∙ s.same_slug;
    new_slug = h.new_slug;
    forward = subst (λ (n : ℤ). n +ℤ pos 300 ≤ℤ p'.active_epoch) s.same_epoch h.forward;
    old_up = h.old_up ∙ ap (λ (f : FixedFeed W). f.token_id) s.same_up;
    old_down = h.old_down ∙ ap (λ (f : FixedFeed W). f.token_id) s.same_down;
    new_up = h.new_up;
    new_down = h.new_down;
  })

  IfWent-same :
      {E : Type 0} (p q : Pipeline W) (r : Option (Pipeline W × List (RolloverRow W))) (e : E)
      → IsSamePlace p q
      → IfWent q (r, e)
      → IfWent p (r, e)
  IfWent-same p q none e s w = tt
  IfWent-same p q (some (p', rows)) e s w = Went-same p q p' rows s w

  next_begun : (p : Pipeline W) → IsAligned p → pos 0 ≤ℤ p.next_epoch
  next_begun p h =
      omega
        (arith, h.begun, ap pos_part h.next, ap neg_part h.next, +ℤ_parts p.active_epoch (pos 300))

  -- A history of rounds from `p`, with the rows that they write. Between them the callbacks change the
  -- hot state.
  pub data Trail (p : Pipeline W) : Pipeline W → List (RolloverRow W) → Type 0 where
    at_start : Trail p p []
    then_callbacks :
        {q : Pipeline W} {rows : List (RolloverRow W)} (change : HotState W → HotState W)
        → Trail p q rows
        → Trail p (record q { hot = change q.hot }) rows
    then_round :
        {q p' : Pipeline W} {rows more : List (RolloverRow W)}
        → Trail p q rows
        → Went q p' more
        → Trail p p' (rows ++ more)

  -- Where the rounds have gone from the market `p`.
  pub record Gone (p q : Pipeline W) (rows : List (RolloverRow W)) : Type 0 where
    pub there : IsAligned q
    pub chain : Linked p.current_slug rows q.current_slug
    pub ahead : p.active_epoch +ℤ pos (300 * length rows) ≤ℤ q.active_epoch
    pub trail : Trail p q rows

  abbrev pub IfGone :
      {E : Type 0} → Pipeline W → Option (Pipeline W × List (RolloverRow W)) × E → Type 0
  IfGone p (none, e) = Unit
  IfGone p (some (q, rows), e) = Gone p q rows

  Gone-Went :
      (p q p' : Pipeline W) (rows more : List (RolloverRow W))
      → Gone p q rows
      → Went q p' more
      → Gone p p' (rows ++ more)
  Gone-Went p q p' rows more g w = record {
    there = Went-IsAligned q p' more w;
    chain =
        Linked-append p.current_slug q.current_slug p'.current_slug rows more g.chain
          (Went-Linked q p' more w);
    ahead =
        subst (λ (n : ℕ). p.active_epoch +ℤ pos (300 * n) ≤ℤ p'.active_epoch)
          (sym (length-append rows more))
          (added p.active_epoch q.active_epoch p'.active_epoch (length rows) (length more) g.ahead
            (Went-forward q p' more w));
    trail = then_round g.trail w;
  }

module _ {W J E : Type 0} ⦃d : Double W⦄ (json : Json W J) (sources : Sources W E) where
  roll_over-IfWent :
      (web_first : Bool) (wall_s : ℕ) (p : Pipeline W) (e : E)
      → IsAligned p
      → IfWent p (roll_over json sources web_first wall_s p e)
  unfolding roll_over
  roll_over-IfWent web_first wall_s p e h =
      let p' = drop_stale wall_s p in
      let s = drop_stale-IsSamePlace wall_s p in
      let h' = IsAligned-same p p' h s in
      let t = find_target json sources web_first wall_s p'.next_epoch p'.prefetched e in
      if_intro (IfWent p) (leb_ℤ (p.active_epoch +ℤ pos 300) (pos wall_s)) _ (some (p, []), e)
        (λ _.
          IfWent-same p p' (after_target json sources p' t).0 (after_target json sources p' t).1 s (
            after_target-IfWent json sources p' t.0 t.1 h' (
              find_target-IfAhead json sources p' web_first wall_s p'.prefetched e
                (next_begun p' h'))))
        (λ _. stays h refl refl)

  then_roll-IfWent :
      (web_first : Bool) (wall_s : ℕ) (p : Pipeline W) (r : Option (Pipeline W)) (e : E)
      → IsAligned p
      → IfSame json sources p (r, e)
      → IfWent p (then_roll json sources web_first wall_s (r, e))
  then_roll-IfWent web_first wall_s p none e h s = tt
  then_roll-IfWent web_first wall_s p (some q) e h s =
      IfWent-same p q (roll_over json sources web_first wall_s q e).0
        (roll_over json sources web_first wall_s q e).1 s
        (roll_over-IfWent web_first wall_s q e (IsAligned-same p q h s))

  round-IfWent :
      (web_first : Bool) (now_ns : ℤ) (wall_s : ℕ) (p : Pipeline W) (e : E)
      → IsAligned p
      → IfWent p (round json sources web_first now_ns wall_s p e)
  unfolding round
  round-IfWent web_first now_ns wall_s p e h =
      then_roll-IfWent web_first wall_s p (prefetch json sources now_ns p e).0
        (prefetch json sources now_ns p e).1 h (prefetch-IfSame json sources now_ns p e)

  after_round-IfGone :
      (p q : Pipeline W) (rows : List (RolloverRow W))
      (next : Pipeline W
        → List (RolloverRow W)
        → E
        → Option (Pipeline W × List (RolloverRow W)) × E)
      (r : Option (Pipeline W × List (RolloverRow W)) × E)
      → Gone p q rows
      → IfWent q r
      → ((p' : Pipeline W) (more : List (RolloverRow W)) (e : E)
          → Gone p p' more
          → IfGone p (next p' more e))
      → IfGone p (after_round json sources rows next r)
  after_round-IfGone p q rows next (none, e) g w k = tt
  after_round-IfGone p q rows next (some (p', more), e) g w k =
      k p' (rows ++ more) e (Gone-Went p q p' rows more g w)

  run-IfGone :
      (web_first : Bool) (turns : List ((HotState W → HotState W) × ℤ × ℕ)) (p q : Pipeline W)
      (rows : List (RolloverRow W)) (e : E)
      → Gone p q rows
      → IfGone p (run json sources web_first turns q rows e)
  unfolding run
  run-IfGone web_first [] p q rows e g = g
  run-IfGone web_first ((change, now_ns, wall_s) ∷ turns) p q rows e g =
      let q' = with_hot json sources change q in
      let h : IsAligned q' = record {
        begun = g.there.begun;
        next = g.there.next;
        for_up = g.there.for_up;
        for_down = g.there.for_down;
      } in
      after_round-IfGone p q' rows (run json sources web_first turns)
        (round json sources web_first now_ns wall_s q' e)
        (record {
          there = h;
          chain = g.chain;
          ahead = g.ahead;
          trail = then_callbacks change g.trail;
        })
        (round-IfWent web_first now_ns wall_s q' e h)
        (λ p' more e' g'. run-IfGone web_first turns p p' more e' g')

  -- From a state whose feeds name its market, after every history of rounds, whatever the callbacks
  -- make of the hot state between them: both feeds name the market that the loop is at, the rows of the
  -- rollovers lead from the first slug to the present one, and each round either has stayed at its
  -- market and written no row, or has written one row and gone on by five minutes or more, from the
  -- row's old slug to its new one and with the two feeds from its old to its new tokens.
  pub run-Gone :
      (web_first : Bool) (turns : List ((HotState W → HotState W) × ℤ × ℕ)) (p : Pipeline W) (e : E)
      → IsAligned p
      → IfGone p (run json sources web_first turns p [] e)
  run-Gone web_first turns p e h =
      run-IfGone web_first turns p p [] e
        (record { there = h; chain = refl; ahead = stayed p.active_epoch; trail = at_start })
