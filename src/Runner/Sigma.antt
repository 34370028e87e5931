-- ===== src/Runner/Sigma.antt =====
-- Proofs about the bucket's volatility and its clamps.
use prediction_market_arbitr.Base.{
  ℤ, true, false, not, ◌&&◌, ◌≡◌, refl, arith, ◌⊎◌, inl, inr, if_intro, List, [], ◌∷◌, none, some,
  Option, ltb, length,
}
use prediction_market_arbitr.Double.{Double, ◌≼◌, IsOrdered}
use prediction_market_arbitr.Json.{Json}
use prediction_market_arbitr.Runner.Book.{Feeds, book_buy, book_sell}
use prediction_market_arbitr.Runner.Bounds.{clamp_sigma_bounds}
use prediction_market_arbitr.Runner.Events.{Event, quoted, rolled, spotted, consume, run}
use prediction_market_arbitr.Runner.Execute.{paper_buy}
use prediction_market_arbitr.Runner.Outcome.{execute_due-Outcome}
use prediction_market_arbitr.Runner.Outcomes.{
  Outcome, stays, drops, paper_buys, live_buys, sells, vanishes,
}
use prediction_market_arbitr.Runner.Pricing.{is_ready}
use prediction_market_arbitr.Runner.Rollover.{
  PolymarketWsQuote, on_hot_update, on_quote, note_quote, rollover, enter_bucket, reset_hot,
  prices_of,
}
use prediction_market_arbitr.Runner.Schedule.{
  Prices, schedule, schedule_entry, schedule_exit, arm_edges,
}
use prediction_market_arbitr.Runner.Spot.{
  note_spot, accept_sigma, rolling_sigma, snapshot_sigma, bucket_sigma, on_spot, set_sigma,
  drop_sigma, take_sigma, sigma_of_mids, full_hour, anchor_ms, in_bucket, is_constant, is_rolling,
}
use prediction_market_arbitr.Runner.State.{Config, HotState, Desk}
use prediction_market_arbitr.Runner.Volatility.{resample_mids_from_hist}
use prediction_market_arbitr.Runner.Venue.{Venue}

module _ {W : Type 0} ⦃d : Double W⦄ where
  -- There is no volatility for the bucket, or it lies between the clamps.
  abbrev pub IsClamped : Config W → HotState W → Type 0
  IsClamped c h =
      (h.have_sigma ≡ false)
      ⊎ ((c.sigma_clamp_min ≼ h.sigma_bucket) × (h.sigma_bucket ≼ c.sigma_clamp_max))

module _ {W J E : Type 0} ⦃d : Double W⦄ ⦃json : Json W J⦄ {v : Venue W J E} where
  Outcome-hot :
      {c : Config W} {f : Feeds} {now : ℤ} {s t : Desk W} {e : E}
      → Outcome v c f now s e t
      → t.hot ≡ s.hot
  unfolding paper_buy book_buy book_sell
  Outcome-hot stays = refl
  Outcome-hot (drops p k) = refl
  Outcome-hot (paper_buys due ok paper) = refl
  Outcome-hot (live_buys due ok live fill filled) = refl
  Outcome-hot (sells due held proceeds fee sale) = refl
  Outcome-hot (vanishes due held live stop balance told finite none_left) = refl

module _ {W : Type 0} ⦃d : Double W⦄ where
  note_quote-IsClamped :
      (c : Config W) (q : PolymarketWsQuote W) (h : HotState W)
      → IsClamped c h
      → IsClamped c (note_quote q h)
  unfolding note_quote
  note_quote-IsClamped c q h k = ground arith

  schedule-IsClamped :
      (c : Config W) (now : ℤ) (q : Prices W) (s : Desk W)
      → IsClamped c s.hot
      → IsClamped c (schedule c now q s).hot
  unfolding schedule schedule_entry schedule_exit arm_edges
  schedule-IsClamped c now q s h = ground arith

module _ {W J E : Type 0} ⦃d : Double W⦄ ⦃json : Json W J⦄ (laws : IsOrdered W) (v : Venue W J E)
    (c : Config W) (clamps : c.sigma_clamp_min ≼ c.sigma_clamp_max) where
  set_sigma-IsClamped : (sig : W) (h : HotState W) → IsClamped c (set_sigma c sig h)
  set_sigma-IsClamped sig h =
      inr (clamp_sigma_bounds laws sig c.sigma_clamp_min c.sigma_clamp_max clamps)

  accept_sigma-IsClamped : (sig : W) (h : HotState W) → IsClamped c (accept_sigma c sig h)
  unfolding accept_sigma
  accept_sigma-IsClamped sig h =
      if_intro (IsClamped c) _ _ _ (λ _. set_sigma-IsClamped sig h) (λ _. inl refl)

  sigma_of_mids-IsClamped :
      (mids : List W) (h : HotState W) (e : E) → IsClamped c (sigma_of_mids v c mids h e).0
  unfolding sigma_of_mids
  sigma_of_mids-IsClamped [] h e = inl refl
  sigma_of_mids-IsClamped (m ∷ ms) h e = accept_sigma-IsClamped _ h

  take_sigma-IsClamped :
      (o : Option W) (h : HotState W) → IsClamped c h → IsClamped c (take_sigma c o h)
  unfolding take_sigma
  take_sigma-IsClamped none h k = k
  take_sigma-IsClamped (some sig) h k = set_sigma-IsClamped sig h

  snapshot_sigma-IsClamped :
      (wall : ℤ) (h : HotState W) (e : E) → IsClamped c (snapshot_sigma v c wall h e).0
  unfolding snapshot_sigma
  snapshot_sigma-IsClamped wall h e =
      if_intro (λ (r : HotState W × E). IsClamped c r.0)
        (not (full_hour (anchor_ms c wall h) h.bin_hist)) (drop_sigma h, e)
        (sigma_of_mids v c (resample_mids_from_hist h.bin_hist (anchor_ms c wall h) c.sigma_step_ms)
          (record h { sigma_vol_window_full = true }) e)
        (λ _. inl refl) (λ _. sigma_of_mids-IsClamped _ _ e)

  bucket_sigma-IsClamped :
      (wall : ℤ) (h : HotState W) (e : E)
      → IsClamped c h
      → IsClamped c (bucket_sigma v c wall h e).0
  unfolding bucket_sigma
  bucket_sigma-IsClamped wall h e k =
      let P = λ (r : HotState W × E). IsClamped c r.0 in
      if_intro P (is_constant c.sigma_vol_mode && in_bucket wall h)
        (set_sigma c c.sigma_fallback h, e) _ (λ _. set_sigma-IsClamped c.sigma_fallback h)
        λ _.
          if_intro P (in_bucket wall h && not h.have_sigma) (snapshot_sigma v c wall h e) (h, e)
            (λ _. snapshot_sigma-IsClamped wall h e) (λ _. k)

  rolling_sigma-IsClamped :
      (wall : ℤ) (h : HotState W) → IsClamped c h → IsClamped c (rolling_sigma c wall h)
  unfolding rolling_sigma
  rolling_sigma-IsClamped wall h k =
      let mids = resample_mids_from_hist h.bin_hist wall c.sigma_step_ms in
      let full : HotState W = record h { sigma_vol_window_full = true } in
      if_intro (IsClamped c) (not (is_rolling c.sigma_vol_mode)) h _ (λ _. k)
        λ _.
          if_intro (IsClamped c) (not (in_bucket wall h && full_hour wall h.bin_hist)) h _ (λ _. k)
            λ _.
              if_intro (IsClamped c) (ltb (length mids) 10) full _ (λ _. k)
                λ _. take_sigma-IsClamped _ full k

  on_hot_update-IsClamped :
      (f : Feeds) (s : Desk W) (e : E)
      → IsClamped c s.hot
      → IsClamped c (on_hot_update v c f s e).0.hot
  unfolding on_hot_update
  on_hot_update-IsClamped f s e k =
      let P = λ (r : Desk W × E). IsClamped c r.0.hot in
      let later = v.steady_ns (v.steady_ns e).1 in
      let planned = schedule c (v.steady_ns e).0 (prices_of c s.hot) s in
      let k' = schedule-IsClamped c (v.steady_ns e).0 (prices_of c s.hot) s k in
      if_intro P (not (is_ready s.hot)) (s, e) _ (λ _. k)
        λ _.
          if_intro P (not s.trading_enabled) (s, e) _ (λ _. k)
            λ _.
              if_intro P (not planned.paper.pending) _ _ (λ _. k')
                λ _. rw (Outcome-hot (execute_due-Outcome v c f later.0 planned later.1)) k'

  consume-IsClamped :
      (f : Feeds) (ev : Event W) (s : Desk W) (e : E)
      → IsClamped c s.hot
      → IsClamped c (consume v c f ev s e).0.hot
  unfolding consume on_quote on_spot rollover enter_bucket reset_hot note_spot
  consume-IsClamped f (quoted q) s e k =
      on_hot_update-IsClamped f _ e (note_quote-IsClamped c q s.hot k)
  consume-IsClamped f (rolled ev) s e k = inl refl
  consume-IsClamped f (spotted tick) s e k =
      on_hot_update-IsClamped f _ _ (rolling_sigma-IsClamped _ _ (bucket_sigma-IsClamped _ _ _ k))

  -- Through every history of quotes, rollovers and spot prices, and whatever volatility is forecast,
  -- the bucket's volatility, if there is one, lies between the two clamps, which stand in order.
  pub run-IsClamped :
      (evs : List (Feeds × Event W)) (s : Desk W) (e : E)
      → IsClamped c s.hot
      → IsClamped c (run v c evs s e).0.hot
  unfolding run
  run-IsClamped [] s e k = k
  run-IsClamped ((f, ev) ∷ evs) s e k = run-IsClamped evs _ _ (consume-IsClamped f ev s e k)
