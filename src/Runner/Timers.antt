-- ===== src/Runner/Timers.antt =====
-- The two edge timers of `schedule`, told by the history of what it has observed.
use prediction_market_arbitr.Base.{
  ℤ, pos, Bool, true, false, not, ◌||◌, if◌then◌else◌, List, [], ◌∷◌, ◌++◌, All, ◌≡◌, refl, ap,
  arith, ◌≤ℤ◌, ◌⊎◌, inl, inr, Bool-cases,
}
use prediction_market_arbitr.Double.{Double}
use prediction_market_arbitr.Runner.Schedule.{
  Prices, arm, edge_up_raw, edge_dn_raw, arm_edges, schedule_exit, schedule_entry, schedule, disarm,
}
use prediction_market_arbitr.Runner.State.{Config, HotState, Desk, minus_one}

module _ {A : Type 0} (raw : A → Bool) where
  -- The newest observation, if there is one, has no edge.
  abbrev pub Lacks : List (ℤ × A) → Type 0
  Lacks [] = Unit
  Lacks (o ∷ older) = raw o.1 ≡ false

  -- The edge has held from the observation at `since` on, and not at the one before that.
  pub record IsSince (obs : List (ℤ × A)) (since : ℤ) : Type 0 where
    pub recent : List (ℤ × A)
    pub first : ℤ × A
    pub older : List (ℤ × A)
    pub split : obs ≡ recent ++ (first ∷ older)
    pub held : All (λ (o : ℤ × A). raw o.1 ≡ true) (recent ++ (first ∷ []))
    pub begun : Lacks older
    pub at_first : first.0 ≡ since
    pub dated : pos 0 ≤ℤ since

  -- What a timer tells of the observations, the newest first.
  abbrev pub IsTimer : List (ℤ × A) → ℤ → Type 0
  IsTimer obs since = (Lacks obs × (since ≡ minus_one)) ⊎ IsSince obs since

  arm-IsTimer :
      (now : ℤ) (a : A) (older : List (ℤ × A)) (since : ℤ)
      → pos 0 ≤ℤ now
      → IsTimer older since
      → IsTimer ((now, a) ∷ older) (arm (raw a) now since)
  unfolding arm
  arm-IsTimer now a older since h t = elim (Bool-cases (raw a)) [
    | inr off ↦ inl (off, rw off refl)
    | inl on ↦ elim t [
      | inl (lacks, e) ↦ inr (record {
        recent = [];
        first = (now, a);
        older = older;
        split = refl;
        held = (on, tt);
        begun = lacks;
        at_first = rw (on, e) refl;
        dated = rw (on, e) h;
      })
      | inr w ↦ inr (record {
        recent = (now, a) ∷ w.recent;
        first = w.first;
        older = w.older;
        split = ap (◌∷◌ (now, a)) w.split;
        held = (on, w.held);
        begun = w.begun;
        at_first = ground (arith, on, w.at_first, w.dated);
        dated = ground (arith, on, w.dated);
      })
    ]
  ]

module _ {W : Type 0} ⦃d : Double W⦄ where
  -- What `schedule` has observed since it last cleared the timers: a desk that waits for an order or is
  -- stopped observes nothing, and one that may not buy begins anew.
  abbrev pub observed : ℤ × Prices W → Desk W → List (ℤ × Prices W) → List (ℤ × Prices W)
  observed o s older =
      if s.paper.pending || s.paper.risk_stop
      then older
      else if s.paper.have_pos || not s.trading_enabled
      then []
      else o ∷ older

  abbrev pub AreTimers : Config W → List (ℤ × Prices W) → HotState W → Type 0
  AreTimers c obs h =
      IsTimer (edge_up_raw c) obs h.edge_up_ok_since_mono_ns
      × IsTimer (edge_dn_raw c) obs h.edge_dn_ok_since_mono_ns

  arm_edges-AreTimers :
      (c : Config W) (now : ℤ) (q : Prices W) (older : List (ℤ × Prices W)) (h : HotState W)
      → pos 0 ≤ℤ now
      → AreTimers c older h
      → AreTimers c ((now, q) ∷ older) (arm_edges c now q h)
  unfolding arm_edges
  arm_edges-AreTimers c now q older h k (up, down) = (
    arm-IsTimer (edge_up_raw c) now q older _ k up,
    arm-IsTimer (edge_dn_raw c) now q older _ k down,
  )

  disarmed : (c : Config W) (h : HotState W) → AreTimers c [] (disarm h)
  disarmed c h = (inl (tt, refl), inl (tt, refl))

  entry-AreTimers :
      (c : Config W) (now : ℤ) (q : Prices W) (obs : List (ℤ × Prices W)) (s : Desk W)
      → AreTimers c obs (arm_edges c now q s.hot)
      → AreTimers c obs (schedule_entry c now q s).hot
  unfolding schedule_entry
  entry-AreTimers c now q obs s h = ground (arith, h)

  exit-AreTimers :
      (c : Config W) (now : ℤ) (q : Prices W) (s : Desk W)
      → AreTimers c [] (schedule_exit c now q s).hot
  unfolding schedule_exit
  exit-AreTimers c now q s = ground (arith, disarmed c s.hot)

  -- Every call of `schedule`, on any desk, leaves each timer at the time since which its edge has held
  -- without a break at the calls observed since the timers were last cleared, or at -1 if the edge did
  -- not hold at the last of these or there is none, if the timers stood so before. The call's time is
  -- not negative. A call with an order pending or on a stopped desk is not observed, and one with a
  -- position or with trading disabled clears the timers.
  pub schedule-AreTimers :
      (c : Config W) (now : ℤ) (q : Prices W) (older : List (ℤ × Prices W)) (s : Desk W)
      → pos 0 ≤ℤ now
      → AreTimers c older s.hot
      → AreTimers c (observed (now, q) s older) (schedule c now q s).hot
  unfolding schedule
  schedule-AreTimers c now q older s k h = ground (
    arith,
    h,
    disarmed c s.hot,
    exit-AreTimers c now q s,
    entry-AreTimers c now q ((now, q) ∷ older) s (arm_edges-AreTimers c now q older s.hot k h),
  )
