-- ===== src/Runner/Entry.antt =====
-- When `schedule` orders a BUY.
use prediction_market_arbitr.Base.{
  ℤ, pos, ◌-ℤ◌, Bool, true, false, ◌||◌, List, [], ◌∷◌, ◌++◌, All, ◌≡◌, refl, ap, arith, ◌≤ℤ◌, ◌<ℤ◌,
  ◌⊎◌, inl, inr, Bool-cases,
}
use prediction_market_arbitr.Double.{Double}
use prediction_market_arbitr.Runner.Schedule.{
  Prices, arm, persisted, edge_up_raw, edge_dn_raw, arm_edges, choose_side, up_lasted, dn_lasted,
  entry_elapsed_ok, schedule_exit, schedule_entry, schedule, disarm,
}
use prediction_market_arbitr.Runner.State.{Config, HotState, Desk, Side, up, down, buy, minus_one}

module _ {A : Type 0} (raw : A → Bool) where
  -- One timer over a history of observations, the newest first.
  unfoldable pub arm_all : List (ℤ × A) → ℤ
  arm_all [] = minus_one
  arm_all ((now, a) ∷ older) = arm (raw a) now (arm_all older)

  abbrev pub Holds : ℤ × A → Type 0
  Holds o = raw o.1 ≡ true

  -- The edge has held at every observation back to one at `since`.
  pub record HeldSince (obs : List (ℤ × A)) (since : ℤ) : Type 0 where
    pub recent : List (ℤ × A)
    pub first : ℤ × A
    pub older : List (ℤ × A)
    pub split : obs ≡ recent ++ (first ∷ older)
    pub held : All Holds (recent ++ (first ∷ []))
    pub at_first : first.0 ≡ since

  abbrev NotBefore : ℤ × A → Type 0
  NotBefore o = pos 0 ≤ℤ o.0

  arm-fresh : (now : ℤ) (since : ℤ) → since ≡ minus_one → arm true now since ≡ now
  unfolding arm
  arm-fresh now since e = rw e refl

  arm-kept : (now since : ℤ) → pos 0 ≤ℤ since → arm true now since ≡ since
  unfolding arm
  arm-kept now since h = ground arith

  HeldSince-fresh :
      (now : ℤ) (a : A) (older : List (ℤ × A)) → raw a ≡ true → HeldSince ((now, a) ∷ older) now
  HeldSince-fresh now a older on = record {
    recent = [];
    first = (now, a);
    older = older;
    split = refl;
    held = (on, tt);
    at_first = refl;
  }

  HeldSince-cons :
      (o : ℤ × A) (obs : List (ℤ × A)) (since : ℤ)
      → raw o.1 ≡ true
      → HeldSince obs since
      → HeldSince (o ∷ obs) since
  HeldSince-cons o obs since on w = record {
    recent = o ∷ w.recent;
    first = w.first;
    older = w.older;
    split = ap (◌∷◌ o) w.split;
    held = (on, w.held);
    at_first = w.at_first;
  }

  pub arm_all-HeldSince :
      (obs : List (ℤ × A))
      → All NotBefore obs
      → (arm_all obs ≡ minus_one) ⊎ ((pos 0 ≤ℤ arm_all obs) × HeldSince obs (arm_all obs))
  unfolding arm_all
  arm_all-HeldSince [] h = inl refl
  arm_all-HeldSince ((now, a) ∷ older) (h, hs) = elim (Bool-cases (raw a)) [
    | inr off ↦ inl (unfold arm in rw off refl)
    | inl on ↦ elim (arm_all-HeldSince older hs) [
      | inl e ↦ inr (rw (on, arm-fresh now (arm_all older) e) (h, HeldSince-fresh now a older on))
      | inr (nn, w) ↦ inr (
          rw (on, arm-kept now (arm_all older) nn)
            (nn, HeldSince-cons (now, a) older (arm_all older) on w))
    ]
  ]

  -- A timer that has lasted `persist` at its newest observation saw the edge hold that long.
  pub persisted-HeldSince :
      (persist now : ℤ) (a : A) (older : List (ℤ × A))
      → pos 0 <ℤ persist
      → All NotBefore ((now, a) ∷ older)
      → persisted (raw a) persist now (arm_all ((now, a) ∷ older)) ≡ true
      → (since : ℤ) × (persist ≤ℤ now -ℤ since) × HeldSince ((now, a) ∷ older) since
  persisted-HeldSince persist now a older p h lasted =
      elim (arm_all-HeldSince ((now, a) ∷ older) h) [
        | inl e ↦ absurd (unfold persisted arm_all arm in ground (arith, h.0))
        | inr (nn, w) ↦ (arm_all ((now, a) ∷ older), unfold persisted in ground arith, w)
      ]

nonpositive_or : (n : ℤ) → (n ≤ℤ pos 0) ⊎ (pos 0 <ℤ n)
nonpositive_or n = ground arith

module _ {W : Type 0} ⦃d : Double W⦄ where
  -- The entry edge of one outcome.
  abbrev pub edge_of : Config W → Side → Prices W → Bool
  edge_of c up q = edge_up_raw c q
  edge_of c _ q = edge_dn_raw c q

  -- The two timers stand as a history of observations leaves them.
  abbrev pub Watched : Config W → List (ℤ × Prices W) → HotState W → Type 0
  Watched c obs h =
      (h.edge_up_ok_since_mono_ns ≡ arm_all (edge_up_raw c) obs)
      × (h.edge_dn_ok_since_mono_ns ≡ arm_all (edge_dn_raw c) obs)

  disarm-Watched : (c : Config W) (h : HotState W) → Watched c [] (disarm h)
  unfolding arm_all
  disarm-Watched c h = (refl, refl)

  arm_edges-Watched :
      (c : Config W) (now : ℤ) (q : Prices W) (older : List (ℤ × Prices W)) (h : HotState W)
      → Watched c older h
      → Watched c ((now, q) ∷ older) (arm_edges c now q h)
  unfolding arm_all arm_edges
  arm_edges-Watched c now q older h (e, f) =
      (ap (arm (edge_up_raw c q) now) e, ap (arm (edge_dn_raw c q) now) f)

  -- The edge of the outcome that is ordered has lasted, as the armed timers say.
  abbrev pub Lasted : Config W → ℤ → Prices W → HotState W → Side → Type 0
  Lasted c now q h side =
      ((side ≡ up) × (up_lasted c now q (arm_edges c now q h) ≡ true))
      ⊎ ((side ≡ down) × (dn_lasted c now q (arm_edges c now q h) ≡ true))

  choose_side-Lasted :
      (c : Config W) (now : ℤ) (q : Prices W) (h : HotState W) (a b : Bool)
      → up_lasted c now q (arm_edges c now q h) ≡ a
      → dn_lasted c now q (arm_edges c now q h) ≡ b
      → (a || b) ≡ true
      → Lasted c now q h (choose_side q a b)
  unfolding choose_side
  choose_side-Lasted c now q h a b ea eb on = ground arith

  pub schedule_entry-Lasted :
      (c : Config W) (now : ℤ) (q : Prices W) (s : Desk W)
      → s.paper.pending ≡ false
      → (schedule_entry c now q s).paper.pending ≡ true
      → (entry_elapsed_ok c (arm_edges c now q s.hot) ≡ true)
        × Lasted c now q s.hot (schedule_entry c now q s).paper.pending_side
  unfolding schedule_entry
  schedule_entry-Lasted c now q s idle ordered = ground (
    arith,
    choose_side-Lasted c now q s.hot (up_lasted c now q (arm_edges c now q s.hot))
        (dn_lasted c now q (arm_edges c now q s.hot)),
  )

  -- A BUY is ordered only on a flat, enabled desk that no loss cap has stopped, in the entry window.
  pub schedule_entry_of_buy :
      (c : Config W) (now : ℤ) (q : Prices W) (s : Desk W)
      → s.paper.pending ≡ false
      → (schedule c now q s).paper.pending ≡ true
      → (schedule c now q s).paper.pending_action ≡ buy
      → (s.paper.risk_stop ≡ false)
        × (s.paper.have_pos ≡ false)
        × (s.trading_enabled ≡ true)
        × (schedule c now q s ≡ schedule_entry c now q s)
  unfolding schedule schedule_exit
  schedule_entry_of_buy c now q s idle ordered bought = ground arith

  up_lasted-HeldSince :
      (c : Config W) (now : ℤ) (q : Prices W) (older : List (ℤ × Prices W)) (h : HotState W)
      → pos 0 <ℤ c.edge_persist_ns
      → All (λ o. pos 0 ≤ℤ o.0) ((now, q) ∷ older)
      → h.edge_up_ok_since_mono_ns ≡ arm_all (edge_up_raw c) older
      → up_lasted c now q (arm_edges c now q h) ≡ true
      → (since : ℤ) × (c.edge_persist_ns ≤ℤ now -ℤ since)
        × HeldSince (edge_up_raw c) ((now, q) ∷ older) since
  unfolding up_lasted arm_edges arm_all
  up_lasted-HeldSince c now q older h p times e lasted =
      persisted-HeldSince (edge_up_raw c) c.edge_persist_ns now q older p times (rw e at lasted)

  dn_lasted-HeldSince :
      (c : Config W) (now : ℤ) (q : Prices W) (older : List (ℤ × Prices W)) (h : HotState W)
      → pos 0 <ℤ c.edge_persist_ns
      → All (λ o. pos 0 ≤ℤ o.0) ((now, q) ∷ older)
      → h.edge_dn_ok_since_mono_ns ≡ arm_all (edge_dn_raw c) older
      → dn_lasted c now q (arm_edges c now q h) ≡ true
      → (since : ℤ) × (c.edge_persist_ns ≤ℤ now -ℤ since)
        × HeldSince (edge_dn_raw c) ((now, q) ∷ older) since
  unfolding dn_lasted arm_edges arm_all
  dn_lasted-HeldSince c now q older h p times e lasted =
      persisted-HeldSince (edge_dn_raw c) c.edge_persist_ns now q older p times (rw e at lasted)

  Lasted-edge_of :
      (c : Config W) (now : ℤ) (q : Prices W) (h : HotState W) (side : Side)
      → Lasted c now q h side
      → edge_of c side q ≡ true
  unfolding up_lasted dn_lasted persisted
  Lasted-edge_of c now q h side (inl (e, l)) = rw e (ground (arith, l))
  Lasted-edge_of c now q h side (inr (e, l)) = rw e (ground (arith, l))

  Lasted-HeldSince :
      (c : Config W) (now : ℤ) (q : Prices W) (older : List (ℤ × Prices W)) (h : HotState W)
      (side : Side)
      → pos 0 <ℤ c.edge_persist_ns
      → All (λ o. pos 0 ≤ℤ o.0) ((now, q) ∷ older)
      → Watched c older h
      → Lasted c now q h side
      → (since : ℤ) × (c.edge_persist_ns ≤ℤ now -ℤ since)
        × HeldSince (edge_of c side) ((now, q) ∷ older) since
  Lasted-HeldSince c now q older h side p times (wu, wd) (inl (e, l)) =
      rw e (up_lasted-HeldSince c now q older h p times wu l)
  Lasted-HeldSince c now q older h side p times (wu, wd) (inr (e, l)) =
      rw e (dn_lasted-HeldSince c now q older h p times wd l)

  -- `schedule` orders a BUY only on a flat, enabled desk that no loss cap has stopped, inside the
  -- entry window, and while the outcome that is ordered has its entry edge; and the persistence is
  -- off, or that edge has held at every observation since one that is at least `edge_persist_ns` old.
  -- The timers are taken to stand as a history of observations at nonnegative times leaves them, and no
  -- order to pend.
  pub schedule-HeldSince :
      (c : Config W) (now : ℤ) (q : Prices W) (older : List (ℤ × Prices W)) (s : Desk W)
      → All (λ o. pos 0 ≤ℤ o.0) ((now, q) ∷ older)
      → Watched c older s.hot
      → s.paper.pending ≡ false
      → (schedule c now q s).paper.pending ≡ true
      → (schedule c now q s).paper.pending_action ≡ buy
      → ((s.paper.risk_stop ≡ false)
          × (s.paper.have_pos ≡ false)
          × (s.trading_enabled ≡ true)
          × (entry_elapsed_ok c s.hot ≡ true)
          × (edge_of c (schedule c now q s).paper.pending_side q ≡ true))
        × ((c.edge_persist_ns ≤ℤ pos 0)
            ⊎ ((since : ℤ) × (c.edge_persist_ns ≤ℤ now -ℤ since)
                × HeldSince
                    (edge_of c (schedule c now q s).paper.pending_side)
                    ((now, q) ∷ older)
                    since))
  schedule-HeldSince c now q older s times w idle ordered bought =
      let (free, flat, enabled, same) = schedule_entry_of_buy c now q s idle ordered bought in
      let (window, chosen) = schedule_entry-Lasted c now q s idle (rw same at ordered) in
      (
        (
          free,
          flat,
          enabled,
          rw (← elapsed) window,
          rw same
              (Lasted-edge_of c now q s.hot (schedule_entry c now q s).paper.pending_side chosen),
        ),
        elim (nonpositive_or c.edge_persist_ns) [
          | inl off ↦ inl off
          | inr p ↦ inr (
              rw same (
                Lasted-HeldSince c now q older s.hot (schedule_entry c now q s).paper.pending_side p
                  times w chosen))
        ],
      )
    where
      elapsed : entry_elapsed_ok c (arm_edges c now q s.hot) ≡ entry_elapsed_ok c s.hot
      elapsed = unfold entry_elapsed_ok arm_edges in refl
