-- ===== src/Chainlink/Selection.antt =====
-- src/polymarket/rtds_chainlink_feed.cpp: `TickSel`, the choice of the tick that gives the strike, and
-- the wait for it. A `best_*` is `none` while its `have_*` is false.
use prediction_market_arbitr.Base.{
  ℕ, ℤ, pos, ◌-ℤ◌, abs, leb_ℤ, ltb_ℤ, ltb, Bool, true, false, if◌then◌else◌, ◌&&◌, List, [], ◌∷◌,
  Option, none, some,
}
use prediction_market_arbitr.Chainlink.Ticks.{Tick}

-- How a strike was chosen.
pub data Pick : Type 0 where
  after before nearest : Pick

-- A tick that is chosen if it is eligible and better than the one chosen so far.
abbrev pub choose :
    {T : Type 0} → (eligible : T → Bool) (better : T → T → Bool) → T → Option T → Option T
choose eligible better t none = if eligible t then some t else none
choose eligible better t (some b) = if eligible t && better t b then some t else some b

pub record TickSel (W : Type 0) : Type 0 where
  pub best_before : Option (Tick W)
  pub best_after : Option (Tick W)
  pub best_any : Option (Tick W)

module _ {W : Type 0} where
  abbrev pub no_ticks : TickSel W
  no_ticks = record { best_before = none; best_after = none; best_any = none }

  module _ (target_ms max_skew_ms : ℤ) where
    abbrev pub skew : Tick W → ℕ
    skew t = abs (t.0 -ℤ target_ms)

    abbrev pub is_before : Tick W → Bool
    is_before t = leb_ℤ t.0 target_ms && leb_ℤ (target_ms -ℤ t.0) max_skew_ms

    abbrev pub is_after : Tick W → Bool
    is_after t = leb_ℤ target_ms t.0 && leb_ℤ (t.0 -ℤ target_ms) max_skew_ms

    abbrev pub later : Tick W → Tick W → Bool
    later t b = ltb_ℤ b.0 t.0

    abbrev pub earlier : Tick W → Tick W → Bool
    earlier t b = ltb_ℤ t.0 b.0

    abbrev pub nearer : Tick W → Tick W → Bool
    nearer t b = ltb (skew t) (skew b)

    unfoldable pub consider : Tick W → TickSel W → TickSel W
    consider t sel = record {
      best_before = choose is_before later t sel.best_before;
      best_after = choose is_after earlier t sel.best_after;
      best_any = choose (λ u. true) nearer t sel.best_any;
    }

    -- `consider` on the ticks of a snapshot, the oldest first.
    unfoldable pub consider_all : List (Tick W) → TickSel W → TickSel W
    consider_all [] sel = sel
    consider_all (t ∷ ts) sel = consider_all ts (consider t sel)

    abbrev pub near_enough : Option (Tick W) → Option (Tick W × Pick)
    near_enough none = none
    near_enough (some t) = if leb_ℤ (pos (skew t)) max_skew_ms then some (t, nearest) else none

    abbrev pub or_before : Option (Tick W) → Option (Tick W × Pick) → Option (Tick W × Pick)
    or_before none other = other
    or_before (some t) other = some (t, before)

    abbrev pub or_after : Option (Tick W) → Option (Tick W × Pick) → Option (Tick W × Pick)
    or_after none other = other
    or_after (some t) other = some (t, after)

    unfoldable pub assign_fallback : TickSel W → Option (Tick W × Pick)
    assign_fallback sel =
        or_after sel.best_after (or_before sel.best_before (near_enough sel.best_any))

    -- The result of the wait, and whether it came before the deadline.
    abbrev pub late : Option (Tick W × Pick) → Option (Tick W × Pick × Bool)
    late none = none
    late (some (t, pick)) = some (t, pick, false)

    abbrev pub at_once :
        Option (Tick W) → Option (Tick W × Pick × Bool) → Option (Tick W × Pick × Bool)
    at_once none later_on = later_on
    at_once (some t) later_on = some (t, after, true)

    -- The loop of `wait_strike_inner` over the snapshots of the buffer that it takes before its
    -- deadline, and the one after it.
    unfoldable pub poll_strike :
        (polls : List (List (Tick W))) (last : List (Tick W)) → Option (Tick W × Pick × Bool)
    poll_strike [] last = late (assign_fallback (consider_all last no_ticks))
    poll_strike (snap ∷ polls) last =
        at_once (consider_all snap no_ticks).best_after (poll_strike polls last)

  -- `wait_strike_inner` on a feed that has started.
  unfoldable pub wait_strike :
      (boundary_ms max_skew_ms : ℤ) (polls : List (List (Tick W))) (last : List (Tick W))
      → Option (Tick W × Pick × Bool)
  wait_strike boundary_ms max_skew_ms polls last =
      poll_strike boundary_ms (if ltb_ℤ max_skew_ms (pos 1000) then pos 1000 else max_skew_ms) polls
        last
