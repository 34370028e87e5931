-- ===== src/Quotes/Moves.antt =====
-- src/polymarket/poly_ws_quote_feed.cpp: a feed that follows one market, and what its operations leave of
-- that.
use mathlib.Core.Path.{subst}
use prediction_market_arbitr.Base.{
  ℕ, String, Bool, true, false, not, ◌≡◌, refl, inl, inr, if_intro, some, same, same_refl,
  eq_of_same, is_empty, Bool-cases,
}
use prediction_market_arbitr.Quotes.Fixed.{subscribe_to}
use prediction_market_arbitr.Quotes.Following.{
  Follows, start-Follows, connect-Follows, disconnect-Follows, subscribe_to-Follows,
  subscribe_again-Follows, disconnected, socket_closes,
}
use prediction_market_arbitr.Quotes.Rolling.{
  PolymarketMarketRef, RollingFeed, start, stop, opened, dropped, left, switch_to_market,
}
use prediction_market_arbitr.Quotes.Socket.{Socket}

-- A feed that is not running, with its socket closed, or one that follows the `Up` token of its market,
-- and no other.
pub data Steady (s : RollingFeed) : Type 0 where
  idle : s.running ≡ false → s.socket.connected ≡ false → Steady s
  following :
      s.running ≡ true
      → is_empty s.active_up_token ≡ false
      → s.active.up_token_id ≡ s.active_up_token
      → Follows s.active_up_token s.socket
      → Steady s

left-Follows :
    (old next : String) (socket : Socket)
    → is_empty old ≡ false
    → Follows old socket
    → Follows next (subscribe_to next (left old next socket))
left-Follows old next socket n f = elim (Bool-cases (same old next)) [
  | inl e ↦
      subst (λ (t : String). Follows t (subscribe_to t (left old t socket))) (eq_of_same old next e)
        (rw (n, same_refl old) (subscribe_again-Follows old socket f))
  | inr e ↦ rw (n, e) (subscribe_to-Follows old next socket f)
]

pub switch_to_market-Steady :
    (next : PolymarketMarketRef) (ts now_ms : ℕ) (s : RollingFeed)
    → s.running ≡ true
    → is_empty s.active_up_token ≡ false
    → is_empty next.up_token_id ≡ false
    → Follows s.active_up_token s.socket
    → Steady (switch_to_market next ts now_ms s)
unfolding switch_to_market
switch_to_market-Steady next ts now_ms s r n k f =
    following r k refl (left-Follows s.active_up_token next.up_token_id s.socket n f)

pub start-Steady :
    (boot : PolymarketMarketRef) (now_ms : ℕ) (s : RollingFeed)
    → is_empty boot.up_token_id ≡ false
    → Steady s
    → Steady (start (some boot) now_ms s).0
unfolding start
start-Steady boot now_ms s n (idle r c) =
    if_intro (λ (p : RollingFeed × Bool). Steady p.0) s.running _ _ (λ e. idle r c)
      (λ e. following refl n refl (start-Follows boot.up_token_id s.socket c))
start-Steady boot now_ms s n (following r k a f) =
    if_intro (λ (p : RollingFeed × Bool). Steady p.0) s.running _ _ (λ e. following r k a f)
      (λ e. cc)

pub stop-Steady : (s : RollingFeed) → Steady s → Steady (stop s)
unfolding stop
stop-Steady s (idle r c) = if_intro Steady (not s.running) _ _ (λ e. idle r c) (λ e. cc)
stop-Steady s (following r k a f) =
    if_intro Steady (not s.running) _ _ (λ e. following r k a f)
      (λ e. idle refl (socket_closes s.socket f.running))

pub opened-Steady : (s : RollingFeed) → s.running ≡ true → Steady s → Steady (opened s)
unfolding opened
opened-Steady s h (idle r c) = cc
opened-Steady s h (following r k a f) = following r k a (connect-Follows _ _ f)

pub dropped-Steady : (s : RollingFeed) → Steady s → Steady (dropped s)
unfolding dropped
dropped-Steady s (idle r c) = idle r (disconnected s.socket)
dropped-Steady s (following r k a f) = following r k a (disconnect-Follows _ _ f)

pub with_condition :
    (s : RollingFeed) (c : String)
    → Steady s
    → Steady (record s { active = record s.active { condition_id = c } })
with_condition s c (idle r n) = idle r n
with_condition s c (following r k a f) = following r k a f

pub with_dedup :
    (s : RollingFeed) (k : String) → Steady s → Steady (record s { last_quote_dedup = k })
with_dedup s k (idle r n) = idle r n
with_dedup s k (following r n a f) = following r n a f
