-- ===== src/Trader/Checks.antt =====
-- apps/live_trader.cpp: which orders are submitted.
use mathlib.Core.Path.{subst}
use prediction_market_arbitr.Base.{
  String, true, false, not, if◌then◌else◌, ◌&&◌, ◌≡◌, refl, sym, ◌∙◌, ◌⊎◌, if_intro, List,
  eq_of_same, is_empty, codes, arith,
}
use prediction_market_arbitr.Buckets.Slug.{Text}
use prediction_market_arbitr.Double.{Double}
use prediction_market_arbitr.Executor.Live.{Order}
use prediction_market_arbitr.Startup.Parsed.{Parsed, go, exits, crashes}
use prediction_market_arbitr.Startup.Dotenv.{Variables}
use prediction_market_arbitr.Startup.Valid.{IfGoes, IfGoes-then}
use prediction_market_arbitr.Trader.Dotenv.{load_dotenv_if_present, env_flag_true}
use prediction_market_arbitr.Trader.Order.{
  Trade, Verdict, strategy, refused, broken, previews, submits, no_trade, parse_trade, with_token,
  size_market, size_limit, check_order, confirm, to_verdict, decide, is_strategy, trader_verdict,
}

IfGoes-self : {A : Type 0} (p q : Parsed A) → q ≡ p → IfGoes (λ a. q ≡ go a) p
IfGoes-self (go a) q e = e
IfGoes-self (exits n) q e = tt
IfGoes-self crashes q e = tt

module _ {W : Type 0} ⦃d : Double W⦄ where
  open d use {lit, lt, le, div}

  -- The quantity of a market order: what a BUY spends, or the shares of a SELL.
  abbrev MarketQty : Trade W → Order W → Type 0
  MarketQty t o =
      ((o.side ≡ "BUY") × (o.qty ≡ t.notional_usd))
      ⊎ ((o.side ≡ "SELL") × (t.have_qty ≡ true) × (o.qty ≡ t.o.qty))

  -- The quantity of a limit order: what the spend of a BUY buys at its price, or the shares given.
  abbrev LimitQty : Trade W → Order W → Type 0
  LimitQty t o =
      ((o.side ≡ "BUY")
        × (lt (lit 0 0) t.notional_usd ≡ true)
        × (o.qty ≡ div t.notional_usd o.limit_price))
      ⊎ ((t.have_qty ≡ true) × (o.qty ≡ t.o.qty))

  -- What an order satisfies that the arguments `t` are carried out with. The tests of numbers are the
  -- code's, so that a NaN passes where the code lets it pass.
  pub record IsOrderOf (t : Trade W) (o : Order W) : Type 0 where
    pub kind : o.market_order ≡ t.o.market_order
    pub token : is_empty o.market_token_id ≡ false
    pub side : is_empty o.side ≡ false
    pub same_side : o.side ≡ t.o.side
    pub amount : le o.qty (lit 0 0) ≡ false
    pub quantity :
        ((o.market_order ≡ true) × MarketQty t o)
        ⊎ ((o.market_order ≡ false) × (le o.limit_price (lit 0 0) ≡ false) × LimitQty t o)

  abbrev pub Sized : Trade W → Order W → Type 0
  Sized t o =
      (o.market_order ≡ t.o.market_order)
      × (o.side ≡ t.o.side)
      × (((o.market_order ≡ true) × MarketQty t o) ⊎ ((o.market_order ≡ false) × LimitQty t o))

  size_market-Sized : (t : Trade W) → t.o.market_order ≡ true → IfGoes (Sized t) (size_market t)
  unfolding size_market
  size_market-Sized t m = ground (arith, m, eq_of_same t.o.side "BUY", eq_of_same t.o.side "SELL")

  size_limit-Sized : (t : Trade W) → t.o.market_order ≡ false → IfGoes (Sized t) (size_limit t)
  unfolding size_limit
  size_limit-Sized t m = ground (arith, m, eq_of_same t.o.side "BUY")

  check_order-IsOrderOf :
      (t : Trade W) (o : Order W) → Sized t o → IfGoes (IsOrderOf t) (check_order o)
  unfolding check_order
  check_order-IsOrderOf t o h = ground (arith, h)

  -- A property of the order that is submitted, and one of the order that is only shown.
  abbrev pub IfOrder : (P Q : Order W → Type 0) → Verdict W → Type 0
  IfOrder P Q strategy = Unit
  IfOrder P Q (refused n) = Unit
  IfOrder P Q broken = Unit
  IfOrder P Q (previews o) = Q o
  IfOrder P Q (submits o) = P o

  -- An order that is submitted: it is not a dry run, and it is confirmed where that is required.
  pub record IsSubmitted (vars : Variables) (t : Trade W) (o : Order W) : Type 0 where
    pub order : IsOrderOf (with_token vars t) o
    pub wet : t.dry_run ≡ false
    pub confirmed :
        (env_flag_true (codes "POLY_REQUIRE_CONFIRM") vars ≡ false) ⊎ (t.confirm_flag ≡ true)

  pub record IsPreviewed (vars : Variables) (t : Trade W) (o : Order W) : Type 0 where
    pub shown : IsOrderOf (with_token vars t) o
    pub dry : t.dry_run ≡ true

  IfGoes-to_verdict :
      {A : Type 0} (P Q : Order W → Type 0) (R : A → Type 0) (p : Parsed A) (f : A → Verdict W)
      → IfGoes R p
      → ((a : A) → R a → IfOrder P Q (f a))
      → IfOrder P Q (to_verdict f p)
  IfGoes-to_verdict P Q R (go a) f h k = k a h
  IfGoes-to_verdict P Q R (exits n) f h k = tt
  IfGoes-to_verdict P Q R crashes f h k = tt

  confirm-IfOrder :
      (vars : Variables) (t t' : Trade W) (o : Order W)
      → t'.dry_run ≡ t.dry_run
      → t'.confirm_flag ≡ t.confirm_flag
      → IsOrderOf t' o
      → t' ≡ with_token vars t
      → IfOrder (IsSubmitted vars t) (IsPreviewed vars t) (confirm vars t' o)
  unfolding confirm
  confirm-IfOrder vars t t' o dry flag h e =
      let order : IsOrderOf (with_token vars t) o = subst (λ (u : Trade W). IsOrderOf u o) e h in
      let P = IfOrder (IsSubmitted vars t) (IsPreviewed vars t) in
      let required = env_flag_true (codes "POLY_REQUIRE_CONFIRM") vars in
      if_intro P (required && not t'.dry_run && not t'.confirm_flag) _ _ (λ _. tt)
        λ k.
          if_intro P t'.dry_run _ _ (λ w. record { shown = order; dry = sym dry ∙ w })
            λ w. record { order = order; wet = sym dry ∙ w; confirmed = ground (arith, k, w, flag) }

  size-Sized :
      (t : Trade W) → IfGoes (Sized t) (if t.o.market_order then size_market t else size_limit t)
  size-Sized t =
      if_intro (IfGoes (Sized t)) t.o.market_order _ _ (size_market-Sized t) (size_limit-Sized t)

  with_token-flags :
      (vars : Variables) (t : Trade W)
      → ((with_token vars t).dry_run ≡ t.dry_run)
        × ((with_token vars t).confirm_flag ≡ t.confirm_flag)
  unfolding with_token
  with_token-flags vars t = ground arith

  decide-IfOrder :
      (vars : Variables) (t : Trade W)
      → IfOrder (IsSubmitted vars t) (IsPreviewed vars t) (decide vars t)
  unfolding decide
  decide-IfOrder vars t =
      let t' = with_token vars t in
      let flags = with_token-flags vars t in
      IfGoes-to_verdict (IsSubmitted vars t) (IsPreviewed vars t) (IsOrderOf t') _ (confirm vars t')
        (IfGoes-then (Sized t') (IsOrderOf t')
          (if t'.o.market_order then size_market t' else size_limit t') check_order (size-Sized t')
          (check_order-IsOrderOf t'))
        (λ o h. confirm-IfOrder vars t t' o flags.0 flags.1 h refl)

  abbrev Read : List String → Trade W → Type 0
  Read args t = parse_trade args no_trade ≡ go t

  IfOrder-map :
      (P Q P' Q' : Order W → Type 0) (v : Verdict W)
      → ((o : Order W) → P o → P' o)
      → ((o : Order W) → Q o → Q' o)
      → IfOrder P Q v
      → IfOrder P' Q' v
  IfOrder-map P Q P' Q' strategy f g h = tt
  IfOrder-map P Q P' Q' (refused n) f g h = tt
  IfOrder-map P Q P' Q' broken f g h = tt
  IfOrder-map P Q P' Q' (previews o) f g h = g o h
  IfOrder-map P Q P' Q' (submits o) f g h = f o h

module _ (W : Type 0) ⦃d : Double W⦄ where
  -- The order that the arguments and the environment give, if it is submitted.
  abbrev pub Submitted : Variables → List String → Order W → Type 0
  Submitted vars args o = (t : Trade W) × Read args t × IsSubmitted vars t o

  abbrev pub Previewed : Variables → List String → Order W → Type 0
  Previewed vars args o = (t : Trade W) × Read args t × IsPreviewed vars t o

  -- An order is submitted only if all arguments were read and it has a token, a side and a quantity that
  -- is not zero or less; a market BUY spends what was asked and a market SELL sells the shares that were
  -- given, and there is no other market order; a limit order has a price that is not zero or less, and
  -- buys what the spend pays for, or has the quantity that was given. It is no dry run, and it is
  -- confirmed if the environment, with the .env file, requires that. A preview satisfies the same, and
  -- is a dry run.
  pub trader_verdict-IfOrder :
      (dotenv : List Text) (vars : Variables) (args : List String)
      → IfOrder
          (Submitted (load_dotenv_if_present dotenv vars) args)
          (Previewed (load_dotenv_if_present dotenv vars) args)
          (trader_verdict dotenv vars args)
  unfolding trader_verdict
  trader_verdict-IfOrder dotenv vars args =
      let vars' = load_dotenv_if_present dotenv vars in
      let P = Submitted vars' args in
      let Q = Previewed vars' args in
      if_intro (IfOrder P Q) (is_strategy args) strategy
        (to_verdict (decide vars') (parse_trade args no_trade)) (λ _. tt)
        λ _.
          IfGoes-to_verdict P Q (Read args) (parse_trade args no_trade) (decide vars')
            (IfGoes-self (parse_trade args no_trade) (parse_trade args no_trade) refl)
            λ t e.
              IfOrder-map (IsSubmitted vars' t) (IsPreviewed vars' t) P Q (decide vars' t)
                (λ o h. (t, e, h)) (λ o h. (t, e, h)) (decide-IfOrder vars' t)
