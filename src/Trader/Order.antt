-- ===== src/Trader/Order.antt =====
-- apps/live_trader.cpp: the arguments, the checks of the order, and its submission. Output is left out,
-- and so is the log of the traffic.
use prediction_market_arbitr.Base.{
  ℕ, String, Bool, true, false, not, if◌then◌else◌, ◌&&◌, ◌||◌, List, [], ◌∷◌, Option, none, some,
  same, is_empty, codes, spell,
}
use prediction_market_arbitr.Buckets.Slug.{Text}
use prediction_market_arbitr.Double.{Double}
use prediction_market_arbitr.Executor.Live.{Order, Deployment, World, submit}
use prediction_market_arbitr.Executor.System.{Result, ok, failed, thrown, unfinished, Os}
use prediction_market_arbitr.Json.{Json}
use prediction_market_arbitr.Runner.Venue.{Receipt}
use prediction_market_arbitr.Startup.Parsed.{
  Parsed, go, exits, crashes, then_parse, or_crash, after_option,
}
use prediction_market_arbitr.Startup.Dotenv.{Variables, getenv}
use prediction_market_arbitr.Trader.Dotenv.{load_dotenv_if_present, env_flag_true}

-- The variables of `main`.
pub record Trade (W : Type 0) : Type 0 where
  pub o : Order W
  pub notional_usd : W
  pub have_qty : Bool
  pub dry_run : Bool
  pub confirm_flag : Bool

-- What `main` comes to: another program, an exit code, an exception, a preview, or an order.
pub data Verdict (W : Type 0) : Type 0 where
  strategy : Verdict W
  refused : ℕ → Verdict W
  broken : Verdict W
  previews : Order W → Verdict W
  submits : Order W → Verdict W

abbrev pub or_token : String → Option Text → String
or_token token none = token
or_token token (some id) = spell id

abbrev pub is_strategy : List String → Bool
is_strategy [] = false
is_strategy (a ∷ args) = same a "--strategy"

module _ {W : Type 0} ⦃d : Double W⦄ where
  open d use {lit, lt, le, div, stod}

  abbrev pub no_trade : Trade W
  no_trade = record {
    o = record {
      market_token_id = "";
      side = "";
      limit_price = lit 0 0;
      qty = lit 0 0;
      market_order = false;
      market_order_type = "";
      market_worst_price = lit 0 0;
    };
    notional_usd = lit 0 0;
    have_qty = false;
    dry_run = false;
    confirm_flag = false;
  }

  abbrev pub with_order : Trade W → Order W → Trade W
  with_order t o = record t { o = o }

  -- An option with its value. `none` if it is no such option.
  unfoldable pub trade_option : (a v : String) → Trade W → Option (Parsed (Trade W))
  trade_option a v t =
      let o : Order W = t.o in
      if same a "--token-id"
      then some (go (with_order t (record o { market_token_id = v })))
      else if same a "--side"
      then some (go (with_order t (record o { side = v })))
      else if same a "--price"
      then some (or_crash (stod v) (λ x. go (with_order t (record o { limit_price = x }))))
      else if same a "--qty"
      then some
          (or_crash (stod v) (λ x. go (record t { o = record o { qty = x }; have_qty = true })))
      else if same a "--notional" || same a "--spend"
      then some (or_crash (stod v) (λ x. go (record t { notional_usd = x })))
      else none

  unfoldable pub trade_flag : String → Trade W → Parsed (Trade W)
  trade_flag a t =
      let o : Order W = t.o in
      if same a "--market"
      then go (with_order t (record o { market_order = true }))
      else if same a "--dry-run"
      then go (record t { dry_run = true })
      else if same a "--confirm" || same a "-y" || same a "--yes"
      then go (record t { confirm_flag = true })
      else if same a "--help"
      then exits 0
      else exits 2

  unfoldable pub parse_trade : List String → Trade W → Parsed (Trade W)
  parse_trade [] t = go t
  parse_trade (a ∷ []) t = trade_flag a t
  parse_trade (a ∷ v ∷ rest) t =
      after_option (trade_option a v t) (parse_trade rest) (trade_flag a t) (parse_trade (v ∷ rest))

  -- `POLY_TOKEN_ID`, where no token was given.
  unfoldable pub with_token : Variables → Trade W → Trade W
  with_token vars t =
      let o : Order W = t.o in
      if is_empty o.market_token_id
      then with_order t
          (record o { market_token_id = or_token "" (getenv (codes "POLY_TOKEN_ID") vars) })
      else t

  -- The quantity of a market order.
  unfoldable pub size_market : Trade W → Parsed (Order W)
  size_market t =
      let o : Order W = t.o in
      if same o.side "BUY"
      then (if le t.notional_usd (lit 0 0) then exits 2 else go (record o { qty = t.notional_usd }))
      else if same o.side "SELL"
      then (if not t.have_qty || le o.qty (lit 0 0) then exits 2 else go o)
      else exits 2

  -- The quantity of a limit order.
  unfoldable pub size_limit : Trade W → Parsed (Order W)
  size_limit t =
      let o : Order W = t.o in
      if lt (lit 0 0) t.notional_usd
      then (if not (same o.side "BUY") || le o.limit_price (lit 0 0)
          then exits 2
          else go (record o { qty = div t.notional_usd o.limit_price }))
      else if not t.have_qty || le o.qty (lit 0 0)
      then exits 2
      else go o

  -- The last checks of the order.
  unfoldable pub check_order : Order W → Parsed (Order W)
  check_order o =
      if is_empty o.market_token_id
      then exits 2
      else if is_empty o.side || le o.qty (lit 0 0)
      then exits 2
      else if not o.market_order && le o.limit_price (lit 0 0)
      then exits 2
      else go o

  unfoldable pub confirm : Variables → Trade W → Order W → Verdict W
  confirm vars t o =
      if env_flag_true (codes "POLY_REQUIRE_CONFIRM") vars && not t.dry_run && not t.confirm_flag
      then refused 2
      else if t.dry_run
      then previews o
      else submits o

  abbrev pub to_verdict : {A : Type 0} → (A → Verdict W) → Parsed A → Verdict W
  to_verdict f (go a) = f a
  to_verdict f (exits n) = refused n
  to_verdict f crashes = broken

  -- From the arguments that were read to the end.
  unfoldable pub decide : Variables → Trade W → Verdict W
  decide vars t =
      let t' = with_token vars t in
      to_verdict (confirm vars t')
        (then_parse (if t'.o.market_order then size_market t' else size_limit t') check_order)

  -- `main`, with the lines of the .env file and the environment.
  unfoldable pub trader_verdict : (dotenv : List Text) → Variables → List String → Verdict W
  trader_verdict dotenv vars args =
      if is_strategy args
      then strategy
      else to_verdict (decide (load_dotenv_if_present dotenv vars)) (parse_trade args no_trade)

module _ {W J E : Type 0} ⦃d : Double W⦄ (json : Json W J) (os : Os E) (env : Deployment) where
  -- The exit code of a submission; `none` if it ends otherwise.
  abbrev pub submit_code : Result (Receipt J) × World E → Option ℕ × World E
  submit_code (ok r, w) = (some 0, w)
  submit_code (failed m, w) = (some 2, w)
  submit_code (thrown, w) = (none, w)
  submit_code (unfinished, w) = (none, w)

  -- The exit code of `main` without `--strategy`; `none` if it ends otherwise.
  unfoldable pub carry_out : Verdict W → World E → Option ℕ × World E
  carry_out strategy w = (none, w)
  carry_out (refused n) w = (some n, w)
  carry_out broken w = (none, w)
  carry_out (previews o) w = (some 0, w)
  carry_out (submits o) w = submit_code (submit json os env o w)
