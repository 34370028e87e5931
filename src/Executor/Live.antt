-- ===== src/Executor/Live.antt =====
-- src/execution/live_executor.cpp: `LiveExecutor`, in a build with or without live trading. The log of
-- the traffic, the measured latencies and, in some error texts, the response line are left out. Every
-- caller asks for the error text.
use prediction_market_arbitr.Base.{
  ℕ, ℤ, String, Bool, true, false, not, if◌then◌else◌, ◌&&◌, List, [], ◌∷◌, map, Option, none, some,
  ◌⊕◌, is_empty,
}
use prediction_market_arbitr.Double.{Double}
use prediction_market_arbitr.Executor.Daemon.{PolyDaemonClient, start, request_response_jsonl}
use prediction_market_arbitr.Executor.System.{Result, ok, failed, thrown, unfinished, Os}
use prediction_market_arbitr.Json.{Json, value_string, value_boolean}
use prediction_market_arbitr.Runner.Venue.{Receipt}

-- `OrderIntent`
pub record Order (W : Type 0) : Type 0 where
  pub market_token_id : String
  pub side : String
  pub limit_price : W
  pub qty : W
  pub market_order : Bool
  pub market_order_type : String
  pub market_worst_price : W

-- The build, two environment variables, and the rounds that the loops of the model may take.
pub record Deployment : Type 0 where
  pub live_trader : Bool
  pub garch_daemon : Bool
  pub daemon_cmd : String
  pub default_order_type : String
  pub rounds : ℕ

abbrev pub World : Type 0 → Type 0
World E = PolyDaemonClient × E

abbrev pub and_then : {A B : Type 0} → (A → Result B) → Result A → Result B
and_then f (ok a) = f a
and_then f (failed m) = failed m
and_then f thrown = thrown
and_then f unfinished = unfinished

abbrev pub first_text : String → String → String
first_text a b = if is_empty a then b else a

module _ {W J : Type 0} (json : Json W J) where
  open json use {contains, at, is_object, is_string, is_number, get_string, get_double, of_string}

  abbrev pub refused : String → Option String → Result J
  refused line none = thrown
  refused line (some m) = failed (m ⊕ " raw=" ⊕ line)

  abbrev pub accepted : J → String → Option Bool → Result J
  accepted resp line none = thrown
  accepted resp line (some true) = ok resp
  accepted resp line (some false) = refused line (value_string json resp "error" "daemon error")

  abbrev pub parsed : String → Option J → Result J
  parsed line none = failed ("daemon returned non-JSON: " ⊕ line)
  parsed line (some resp) = accepted resp line (value_boolean json resp "ok" false)

  -- What a response line says: the response, if it is an object whose `ok` is true.
  unfoldable pub answered : String → Result J
  answered line = parsed line (json.parse line)

  abbrev pub text_field : J → String → String
  text_field j key = if contains j key && is_string (at j key) then get_string (at j key) else ""

  -- The id under the first of these keys that has one.
  unfoldable pub order_id_of : J → String
  order_id_of resp =
      let r = at resp "resp" in
      let top = text_field resp "order_id" in
      if is_empty top && contains resp "resp" && is_object r
      then first_text (text_field r "orderID")
          (first_text (text_field r "order_id") (text_field r "orderId"))
      else top

  abbrev pub receipt_of : J → Result (Receipt J)
  receipt_of resp = ok (record { order_id = order_id_of resp; submit_resp = resp })

  abbrev pub numeric : Option W → Result W
  numeric none = failed "balance not numeric"
  numeric (some x) = ok x

  unfoldable pub balance_of : ⦃d : Double W⦄ → J → Result W
  balance_of ⦃d⦄ resp =
      let b = at resp "balance" in
      if not (contains resp "balance")
      then failed "no balance field"
      else if is_number b
      then ok (get_double b)
      else if is_string b
      then numeric (d.stod (get_string b))
      else failed "balance missing or invalid type"

  unfoldable pub order_of : J → Result J
  order_of resp =
      if contains resp "order" && is_object (at resp "order")
      then ok (at resp "order")
      else if contains resp "resp" && is_object (at resp "resp")
      then ok (at resp "resp")
      else failed "no order object in response"

  unfoldable pub sigma_of : J → Result W
  sigma_of resp =
      if contains resp "sigma_annual" && is_number (at resp "sigma_annual")
      then ok (get_double (at resp "sigma_annual"))
      else failed "no sigma_annual in response"

  abbrev pub worst_price : ⦃d : Double W⦄ → W → List (String × J)
  worst_price ⦃d⦄ p =
      if d.lt (d.lit 0 0) p && d.is_finite p then ("price", json.of_double p) ∷ [] else []

  abbrev pub market_fields : ⦃d : Double W⦄ → Deployment → Order W → List (String × J)
  market_fields env o =
      ("cmd", of_string "place_market_order")
      ∷ ("token_id", of_string o.market_token_id)
      ∷ ("side", of_string o.side)
      ∷ (
        "order_type",
        of_string (first_text (first_text o.market_order_type env.default_order_type) "FAK"),
      )
      ∷ ("amount", json.of_double o.qty)
      ∷ worst_price o.market_worst_price

  abbrev pub limit_fields : Order W → List (String × J)
  limit_fields o =
      ("cmd", of_string "place_order")
      ∷ ("token_id", of_string o.market_token_id)
      ∷ ("side", of_string o.side)
      ∷ ("price", json.of_double o.limit_price)
      ∷ ("size", json.of_double o.qty)
      ∷ ("order_type", of_string "GTC")
      ∷ []

  -- The document is written out by `dump`, which is taken to succeed: it throws on a text that is not
  -- UTF-8.
  unfoldable pub order_request : ⦃d : Double W⦄ → Deployment → Order W → J
  order_request env o = json.object (if o.market_order then market_fields env o else limit_fields o)

module _ {W J E : Type 0} ⦃d : Double W⦄ (json : Json W J) (os : Os E) (env : Deployment) where
  open json use {of_string}

  abbrev pub after_request : PolyDaemonClient → Result String × E → Result J × World E
  after_request c (ok line, e) = (answered json line, (c, e))
  after_request c (failed m, e) = (failed ("daemon request failed: " ⊕ m), (c, e))
  after_request c (thrown, e) = (thrown, (c, e))
  after_request c (unfinished, e) = (unfinished, (c, e))

  abbrev pub after_start : J → Result Unit × World E → Result J × World E
  after_start req (ok u, (c, e)) =
      after_request c (request_response_jsonl os env.rounds (json.dump req) c e)
  after_start req (failed m, w) = (failed ("start daemon failed: " ⊕ m), w)
  after_start req (thrown, w) = (thrown, w)
  after_start req (unfinished, w) = (unfinished, w)

  -- What every operation does: start the daemon if it does not run, send the request, and read the
  -- response.
  unfoldable pub exchange : J → World E → Result J × World E
  exchange req w = after_start req (start os env.rounds env.daemon_cmd w.0 w.1)

  abbrev pub with_result : {A : Type 0} → (J → Result A) → Result J × World E → Result A × World E
  with_result f r = (and_then f r.0, r.1)

  unfoldable pub submit : Order W → World E → Result (Receipt J) × World E
  submit o w =
      if env.live_trader
      then with_result (receipt_of json) (exchange (order_request json env o) w)
      else (failed "Live trading disabled", w)

  abbrev pub balance_request : String → J
  balance_request token_id =
      json.object
        (("cmd", of_string "get_conditional_balance") ∷ ("token_id", of_string token_id) ∷ [])

  unfoldable pub query_conditional_balance : String → World E → Result W × World E
  query_conditional_balance token_id w =
      if env.live_trader
      then with_result (balance_of json) (exchange (balance_request token_id) w)
      else (failed "Live trading disabled", w)

  abbrev pub get_order_request : String → J
  get_order_request order_id =
      json.object (("cmd", of_string "get_order") ∷ ("order_id", of_string order_id) ∷ [])

  unfoldable pub query_order : String → World E → Result J × World E
  query_order order_id w =
      if env.live_trader
      then with_result (order_of json) (exchange (get_order_request order_id) w)
      else (failed "Live trading disabled", w)

  abbrev pub garch_request : List W → ℤ → J
  garch_request mids step_ms = json.object (
      ("cmd", of_string "garch_forecast")
      ∷ ("mids", json.of_list (map json.of_double mids))
      ∷ ("step_ms", json.of_int step_ms)
      ∷ [])

  unfoldable pub query_garch_sigma : List W → ℤ → World E → Result W × World E
  query_garch_sigma mids step_ms w =
      if env.garch_daemon
      then with_result (sigma_of json) (exchange (garch_request mids step_ms) w)
      else (failed "GARCH daemon client not compiled", w)
