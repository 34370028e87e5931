-- ===== src/Startup/Parsed.antt =====
-- apps/btc_poly_runner.cpp: the outcomes of reading an argument, and the words that options take.
use prediction_market_arbitr.Base.{
  ℕ, ℤ, pos, ◌*ℤ◌, ltb_ℤ, String, Bool, true, false, if◌then◌else◌, ◌||◌, Option, none, some, same,
}
use prediction_market_arbitr.Runner.State.{SigmaVolMode, rolling, slug_fixed, constant}

-- The program goes on, returns this code, or ends by an exception.
pub data Parsed (A : Type 0) : Type 0 where
  go : A → Parsed A
  exits : ℕ → Parsed A
  crashes : Parsed A

abbrev pub then_parse : {A B : Type 0} → Parsed A → (A → Parsed B) → Parsed B
then_parse (go a) f = f a
then_parse (exits n) f = exits n
then_parse crashes f = crashes

abbrev pub or_crash : {A B : Type 0} → Option A → (A → Parsed B) → Parsed B
or_crash none f = crashes
or_crash (some a) f = f a

-- `edge_persist_ns`
abbrev pub persist_ns : ℤ → ℤ
persist_ns ms = if ltb_ℤ (pos 0) ms then ms *ℤ pos 1000000 else pos 0

-- What follows an option with a value, and what follows a flag.
abbrev pub after_option :
    {A : Type 0} → Option (Parsed A) → (A → Parsed A) → Parsed A → (A → Parsed A) → Parsed A
after_option (some p) past_value flagged past_flag = then_parse p past_value
after_option none past_value flagged past_flag = then_parse flagged past_flag

-- `--stream` and `--binance-stream`
abbrev pub stream_of : String → Option String
stream_of m =
    if same m "trade"
    then some "/ws/btcusdt@trade"
    else if same m "bookTicker"
    then some "/ws/btcusdt@bookTicker"
    else none

-- `--spot-feed`
abbrev pub is_chainlink : String → Option Bool
is_chainlink m =
    if same m "chainlink" || same m "cl" || same m "rtds"
    then some true
    else if same m "binance" || same m "bin"
    then some false
    else none

-- `--sigma-model`: whether GARCH is tried, and the mode.
abbrev pub model_of : String → Option (Bool × SigmaVolMode)
model_of m =
    if same m "garch" || same m "GARCH"
    then some (true, slug_fixed)
    else if same m "realized" || same m "rv" || same m "rolling"
    then some (false, rolling)
    else if same m "slug_fixed" || same m "fixed"
    then some (false, slug_fixed)
    else if same m "constant"
    then some (false, constant)
    else none

abbrev pub or_usage : {A B : Type 0} → Option A → (A → B) → Parsed B
or_usage none f = exits 2
or_usage (some a) f = go (f a)
