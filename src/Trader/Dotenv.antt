-- ===== src/Trader/Dotenv.antt =====
-- apps/live_trader.cpp: `load_dotenv_if_present` and `env_flag_true`.
use prediction_market_arbitr.Base.{
  Bool, false, if◌then◌else◌, ◌||◌, List, map, Option, none, some, codes, codes_eq, to_lower,
}
use prediction_market_arbitr.Buckets.Slug.{Text}
use prediction_market_arbitr.Startup.Dotenv.{
  Variables, getenv, is_empty_text, split_at, trim_front, trim_back, is_space, starts_with,
  unquoted, past_export, load_lines,
}

unfoldable pub trim_inplace : Text → Text
trim_inplace s = trim_back is_space (trim_front is_space s)

abbrev pub assigned : Option (Text × Text) → Option (Text × Text)
assigned none = none
assigned (some (k, v)) =
    if is_empty_text (trim_inplace k)
    then none
    else some (trim_inplace k, unquoted (trim_inplace v))

-- What a line assigns.
unfoldable pub read_line : Text → Option (Text × Text)
read_line raw =
    let line = trim_inplace raw in
    if is_empty_text line || starts_with 35 line
    then none
    else assigned (split_at 61 (trim_inplace (past_export line)))

unfoldable pub load_dotenv_if_present : List Text → Variables → Variables
load_dotenv_if_present lines vars = load_lines read_line lines vars

abbrev pub flag_of : Option Text → Bool
flag_of none = false
flag_of (some v) =
    codes_eq v (codes "1")
    || codes_eq (map to_lower v) (codes "true")
    || codes_eq (map to_lower v) (codes "yes")

unfoldable pub env_flag_true : Text → Variables → Bool
env_flag_true key vars = flag_of (getenv key vars)
