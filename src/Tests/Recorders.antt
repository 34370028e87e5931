-- ===== src/Tests/Recorders.antt =====
-- The recorders and look-ups at concrete inputs: the live pipeline and its writer, a page of the web
-- site, Gamma's list of markets, and a merged recording.
use prediction_market_arbitr.Chainlink.Strike.{fill_strike_from_polymarket_rtds_chainlink}
use prediction_market_arbitr.Chainlink.Selection.{wait_strike, poll_strike, consider_all, consider}
use prediction_market_arbitr.Startup.Strikes.{
  discover_initial, maybe_fill_strike_web_then_rtds, maybe_fill_strike_rtds,
}
use prediction_market_arbitr.Buckets.Discover.{
  try_slug, fetch_events, validate_and_extract, extract, market_of, start_iso,
}
use prediction_market_arbitr.Backtest.Alignment.{lags, alignment_stats-lags}
use prediction_market_arbitr.Backtest.Events.{LogEvent, is_event}
use prediction_market_arbitr.Backtest.Timeline.{alignment_stats, merge_sorted, no_pairs, add_lag}
use prediction_market_arbitr.Base.{
  ◌-ℤ◌, ℕ, ℤ, pos, ◌+ℤ◌, leb_ℤ, true, false, if◌then◌else◌, ◌≡◌, refl, inl, inr, String, List, [],
  ◌∷◌, foldl, some, codes, codes_eq, to_lower, same, IfSome, arith, ◌*ℤ◌,
}
use prediction_market_arbitr.Buckets.Market.{
  strings, strings_field, is_live, find_in, find_market_for_slug, index_outcome, up_and_down,
  json_scalar_id_string, extract_price_to_beat_from_gamma_event, event_metadata_object,
}
use prediction_market_arbitr.Buckets.Slug.{
  Text, slug_for_bucket, to_string, digits, parse_bucket_epoch_from_slug, stoll, scan, drop,
  magnitude,
}
use prediction_market_arbitr.Gamma.Bootstrap.{
  GammaBootstrapParams, text_lt, has_outcome, is_candidate, candidates_of, keyed, choose_market,
}
use prediction_market_arbitr.Gamma.Latest.{IsChosen, choose_market-IsChosen}
use prediction_market_arbitr.Gamma.Order.{Among, IsSortOf}
use prediction_market_arbitr.Json.{value_string, value_boolean}
use prediction_market_arbitr.Pipeline.Hot.{HotState}
use prediction_market_arbitr.Pipeline.Loop.{run}
use prediction_market_arbitr.Pipeline.Market.{Pipeline}
use prediction_market_arbitr.Pipeline.Rows.{IsWriter, Steps-IsWriter}
use prediction_market_arbitr.Pipeline.Runs.{IfGone}
use prediction_market_arbitr.Pipeline.Start.{
  PipelineOptions, default_options, start_pipeline, start_both,
}
use prediction_market_arbitr.Pipeline.Started.{recorder_advances}
use prediction_market_arbitr.Startup.Parsed.{Parsed, go}
use prediction_market_arbitr.Pipeline.Writer.{
  Writer, Steps, new_writer, push_row, take_row, append_row, enters, pushes, takes, appends, stops,
  returns, flushes, at_start, and_then,
}
use prediction_market_arbitr.Quotes.Fixed.{set_market_context, start}
use prediction_market_arbitr.Quotes.Rolling.{slug_has_prefix_ci}
use prediction_market_arbitr.Tests.Feeds.{new_feed}
use prediction_market_arbitr.Tests.Fixed.{Fixed, dec, Double-Fixed}
use prediction_market_arbitr.Tests.Startups.{sources}
use prediction_market_arbitr.Tests.World.{
  Doc, Json-Doc, entry, text, number, null, chain, market, quote_row,
}
use prediction_market_arbitr.Web.Page.{scan_next_data_for_slug_ptb}
use prediction_market_arbitr.Web.Priced.{IsFirstPrice, scan_next_data-IsFirstPrice}
use prediction_market_arbitr.Web.Search.{page_events}

-- A page with one query, whose data lists two events.
abbrev priced : String → ℕ → Doc
priced slug price =
    entry "slug" (text slug)
      (entry "eventMetadata" (entry "priceToBeat" (number (dec price 0)) null) null)

abbrev page : Doc
page =
    entry "props"
      (entry "pageProps"
        (entry "dehydratedState"
          (entry "queries"
            (chain (
              entry "state"
                (entry "data" (entry "events" (chain (priced "a" 99 ∷ priced "b" 100 ∷ [])) null)
                  null)
                null
              ∷ []))
            null)
          null)
        null)
      null

scan_next_data-IsFirstPrice_example :
    IsFirstPrice Json-Doc "b"
      (page_events Json-Doc page)
      (scan_next_data_for_slug_ptb Json-Doc page "b")
scan_next_data-IsFirstPrice_example = scan_next_data-IsFirstPrice Json-Doc page "b"

abbrev settings : PipelineOptions Fixed
settings = default_options "spot.jsonl" "polymarket.jsonl"

abbrev begun : Parsed (Pipeline Fixed) × ℕ
begun = start_pipeline Json-Doc sources settings 1234 (pos 9000000000) new_feed new_feed 0

begins : (p : Pipeline Fixed) × (begun ≡ (go p, begun.1))
unfolding start_pipeline start_both fill_strike_from_polymarket_rtds_chainlink wait_strike
    poll_strike consider_all consider ◌-ℤ◌ discover_initial maybe_fill_strike_web_then_rtds
    maybe_fill_strike_rtds try_slug fetch_events validate_and_extract extract market_of start_iso
    slug_for_bucket to_string digits parse_bucket_epoch_from_slug stoll scan drop magnitude is_live
    find_in find_market_for_slug index_outcome up_and_down strings strings_field
    json_scalar_id_string extract_price_to_beat_from_gamma_event event_metadata_object value_string
    value_boolean start set_market_context codes_eq to_lower Json-Doc Double-Fixed ◌+ℤ◌ ◌*ℤ◌
begins = (_, refl)

abbrev turns : List ((HotState Fixed → HotState Fixed) × ℤ × ℕ)
turns =
    (λ h. h, pos 9000000000, 1400)
    ∷ (λ h. record h { have_down = true }, pos 13000000000, 1501)
    ∷ []

recorder_advances_example : IfGone begins.0 (run Json-Doc sources false turns begins.0 [] begun.1)
recorder_advances_example =
    recorder_advances Json-Doc sources settings 1234 (pos 9000000000) new_feed new_feed 0 turns
      begins.0 begun.1 refl (omega arith) (omega arith) begins.1

-- A row is written while the writer is stopped.
rows_written : (w : Writer ℕ) × Steps (new_writer 2) w × (w.flushed ≡ true)
unfolding new_writer push_row take_row append_row
rows_written = (
  _,
  and_then
      (and_then
        (and_then
          (and_then
            (and_then
              (and_then (and_then at_start (enters 7)) (pushes [] [] 7 refl refl (omega arith)))
              (takes 7 [] refl refl))
            (stops refl))
          (appends 7 refl))
        (returns refl refl refl))
      (flushes refl refl),
  refl,
)

Steps-IsWriter_example : IsWriter rows_written.0
Steps-IsWriter_example = Steps-IsWriter 2 rows_written.1

abbrev insert_event : LogEvent Doc → List (LogEvent Doc) → List (LogEvent Doc)
insert_event x [] = x ∷ []
insert_event x (y ∷ ys) =
    if leb_ℤ x.sort_key_ns y.sort_key_ns then x ∷ (y ∷ ys) else y ∷ insert_event x ys

abbrev sort_events : List (LogEvent Doc) → List (LogEvent Doc)
sort_events [] = []
sort_events (x ∷ xs) = insert_event x (sort_events xs)

abbrev trades : List (LogEvent Doc)
trades =
    record {
      sort_key_ns = pos 40;
      source = "binance";
      row = entry "event_type" (text "trade") null;
    }
    ∷ []

abbrev quotes : List (LogEvent Doc)
quotes =
    record { sort_key_ns = pos 20; source = "polymarket"; row = quote_row 40 42 }
    ∷ record { sort_key_ns = pos 60; source = "polymarket"; row = quote_row 44 46 }
    ∷ []

alignment_stats-lags_example :
    alignment_stats Json-Doc (merge_sorted Json-Doc sort_events trades quotes) (pos 100)
    ≡ some (
        foldl add_lag no_pairs
          (lags Json-Doc (pos 100) (merge_sorted Json-Doc sort_events trades quotes)))
unfolding merge_sorted is_event value_string same codes_eq Json-Doc
alignment_stats-lags_example =
    alignment_stats-lags Json-Doc sort_events trades quotes (pos 100)
      ((omega arith, (omega arith, tt)), ((omega arith, tt), (tt, tt)))
      (
        ((true, refl), (false, refl)),
        (((false, refl), (true, refl)), (((true, refl), (false, refl)), tt)),
      )

abbrev insert_entry : Text × Doc → List (Text × Doc) → List (Text × Doc)
insert_entry x [] = x ∷ []
insert_entry x (y ∷ ys) = if text_lt y.0 x.0 then y ∷ insert_entry x ys else x ∷ (y ∷ ys)

abbrev sort_entries : List (Text × Doc) → List (Text × Doc)
sort_entries [] = []
sort_entries (x ∷ xs) = insert_entry x (sort_entries xs)

abbrev later_market : Doc
later_market = entry "endDate" (text "2026-02-02") (market "btc-updown-5m-1500")

abbrev earlier_market : Doc
earlier_market = entry "endDate" (text "2026-02-01") (market "btc-updown-5m-1200")

abbrev listed : List (Text × Doc)
listed = (codes "2026-02-02", later_market) ∷ (codes "2026-02-01", earlier_market) ∷ []

abbrev params : GammaBootstrapParams
params = record { slug_prefix = "btc-updown-5m"; require_up_down_outcomes = true }

are_candidates :
    candidates_of Json-Doc params (later_market ∷ earlier_market ∷ [])
    ≡ some (later_market ∷ earlier_market ∷ [])
unfolding candidates_of is_candidate value_string slug_has_prefix_ci has_outcome strings
    strings_field codes_eq to_lower Json-Doc
are_candidates = refl

are_keyed : keyed Json-Doc (later_market ∷ earlier_market ∷ []) ≡ some listed
unfolding keyed value_string codes_eq Json-Doc
are_keyed = refl

two_swapped : {A : Type 0} (a b c : A) → Among a (b ∷ c ∷ []) → Among a (c ∷ b ∷ [])
two_swapped a b c (inl e) = inr (inl e)
two_swapped a b c (inr (inl e)) = inl e
two_swapped a b c (inr (inr e)) = absurd e

are_sorted : IsSortOf listed (sort_entries listed)
unfolding text_lt
are_sorted = record {
  ordered = ((refl, tt), (tt, tt));
  kept = λ p k. two_swapped p _ _ k;
  fresh = λ p k. two_swapped p _ _ k;
}

choose_market-IsChosen_example :
    IfSome
      (IsChosen Json-Doc sort_entries (λ x. []) params (later_market ∷ earlier_market ∷ []) listed)
      (choose_market Json-Doc sort_entries
        (λ x. [])
        params
        (chain (later_market ∷ earlier_market ∷ [])))
unfolding Json-Doc
choose_market-IsChosen_example =
    choose_market-IsChosen Json-Doc sort_entries (λ x. []) params
      (chain (later_market ∷ earlier_market ∷ [])) (later_market ∷ earlier_market ∷ []) listed
      are_candidates are_keyed are_sorted
