-- ===== src/Runner/Clob.antt =====
-- apps/btc_poly_runner.cpp: reading amounts and states out of CLOB responses.
use prediction_market_arbitr.Base.{
  codes, codes_eq, ℕ, ◌-◌, String, Bool, not, if◌then◌else◌, ◌||◌, ◌&&◌, leb, List, map, Option,
  none, some, or_else,
}
use prediction_market_arbitr.Double.{Double, fabs}
use prediction_market_arbitr.Json.{Json}

-- `std::toupper` on a character code
unfoldable pub to_upper : ℕ → ℕ
to_upper c = if leb 97 c && leb c 122 then c - 32 else c

unfoldable pub clob_order_status_terminal : List ℕ → Bool
unfolding codes_eq
clob_order_status_terminal st =
    codes_eq st (codes "MATCHED")
    || codes_eq st (codes "CANCELED")
    || codes_eq st (codes "CANCELLED")
    || codes_eq st (codes "FILLED")
    || codes_eq st (codes "EXECUTED")

unfoldable pub clob_order_status_upper : {W J : Type 0} → Json W J → J → List ℕ
unfolding to_upper
clob_order_status_upper json order = map to_upper (
    codes (
      if json.contains order "status" && json.is_string (json.at order "status")
      then json.get_string (json.at order "status")
      else if json.contains order "order_status" && json.is_string (json.at order "order_status")
      then json.get_string (json.at order "order_status")
      else ""))

module _ {W : Type 0} ⦃d : Double W⦄ where
  open d use {lit, sub, div, lt, le, is_finite, round}

  abbrev if_finite : Option W → Option W
  if_finite none = none
  if_finite (some x) = if is_finite x then some x else none

  unfoldable pub clob_decode_amount : W → W
  clob_decode_amount raw =
      if not (is_finite raw)
      then raw
      else if le (lit 10000 0) raw && lt (fabs (sub raw (round raw))) (lit 1 6)
      then div raw (lit 1000000 0)
      else raw

  unfoldable pub checked_amount : Option W → Option W
  unfolding clob_decode_amount
  checked_amount none = none
  checked_amount (some raw) =
      let out = clob_decode_amount raw in
      if is_finite out && le (lit 0 0) out then some out else none

  -- `px < 0.001 || px > 0.999`
  abbrev pub off_range : W → Bool
  off_range px = lt px (lit 1 3) || lt (lit 999 3) px

  -- Cost and shares of a BUY from its two amounts, exchanged where they look reversed.
  unfoldable pub orient : W → W → Option (W × W)
  orient cost shares =
      if le shares (lit 0 0) || le cost (lit 0 0)
      then none
      else if not (off_range (div cost shares))
      then some (cost, shares)
      else if off_range (div shares cost)
      then none
      else some (shares, cost)

  unfoldable pub fill_of_amounts : W → W → Option (W × W)
  unfolding orient
  fill_of_amounts making taking =
      if le making (lit 0 0) || le taking (lit 0 0)
      then none
      else if le making (lit 1 0) && lt (lit 1 0) taking
      then orient taking making
      else orient making taking

module _ {W J : Type 0} ⦃d : Double W⦄ ⦃json : Json W J⦄ where
  open d use {lit, le, stod}
  open json use {contains, at, is_object, is_string, is_number, get_double, get_string}

  unfoldable pub clob_json_to_double : J → Option W
  clob_json_to_double v =
      if is_number v
      then if_finite (some (get_double v))
      else if is_string v
      then if_finite (stod (get_string v))
      else none

  unfoldable pub clob_json_amount_field : J → String → Option W
  unfolding clob_json_to_double checked_amount
  clob_json_amount_field obj key =
      if contains obj key then checked_amount (clob_json_to_double (at obj key)) else none

  unfoldable pub clob_order_size_matched_shares : J → Option W
  unfolding clob_json_amount_field
  clob_order_size_matched_shares order =
      elim (or_else (clob_json_amount_field order "size_matched")
        (clob_json_amount_field order "sizeMatched")) [
          | none ↦ none
          | some sm ↦ if le sm (lit 0 0) then none else some sm
        ]

  unfoldable pub try_market_buy_fill_from_post_resp : J → Option (W × W)
  unfolding fill_of_amounts clob_json_amount_field
  try_market_buy_fill_from_post_resp submit_top =
      let body =
        (if contains submit_top "resp" && is_object (at submit_top "resp")
          then some (at submit_top "resp")
          else if is_object submit_top
          then some submit_top
          else none) in
      elim body [
        | none ↦ none
        | some b ↦
            elim (or_else (clob_json_amount_field b "makingAmount")
              (clob_json_amount_field b "making_amount")) [
                | none ↦ none
                | some making ↦
                    elim (or_else (clob_json_amount_field b "takingAmount")
                      (clob_json_amount_field b "taking_amount")) [
                        | none ↦ none
                        | some taking ↦ fill_of_amounts making taking
                      ]
              ]
      ]
