-- ===== src/Runner/Retries.antt =====
-- How the retry loop of a stop-loss sale ends.
use mathlib.Core.Path.{subst}
use prediction_market_arbitr.Base.{
  ℕ, zero, suc, ◌+◌, ◌≤◌, String, Bool, some, true, false, ◌≡◌, refl, arith, Option-cases,
  Bool-cases, inl, inr, ◌⊎◌, ◌∙◌, if_intro, ap,
}
use prediction_market_arbitr.Double.{Double}
use prediction_market_arbitr.Json.{Json}
use prediction_market_arbitr.Runner.StopSell.{
  StopSellUntilFlatResult, flat_eps, no_sale, max_attempts, book_sale, after_order, attempt_sale,
  sell_loop, live_stop_sell_until_flat, see_balance, stop_order,
}
use prediction_market_arbitr.Runner.Venue.{Venue}

module _ {W J E : Type 0} ⦃d : Double W⦄ ⦃json : Json W J⦄ (v : Venue W J E) where
  open d use {le}

  -- The last call of the venue was a query of the token's balance, and this is what it told.
  abbrev pub LastTold : String → W → E → Type 0
  LastTold token balance last =
      (e : E) × (v.query_conditional_balance token e ≡ (some balance, last))

  -- How the loop ends from `out` with `n` attempts left.
  pub record IsEnd (token : String) (n : ℕ) (out : StopSellUntilFlatResult W)
      (r : StopSellUntilFlatResult W × E) : Type 0 where
    pub bounded : r.0.attempts ≤ out.attempts + n
    pub ended :
        ((r.0.flat ≡ true)
          × (le r.0.final_balance flat_eps ≡ true)
          × LastTold token r.0.final_balance r.1)
        ⊎ ((r.0.flat ≡ false) × (r.0.attempts ≡ out.attempts + n))

  -- What one attempt leaves: the loop goes on not yet flat, or it ends with next to no balance.
  pub record IsAttempt (token : String) (out : StopSellUntilFlatResult W)
      (r : Bool × StopSellUntilFlatResult W × E) : Type 0 where
    counted : r.1.attempts ≡ out.attempts
    again : r.0 ≡ true → r.1.flat ≡ out.flat
    ended :
        r.0 ≡ false
        → (r.1.flat ≡ true)
          × (le r.1.final_balance flat_eps ≡ true)
          × LastTold token r.1.final_balance r.2

  told :
      (token : String) (balance : W) (e : E)
      → (v.query_conditional_balance token e).0 ≡ some balance
      → LastTold token balance (v.query_conditional_balance token e).1
  told token balance e b = (e, ap (λ x. (x, (v.query_conditional_balance token e).1)) b)

  after_order-IsAttempt :
      (token_id : String) (mark_bid fee_rate before : W) (out : StopSellUntilFlatResult W) (e : E)
      → IsAttempt token_id out (after_order v token_id mark_bid fee_rate before out e)
  unfolding after_order book_sale
  after_order-IsAttempt token_id mark_bid fee_rate before out e =
      elim (Option-cases (v.query_conditional_balance token_id e).0) [
        | inl n ↦
            rw (n, after_order) (record { counted = refl; again = λ _. refl; ended = ground arith })
        | inr (after, b) ↦
            rw (b, after_order)
              (if_intro (IsAttempt token_id out) (le after flat_eps) _ _
                (λ low. record {
                  counted = ground arith;
                  again = ground arith;
                  ended = λ _. booked after b low;
                })
                (λ high. record {
                  counted = ground arith;
                  again = ground arith;
                  ended = ground arith;
                }))
      ]
    where
      balance-book_sale :
          (after : W) → after ≡ (book_sale mark_bid fee_rate before after out).final_balance
      balance-book_sale after = ground arith

      booked :
          (after : W)
          → (v.query_conditional_balance token_id e).0 ≡ some after
          → le after flat_eps ≡ true
          → (true ≡ true)
            × (le (book_sale mark_bid fee_rate before after out).final_balance flat_eps ≡ true)
            × LastTold token_id
                (book_sale mark_bid fee_rate before after out).final_balance
                (v.query_conditional_balance token_id e).1
      booked after b low =
          subst
            (λ x.
              (true ≡ true)
              × (le x flat_eps ≡ true)
              × LastTold token_id x (v.query_conditional_balance token_id e).1)
            (balance-book_sale after) (refl, low, told token_id after e b)

  attempt_sale-IsAttempt :
      (token_id : String) (mark_bid fee_rate : W) (out : StopSellUntilFlatResult W) (e : E)
      → IsAttempt token_id out (attempt_sale v token_id mark_bid fee_rate out e)
  unfolding attempt_sale
  attempt_sale-IsAttempt token_id mark_bid fee_rate out e =
      let q = v.query_conditional_balance token_id e in
      elim (Option-cases q.0) [
        | inl n ↦
            rw (n, attempt_sale)
              (record { counted = refl; again = λ _. refl; ended = ground arith })
        | inr (bal, b) ↦ elim (Bool-cases (le bal flat_eps)) [
          | inl low ↦
              rw (b, attempt_sale, low)
                (record {
                  counted = refl;
                  again = ground arith;
                  ended = λ _. (refl, low, told token_id bal e b);
                })
          | inr high ↦ elim (Option-cases (v.submit (stop_order token_id mark_bid bal) q.1).0) [
            | inl n ↦
                rw (b, attempt_sale, high, n)
                  (record { counted = refl; again = λ _. refl; ended = ground arith })
            | inr (receipt, r) ↦
                rw (b, attempt_sale, high, r)
                  (as_attempt _ _ _
                    (after_order-IsAttempt token_id mark_bid fee_rate bal (see_balance bal out) _))
          ]
        ]
      ]
    where
      as_attempt :
          (o : StopSellUntilFlatResult W) (bal : W) (r : Bool × StopSellUntilFlatResult W × E)
          → IsAttempt token_id (see_balance bal o) r
          → IsAttempt token_id o r
      as_attempt o bal r h = record { counted = h.counted; again = h.again; ended = h.ended }

  sell_loop-IsEnd :
      (n : ℕ) (token_id : String) (mark_bid fee_rate : W) (out : StopSellUntilFlatResult W) (e : E)
      → out.flat ≡ false
      → IsEnd token_id n out (sell_loop v n token_id mark_bid fee_rate out e)
  unfolding sell_loop
  sell_loop-IsEnd zero token_id mark_bid fee_rate out e unsold = record {
    bounded = ground arith;
    ended = inr (unsold, omega arith);
  }
  sell_loop-IsEnd (suc n) token_id mark_bid fee_rate out e unsold =
      let counted : StopSellUntilFlatResult W = record out { attempts = out.attempts + 1 } in
      let r = attempt_sale v token_id mark_bid fee_rate counted e in
      let a = attempt_sale-IsAttempt token_id mark_bid fee_rate counted e in
      elim (Bool-cases r.0) [
        | inl goes ↦
            let h = sell_loop-IsEnd n token_id mark_bid fee_rate r.1 r.2 (a.again goes ∙ unsold) in
            rw (goes, sell_loop)
              (record {
                bounded = ground (arith, h.bounded, a.counted);
                ended = ground (arith, h.ended, a.counted);
              })
        | inr ends ↦
            rw (ends, sell_loop)
              (record { bounded = ground (arith, a.counted); ended = inl (a.ended ends) })
      ]

  -- A stop-loss sale makes at most 30 attempts. If it reports that the position is flat, then its last
  -- call of the venue was a query of the token's balance, which the venue answered with the balance
  -- that it reports, at most 1e-6 shares; if not, it has used all 30 attempts.
  pub live_stop_sell_until_flat-IsEnd :
      (token_id : String) (mark_bid fee_rate : W) (e : E)
      → IsEnd token_id max_attempts no_sale
          (live_stop_sell_until_flat v token_id mark_bid fee_rate e)
  unfolding live_stop_sell_until_flat
  live_stop_sell_until_flat-IsEnd token_id mark_bid fee_rate e =
      sell_loop-IsEnd max_attempts token_id mark_bid fee_rate no_sale e refl
