-- ===== src/Backtest/Attempts.antt =====
-- src/sim/latency_backtest.cpp: the rows of a sweep.
use mathlib.Core.Path.{subst}
use prediction_market_arbitr.Base.{
  ℕ, suc, ◌+◌, ◌≤◌, ℤ, ◌≡◌, refl, List, [], ◌∷◌, Option, none, some, length, arith,
}
use prediction_market_arbitr.Backtest.Events.{LogEvent, Signal, ◌>>=◌}
use prediction_market_arbitr.Backtest.Sweep.{
  SimConfig, SimResultRow, signal_gain, attempted, sweep_row, new_row, sweep_rows,
  run_latency_sweep,
}
use prediction_market_arbitr.Double.{Double}
use prediction_market_arbitr.Json.{Json}

-- A property of the result, unless an exception ends the call.
abbrev pub Unless : {A : Type 0} → (A → Type 0) → Option A → Type 0
Unless P none = Unit
Unless P (some a) = P a

bind-Unless :
    {A B : Type 0} (P : A → Type 0) (Q : B → Type 0) (o : Option A) (f : A → Option B)
    → Unless P o
    → ((a : A) → P a → Unless Q (f a))
    → Unless Q (o >>= f)
bind-Unless P Q none f h k = tt
bind-Unless P Q (some a) f h k = k a h

always : {A : Type 0} (o : Option A) → Unless (λ a. Unit {0}) o
always none = tt
always (some a) = tt

module _ {W : Type 0} (n : ℕ) where
  -- The row of this latency, with `n` attempts and at most as many fills.
  pub record IsRowOf (latency : ℤ) (row : SimResultRow W) : Type 0 where
    pub latency_ms : row.latency_ms ≡ latency
    pub attempts : row.attempts ≡ n
    pub fills : row.fills ≤ n

  -- One row for each latency, in order.
  abbrev pub RowsOf : List ℤ → List (SimResultRow W) → Type 0
  RowsOf [] [] = Unit
  RowsOf [] (r ∷ rs) = ⊥
  RowsOf (l ∷ ls) [] = ⊥
  RowsOf (l ∷ ls) (r ∷ rs) = IsRowOf l r × RowsOf ls rs

module _ {W J : Type 0} ⦃d : Double W⦄ (json : Json W J) (m : List (LogEvent J))
    (cfg : SimConfig W) where
  attempted-IsRowOf :
      (n : ℕ) (latency : ℤ) (row : SimResultRow W) (gain : Option W)
      → IsRowOf n latency row
      → IsRowOf (suc n) latency (attempted json row gain)
  attempted-IsRowOf n latency row none h = record {
    latency_ms = h.latency_ms;
    attempts = omega (arith, h.attempts);
    fills = omega (arith, h.fills);
  }
  attempted-IsRowOf n latency row (some adj) h = record {
    latency_ms = h.latency_ms;
    attempts = omega (arith, h.attempts);
    fills = omega (arith, h.fills);
  }

  sweep_row-IsRowOf :
      (ss : List (Signal W)) (n si : ℕ) (latency : ℤ) (row : SimResultRow W)
      → IsRowOf n latency row
      → Unless (IsRowOf (n + length ss) latency) (sweep_row json m cfg si ss row)
  unfolding sweep_row
  sweep_row-IsRowOf [] n si latency row h = record {
    latency_ms = h.latency_ms;
    attempts = omega (arith, h.attempts);
    fills = omega (arith, h.fills);
  }
  sweep_row-IsRowOf (s ∷ ss) n si latency row h =
      let e : suc n + length ss ≡ n + suc (length ss) = omega arith in
      bind-Unless (λ a. Unit {0}) (IsRowOf (n + suc (length ss)) latency)
        (signal_gain json m cfg row.latency_ms si s) _
        (always (signal_gain json m cfg row.latency_ms si s))
        (λ gain u.
          subst
            (λ (k : ℕ).
              Unless (IsRowOf k latency)
                (sweep_row json m cfg (suc si) ss (attempted json row gain)))
            e
            (sweep_row-IsRowOf ss (suc n) (suc si) latency (attempted json row gain)
              (attempted-IsRowOf n latency row gain h)))

  sweep_rows-RowsOf :
      (signals : List (Signal W)) (ls : List ℤ)
      → Unless (RowsOf (length signals) ls) (sweep_rows json m cfg signals ls)
  unfolding sweep_rows
  sweep_rows-RowsOf signals [] = tt
  sweep_rows-RowsOf signals (l ∷ ls) =
      let n = length signals in
      let e : 0 + n ≡ n = omega arith in
      bind-Unless (IsRowOf n l) (RowsOf n (l ∷ ls))
        (sweep_row json m cfg 0 signals (new_row json l)) _
        (subst (λ (k : ℕ). Unless (IsRowOf k l) (sweep_row json m cfg 0 signals (new_row json l))) e
          (sweep_row-IsRowOf signals 0 0 l (new_row json l)
            (record { latency_ms = refl; attempts = refl; fills = omega arith })))
        (λ row h.
          bind-Unless (RowsOf n ls) (RowsOf n (l ∷ ls)) (sweep_rows json m cfg signals ls) _
            (sweep_rows-RowsOf signals ls) (λ rows k. (h, k)))

  -- A sweep gives one row for each latency, in their order, unless an event lacks a field that is read
  -- of it; each row counts every signal as an attempt, and no more fills than attempts.
  pub run_latency_sweep-RowsOf :
      (signals : List (Signal W))
      → Unless (RowsOf (length signals) cfg.latencies_ms) (run_latency_sweep json signals m cfg)
  unfolding run_latency_sweep
  run_latency_sweep-RowsOf signals = sweep_rows-RowsOf signals cfg.latencies_ms
