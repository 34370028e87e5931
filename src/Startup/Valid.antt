-- ===== src/Startup/Valid.antt =====
-- apps/btc_poly_runner.cpp: what the settings satisfy that the arguments are accepted with.
use prediction_market_arbitr.Base.{
  IfSome, or_else, ℕ, ℤ, pos, ◌*ℤ◌, String, Bool, true, false, not, ◌&&◌, ◌≡◌, refl, ◌⊎◌, inl, inr,
  List, [], ◌∷◌, Option, none, some, Bool-cases, is_empty, if_intro, pos_part, arith,
}
use prediction_market_arbitr.Double.{Double}
use prediction_market_arbitr.Runner.Pricing.{clamp_sigma}
use prediction_market_arbitr.Runner.State.{Config}
use prediction_market_arbitr.Startup.Arguments.{
  feed_option, sigma_option, strategy_option, entry_option, valued, flag, parse_arguments,
}
use prediction_market_arbitr.Startup.Parsed.{
  Parsed, go, exits, crashes, then_parse, after_option, persist_ns,
}
use prediction_market_arbitr.Startup.Checks.{
  window_refused, range_refused, clamps_refused, check_options, configure,
}
use prediction_market_arbitr.Startup.Options.{Options, Environment, defaults, initial}

-- A property of the value that is gone on with.
abbrev pub IfGoes : {A : Type 0} → (A → Type 0) → Parsed A → Type 0
IfGoes P (go a) = P a
IfGoes P (exits n) = Unit
IfGoes P crashes = Unit

pub IfGoes-then :
    {A B : Type 0} (P : A → Type 0) (Q : B → Type 0) (p : Parsed A) (f : A → Parsed B)
    → IfGoes P p
    → ((a : A) → P a → IfGoes Q (f a))
    → IfGoes Q (then_parse p f)
IfGoes-then P Q (go a) f h k = k a h
IfGoes-then P Q (exits n) f h k = tt
IfGoes-then P Q crashes f h k = tt

IfGoes-after_option :
    {A : Type 0} (P : A → Type 0) (o : Option (Parsed A)) (p : Parsed A) (f g : A → Parsed A)
    → IfSome (IfGoes P) o
    → IfGoes P p
    → ((a : A) → P a → IfGoes P (f a))
    → ((a : A) → P a → IfGoes P (g a))
    → IfGoes P (after_option o f p g)
IfGoes-after_option P (some q) p f g h k l m = IfGoes-then P P q f h l
IfGoes-after_option P none p f g h k l m = IfGoes-then P P p g k m

or_else-IfSome :
    {A : Type 0} (P : A → Type 0) (x y : Option A)
    → IfSome P x
    → IfSome P y
    → IfSome P (or_else x y)
or_else-IfSome P none y h k = k
or_else-IfSome P (some x) y h k = h

or_of_not-and : (a b : Bool) → a && b ≡ false → (a ≡ false) ⊎ (b ≡ false)
or_of_not-and true b h = inr h
or_of_not-and false b h = inl refl

persist_ns_pos : (ms : ℤ) → (n : ℕ) × (persist_ns ms ≡ pos n)
unfolding ◌*ℤ◌
persist_ns_pos ms = (pos_part (persist_ns ms), ground arith)

module _ {W : Type 0} ⦃d : Double W⦄ where
  open d use {lit, lt, le, is_finite}

  -- The settings that each option checks as it is read.
  pub record IsUnsigned (c : Config W) : Type 0 where
    pub early : lt c.close_early_threshold (lit 0 0) ≡ false
    pub loss : lt c.stop_loss_frac (lit 0 0) ≡ false
    pub spend : lt c.fixed_spend_usd (lit 0 0) ≡ false

  abbrev Unsigned : Options W → Type 0
  Unsigned o = IsUnsigned o.settings

  feed_option-Unsigned :
      (a v : String) (o : Options W) → Unsigned o → IfSome (IfGoes Unsigned) (feed_option a v o)
  unfolding feed_option
  feed_option-Unsigned a v o h = ground arith

  sigma_option-Unsigned :
      (a v : String) (o : Options W) → Unsigned o → IfSome (IfGoes Unsigned) (sigma_option a v o)
  unfolding sigma_option
  sigma_option-Unsigned a v o h = ground arith

  strategy_option-Unsigned :
      (a v : String) (o : Options W) → Unsigned o → IfSome (IfGoes Unsigned) (strategy_option a v o)
  unfolding strategy_option
  strategy_option-Unsigned a v o h = ground arith

  entry_option-Unsigned :
      (a v : String) (o : Options W) → Unsigned o → IfSome (IfGoes Unsigned) (entry_option a v o)
  unfolding entry_option
  entry_option-Unsigned a v o h = ground arith

  flag-Unsigned : (a : String) (o : Options W) → Unsigned o → IfGoes Unsigned (flag a o)
  unfolding flag
  flag-Unsigned a o h = ground arith

  valued-Unsigned :
      (a v : String) (o : Options W) → Unsigned o → IfSome (IfGoes Unsigned) (valued a v o)
  unfolding valued
  valued-Unsigned a v o h =
      or_else-IfSome (IfGoes Unsigned) (feed_option a v o) _ (feed_option-Unsigned a v o h) (
        or_else-IfSome (IfGoes Unsigned) (sigma_option a v o) _ (sigma_option-Unsigned a v o h) (
          or_else-IfSome (IfGoes Unsigned) (strategy_option a v o) (entry_option a v o)
            (strategy_option-Unsigned a v o h) (entry_option-Unsigned a v o h)))

  parse_arguments-Unsigned :
      (args : List String) (o : Options W) → Unsigned o → IfGoes Unsigned (parse_arguments args o)
  unfolding parse_arguments
  parse_arguments-Unsigned [] o h = h
  parse_arguments-Unsigned (a ∷ []) o h = flag-Unsigned a o h
  parse_arguments-Unsigned (a ∷ v ∷ rest) o h =
      IfGoes-after_option Unsigned (valued a v o) (flag a o) (parse_arguments rest)
        (parse_arguments (v ∷ rest)) (valued-Unsigned a v o h) (flag-Unsigned a o h)
        (λ o'. parse_arguments-Unsigned rest o') (λ o'. parse_arguments-Unsigned (v ∷ rest) o')

  -- What the settings satisfy that are gone on with. Each test is the code's, so that a NaN passes
  -- where the code lets it pass.
  pub record IsSettled (c : Config W) : Type 0 where
    pub unsigned : IsUnsigned c
    pub window :
        (c.use_entry_elapsed_window ≡ false)
        ⊎ (lt c.entry_elapsed_max_sec c.entry_elapsed_min_sec ≡ false)
    pub asks :
        (c.use_buy_ask_range ≡ false)
        ⊎ ((is_finite c.buy_ask_min ≡ true)
            × (is_finite c.buy_ask_max ≡ true)
            × (lt c.buy_ask_min (lit 0 0) ≡ false)
            × (lt (lit 1 0) c.buy_ask_max ≡ false)
            × (lt c.buy_ask_max c.buy_ask_min ≡ false))
    pub clamps :
        (le c.sigma_clamp_min (lit 0 0) ≡ false)
        × (le c.sigma_clamp_max (lit 0 0) ≡ false)
        × (lt c.sigma_clamp_max c.sigma_clamp_min ≡ false)
    pub persists : (ms : ℕ) × (c.edge_persist_ns ≡ pos ms)
    pub clamped : (x : W) × (c.sigma_fallback ≡ clamp_sigma x c.sigma_clamp_min c.sigma_clamp_max)

  asks_of_accepted :
      (c : Config W)
      → range_refused c ≡ false
      → (c.use_buy_ask_range ≡ false)
        ⊎ ((is_finite c.buy_ask_min ≡ true)
            × (is_finite c.buy_ask_max ≡ true)
            × (lt c.buy_ask_min (lit 0 0) ≡ false)
            × (lt (lit 1 0) c.buy_ask_max ≡ false)
            × (lt c.buy_ask_max c.buy_ask_min ≡ false))
  asks_of_accepted c h = elim (Bool-cases c.use_buy_ask_range) [
    | inl used ↦ inr (ground (arith, used, h))
    | inr off ↦ inl off
  ]

  check_options-IsSettled :
      (o : Options W)
      → Unsigned o
      → IfGoes (λ (q : Options W). IsSettled q.settings) (check_options o)
  unfolding check_options
  check_options-IsSettled o h =
      if_intro (IfGoes P) (window_refused o.settings) (exits 2) _ (λ _. tt)
        λ w.
          if_intro (IfGoes P) (range_refused o.settings) (exits 2) _ (λ _. tt)
            λ r.
              if_intro (IfGoes P) (not o.poly_discover && is_empty o.poly_event_slug) (exits 2) _
                (λ _. tt)
                λ s.
                  if_intro (IfGoes P) (clamps_refused o.settings) (exits 2) _ (λ _. tt)
                    λ k. record {
                      unsigned = ground (arith, h);
                      window = or_of_not-and o.settings.use_entry_elapsed_window _ w;
                      asks = asks_of_accepted o.settings r;
                      clamps = ground (arith, k);
                      persists = persist_ns_pos o.edge_persist_ms;
                      clamped = (o.settings.sigma_fallback, refl);
                    }
    where
      P : Options W → Type 0
      P q = IsSettled q.settings

module _ (W : Type 0) ⦃d : Double W⦄ where
  open d use {lit, lt}

  pub configure-IsSettled :
      (live_execution : Bool) (env : Environment) (args : List String)
      → lt (lit 0 0) (lit 0 0) ≡ false
      → lt (lit 4 1) (lit 0 0) ≡ false
      → lt (lit 1 0) (lit 0 0) ≡ false
      → IfGoes (λ (o : Options W). IsSettled o.settings) (configure live_execution env args)
  unfolding configure initial defaults
  configure-IsSettled live_execution env args zero loss spend =
      IfGoes-then (λ (o : Options W). IsUnsigned o.settings) (λ o. IsSettled o.settings)
        (parse_arguments args (initial live_execution env)) check_options
        (parse_arguments-Unsigned args (initial live_execution env)
          (record { early = zero; loss = loss; spend = spend }))
        check_options-IsSettled
