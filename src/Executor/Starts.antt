-- ===== src/Executor/Starts.antt =====
-- src/execution/poly_daemon_client.cpp: the descriptors that `start` and `stop` leave open.
use Prim.Native.String.{String}
use prediction_market_arbitr.Base.{
  ℕ, ◌≡◌, refl, sym, ap, ◌∙◌, Bool, true, false, not, if_intro, ◌&&◌, ◌||◌, ◌==◌, is_empty, arith,
}
use prediction_market_arbitr.Executor.Daemon.{
  PolyDaemonClient, new_client, launched, announces_ready, stop, await_ready, after_fork,
  after_second_pipe, after_first_pipe, start,
}
use prediction_market_arbitr.Executor.System.{
  Result, ok, failed, thrown, unfinished, Os, Opened, pipe_ends, no_pipe, Forked, child, no_child,
  read_line,
}
use prediction_market_arbitr.Executor.Descriptors.{IsKernel, read_line-is_open}

without :
    (x a b : ℕ) (base : ℕ → Bool)
    → base a ≡ false
    → base b ≡ false
    → (not (x == b) && (not (x == a) && (x == a || (x == b || base x)))) ≡ base x
without x a b base ha hb = ground arith

module _ {E : Type 0} (is_open : ℕ → E → Bool) where
  -- The open descriptors are those of `base` and the two of the client, or those of `base` while the
  -- client has none.
  pub data Tidy (base : ℕ → Bool) (c : PolyDaemonClient) (e : E) : Type 0 where
    idle : c ≡ new_client → ((x : ℕ) → is_open x e ≡ base x) → Tidy base c e
    holds :
        (pid a b : ℕ)
        → (b == a) ≡ false
        → base a ≡ false
        → base b ≡ false
        → c ≡ record (launched pid a b) { running = true }
        → ((x : ℕ) → is_open x e ≡ (x == a || (x == b || base x)))
        → Tidy base c e

  abbrev pub TidyAfter : (base : ℕ → Bool) → Result Unit × (PolyDaemonClient × E) → Type 0
  TidyAfter base (unfinished, w) = Unit
  TidyAfter base (ok u, (c, e)) = Tidy base c e × (c.running ≡ true)
  TidyAfter base (failed m, (c, e)) = Tidy base c e × (c ≡ new_client)
  TidyAfter base (thrown, w) = Unit

module _ {E : Type 0} {os : Os E} {is_open : ℕ → E → Bool} (kernel : IsKernel os is_open) where
  open kernel use {piped, fresh, not_piped, forked, closed, terminated, reaped}

  -- After `fork`, the daemon's ends are closed.
  stop_launched-is_open :
      (pid a b : ℕ) (base : ℕ → Bool) (e : E)
      → (base a ≡ false)
      → (base b ≡ false)
      → ((x : ℕ) → is_open x e ≡ (x == a || (x == b || base x)))
      → (x : ℕ) → is_open x (stop os (launched pid a b) e).1 ≡ base x
  unfolding stop
  stop_launched-is_open pid a b base e ha hb h x =
      closed b (os.close a e) x
      ∙ ap (λ y. not (x == b) && y) (closed a e x ∙ ap (λ y. not (x == a) && y) (h x))
      ∙ without x a b base ha hb

  stop_running-is_open :
      (pid a b : ℕ) (base : ℕ → Bool) (e : E)
      → base a ≡ false
      → base b ≡ false
      → ((x : ℕ) → is_open x e ≡ (x == a || (x == b || base x)))
      → (x : ℕ) → is_open x (stop os (record (launched pid a b) { running = true }) e).1 ≡ base x
  unfolding stop
  stop_running-is_open pid a b base e ha hb h x =
      reaped pid _ x ∙ terminated pid _ x ∙ stop_launched-is_open pid a b base e ha hb h x

  pub stop-Tidy :
      (base : ℕ → Bool) (c : PolyDaemonClient) (e : E)
      → Tidy is_open base c e
      → Tidy is_open base (stop os c e).0 (stop os c e).1
  unfolding stop
  stop-Tidy base c e (idle n h) = rw n (idle refl h)
  stop-Tidy base c e (holds pid a b n ha hb k h) =
      rw k (idle refl (stop_running-is_open pid a b base e ha hb h))

  await_ready-TidyAfter :
      (pid a b : ℕ) (base : ℕ → Bool) (r : Result String) (e : E)
      → (b == a) ≡ false
      → base a ≡ false
      → base b ≡ false
      → ((x : ℕ) → is_open x e ≡ (x == a || (x == b || base x)))
      → TidyAfter is_open base (await_ready os (launched pid a b) (r, e))
  unfolding await_ready stop
  await_ready-TidyAfter pid a b base (ok line) e n ha hb h =
      if_intro (TidyAfter is_open base) (announces_ready line) _ _
        (λ g. (holds pid a b n ha hb refl h, refl))
        (λ g. (idle refl (stop_launched-is_open pid a b base e ha hb h), refl))
  await_ready-TidyAfter pid a b base (failed m) e n ha hb h =
      (idle refl (stop_launched-is_open pid a b base e ha hb h), refl)
  await_ready-TidyAfter pid a b base thrown e n ha hb h = tt
  await_ready-TidyAfter pid a b base unfinished e n ha hb h = tt

  -- What is known of the ends of two pipes beside other open descriptors.
  record Ends (base : ℕ → Bool) (a b r w : ℕ) : Type 0 where
    ab : (a == b) ≡ false
    rw_ : (r == w) ≡ false
    ra : (r == a) ≡ false
    rb : (r == b) ≡ false
    wa : (w == a) ≡ false
    wb : (w == b) ≡ false
    base_a : base a ≡ false
    base_b : base b ≡ false
    base_r : base r ≡ false
    base_w : base w ≡ false

  keeps_two :
      (base : ℕ → Bool) (a b r w x : ℕ)
      → Ends base a b r w
      → (not (x == w) && (not (x == a) && (x == r || (x == w || (x == a || (x == b || base x))))))
        ≡ (x == b || (x == r || base x))
  keeps_two base a b r w x h =
      ground (arith, h.ab, h.rw_, h.ra, h.rb, h.wa, h.wb, h.base_a, h.base_w)

  keeps_none :
      (base : ℕ → Bool) (a b r w x : ℕ)
      → Ends base a b r w
      → (not (x == w)
          && (not (x == r)
              && (not (x == b)
                  && (not (x == a) && (x == r || (x == w || (x == a || (x == b || base x))))))))
        ≡ base x
  keeps_none base a b r w x h = ground (arith, h.base_a, h.base_b, h.base_r, h.base_w)

  module _ (fuel : ℕ) (base : ℕ → Bool) where
    after_fork-TidyAfter :
        (a b r w : ℕ) (f : Forked) (e : E)
        → Ends base a b r w
        → ((x : ℕ) → is_open x e ≡ (x == r || (x == w || (x == a || (x == b || base x)))))
        → TidyAfter is_open base (after_fork os fuel new_client a b r w (f, e))
    unfolding after_fork
    after_fork-TidyAfter a b r w (no_child m) e ends h = (
      idle refl (λ x.
          closed w _ x
          ∙ ap (λ y. not (x == w) && y)
              (closed r _ x
                ∙ ap (λ y. not (x == r) && y)
                    (closed b _ x
                      ∙ ap (λ y. not (x == b) && y)
                          (closed a e x ∙ ap (λ y. not (x == a) && y) (h x))))
          ∙ keeps_none base a b r w x ends),
      refl,
    )
    after_fork-TidyAfter a b r w (child pid) e ends h =
        await_ready-TidyAfter pid b r base (read_line os fuel 0 r (os.close w (os.close a e))).0 _
          ends.rb ends.base_b ends.base_r
          (λ x.
            read_line-is_open kernel fuel 0 r (os.close w (os.close a e)) x
            ∙ closed w (os.close a e) x
            ∙ ap (λ y. not (x == w) && y) (closed a e x ∙ ap (λ y. not (x == a) && y) (h x))
            ∙ keeps_two base a b r w x ends)

    two_pipes :
        (a b r w : ℕ) (e : E)
        → (a == b) ≡ false
        → base a ≡ false
        → base b ≡ false
        → ((x : ℕ) → is_open x e ≡ (x == a || (x == b || base x)))
        → ((r == w) ≡ false) × (is_open r e ≡ false) × (is_open w e ≡ false)
        → Ends base a b r w
    two_pipes a b r w e ab ha hb h f = record {
      ab = ab;
      rw_ = f.0;
      ra = ground (arith, h r, f.1);
      rb = ground (arith, h r, f.1);
      wa = ground (arith, h w, f.2);
      wb = ground (arith, h w, f.2);
      base_a = ha;
      base_b = hb;
      base_r = ground (arith, h r, f.1);
      base_w = ground (arith, h w, f.2);
    }

    after_second_pipe-TidyAfter :
        (cmd : String) (a b : ℕ) (e : E) (o : Opened) (t : E)
        → os.pipe e ≡ (o, t)
        → (a == b) ≡ false
        → base a ≡ false
        → base b ≡ false
        → ((x : ℕ) → is_open x e ≡ (x == a || (x == b || base x)))
        → TidyAfter is_open base (after_second_pipe os fuel new_client cmd a b (o, t))
    unfolding after_second_pipe
    after_second_pipe-TidyAfter cmd a b e (no_pipe m) t p ab ha hb h = (
      idle refl (λ x.
          closed b _ x
          ∙ ap (λ y. not (x == b) && y)
              (closed a t x ∙ ap (λ y. not (x == a) && y) (not_piped m e t p x ∙ h x))
          ∙ without x a b base ha hb),
      refl,
    )
    after_second_pipe-TidyAfter cmd a b e (pipe_ends r w) t p ab ha hb h =
        after_fork-TidyAfter a b r w (os.fork cmd a w t).0 (os.fork cmd a w t).1
          (two_pipes a b r w e ab ha hb h (fresh r w e t p))
          (λ x. forked cmd a w t x ∙ piped r w e t p x ∙ ap (λ y. x == r || (x == w || y)) (h x))

    after_first_pipe-TidyAfter :
        (cmd : String) (e : E) (o : Opened) (t : E)
        → os.pipe e ≡ (o, t)
        → ((x : ℕ) → is_open x e ≡ base x)
        → TidyAfter is_open base (after_first_pipe os fuel new_client cmd (o, t))
    unfolding after_first_pipe
    after_first_pipe-TidyAfter cmd e (no_pipe m) t p h =
        (idle refl (λ x. not_piped m e t p x ∙ h x), refl)
    after_first_pipe-TidyAfter cmd e (pipe_ends a b) t p h =
        after_second_pipe-TidyAfter cmd a b t (os.pipe t).0 (os.pipe t).1 refl (fresh a b e t p).0
          (sym (h a) ∙ (fresh a b e t p).1) (sym (h b) ∙ (fresh a b e t p).2)
          (λ x. piped a b e t p x ∙ ap (λ y. x == a || (x == b || y)) (h x))

    start_new :
        (cmd : String) (e : E)
        → ((x : ℕ) → is_open x e ≡ base x)
        → TidyAfter is_open base (start os fuel cmd new_client e)
    unfolding start
    start_new cmd e h =
        if_intro (TidyAfter is_open base) (is_empty cmd) _ _ (λ g. (idle refl h, refl))
          (λ g. after_first_pipe-TidyAfter cmd e (os.pipe e).0 (os.pipe e).1 refl h)

    -- A start that fails closes every descriptor that it opened, and leaves the client as new. One that
    -- succeeds leaves open the two of the client besides those that were open.
    pub start-TidyAfter :
        (cmd : String) (c : PolyDaemonClient) (e : E)
        → Tidy is_open base c e
        → TidyAfter is_open base (start os fuel cmd c e)
    unfolding start
    start-TidyAfter cmd c e (idle n h) = rw n (start_new cmd e h)
    start-TidyAfter cmd c e (holds pid a b n ha hb k h) = rw k (holds pid a b n ha hb refl h, refl)
