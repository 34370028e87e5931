-- ===== src/Executor/Sessions.antt =====
-- src/execution/poly_daemon_client.cpp: the open descriptors over a history of starts, requests and
-- stops.
use Prim.Native.Char.{Char}
use mathlib.Core.Path.{subst}
use Prim.Native.String.{String}
use prediction_market_arbitr.Base.{
  ℕ, ◌≡◌, refl, sym, ap, ◌∙◌, Bool, not, if_intro, List, Option, none, some,
}
use prediction_market_arbitr.Executor.Daemon.{
  PolyDaemonClient, new_client, request_line, stop, start, then_read, send_request,
  request_response_jsonl,
}
use prediction_market_arbitr.Executor.System.{Result, ok, failed, thrown, unfinished, Os, write_all}
use prediction_market_arbitr.Executor.Descriptors.{IsKernel, write_all-is_open, read_line-is_open}
use prediction_market_arbitr.Executor.Starts.{
  Tidy, idle, holds, TidyAfter, start-TidyAfter, stop-Tidy,
}

abbrev pub Returned : Result Unit → Type 0
Returned (ok u) = Unit
Returned (failed m) = Unit
Returned thrown = ⊥
Returned unfinished = ⊥

module _ {E : Type 0} {os : Os E} {is_open : ℕ → E → Bool} (kernel : IsKernel os is_open)
    (fuel : ℕ) where
  then_read-is_open :
      (fd : Option ℕ) (r : Result Unit) (e : E) (x : ℕ)
      → is_open x (then_read os fuel fd (r, e)).1 ≡ is_open x e
  then_read-is_open fd (failed m) e x = refl
  then_read-is_open fd thrown e x = refl
  then_read-is_open fd unfinished e x = refl
  then_read-is_open none (ok u) e x = refl
  then_read-is_open (some fd) (ok u) e x = read_line-is_open kernel fuel 0 fd e x

  send_request-is_open :
      (to_fd from_fd : Option ℕ) (line : List Char) (e : E) (x : ℕ)
      → is_open x (send_request os fuel to_fd from_fd line e).1 ≡ is_open x e
  send_request-is_open none from_fd line e x = refl
  send_request-is_open (some fd) from_fd line e x =
      then_read-is_open from_fd (write_all os fuel fd line e).0 (write_all os fuel fd line e).1 x
      ∙ write_all-is_open kernel fuel fd line e x

  request-is_open :
      (request : String) (c : PolyDaemonClient) (e : E) (x : ℕ)
      → is_open x (request_response_jsonl os fuel request c e).1 ≡ is_open x e
  unfolding request_response_jsonl
  request-is_open request c e x =
      if_intro (λ (p : Result String × E). is_open x p.1 ≡ is_open x e) (not c.running) _ _
        (λ g. refl)
        (λ g. send_request-is_open c.to_child_fd c.from_child_fd (request_line request) e x)

  -- A history of calls on the client, each of which has returned.
  pub data Session (c : PolyDaemonClient) (e : E) : PolyDaemonClient → E → Type 0 where
    at_first : Session c e c e
    starts :
        (cmd : String) (r : Result Unit) (c1 c2 : PolyDaemonClient) (e1 e2 : E)
        → Session c e c1 e1
        → start os fuel cmd c1 e1 ≡ (r, (c2, e2))
        → Returned r
        → Session c e c2 e2
    requests :
        (request : String) (c1 : PolyDaemonClient) (e1 : E)
        → Session c e c1 e1
        → Session c e c1 (request_response_jsonl os fuel request c1 e1).1
    stops :
        (c1 : PolyDaemonClient) (e1 : E)
        → Session c e c1 e1
        → Session c e (stop os c1 e1).0 (stop os c1 e1).1

  after_return :
      (base : ℕ → Bool) (r : Result Unit) (c : PolyDaemonClient) (e : E)
      → Returned r
      → TidyAfter is_open base (r, (c, e))
      → Tidy is_open base c e
  after_return base (ok u) c e h t = t.0
  after_return base (failed m) c e h t = t.0
  after_return base thrown c e h t = elim h [ ]
  after_return base unfinished c e h t = elim h [ ]

  Tidy-request :
      (base : ℕ → Bool) (c : PolyDaemonClient) (e t : E)
      → ((x : ℕ) → is_open x t ≡ is_open x e)
      → Tidy is_open base c e
      → Tidy is_open base c t
  Tidy-request base c e t k (idle n h) = idle n (λ x. k x ∙ h x)
  Tidy-request base c e t k (holds pid a b n ha hb r h) = holds pid a b n ha hb r (λ x. k x ∙ h x)

  Session-Tidy :
      (base : ℕ → Bool) (c : PolyDaemonClient) (e : E) (c' : PolyDaemonClient) (e' : E)
      → Tidy is_open base c e
      → Session c e c' e'
      → Tidy is_open base c' e'
  Session-Tidy base c e c' e' t at_first = t
  Session-Tidy base c e c' e' t (starts cmd r c1 c2 e1 e2 s k f) = after_return base r c2 e2 f (
      subst (TidyAfter is_open base) k
        (start-TidyAfter kernel fuel base cmd c1 e1 (Session-Tidy base c e c1 e1 t s)))
  Session-Tidy base c e c' e' t (requests request c1 e1 s) =
      Tidy-request base c1 e1 _ (request-is_open request c1 e1) (Session-Tidy base c e c1 e1 t s)
  Session-Tidy base c e c' e' t (stops c1 e1 s) =
      stop-Tidy kernel base c1 e1 (Session-Tidy base c e c1 e1 t s)

  Tidy-stop :
      (base : ℕ → Bool) (c : PolyDaemonClient) (e : E)
      → Tidy is_open base c e
      → (c ≡ new_client)
      → (x : ℕ) → is_open x e ≡ base x
  Tidy-stop base c e (idle n h) k x = h x
  Tidy-stop base c e (holds pid a b n ha hb r h) k x =
      cc (ap (λ (p : PolyDaemonClient). p.running) (sym r ∙ k))

  -- After any history of starts, requests and stops, whether they succeed or fail, a stop leaves open
  -- exactly the descriptors that were open before the first start.
  pub stop_restores :
      (c : PolyDaemonClient) (e e' : E)
      → Session new_client e c e'
      → (x : ℕ) → is_open x (stop os c e').1 ≡ is_open x e
  unfolding stop
  stop_restores c e e' s x =
      let base = λ (y : ℕ). is_open y e in
      Tidy-stop base new_client (stop os c e').1
        (stop-Tidy kernel base c e' (Session-Tidy base new_client e c e' (idle refl (λ y. refl)) s))
        refl x
