-- ===== src/Executor/Transfers.antt =====
-- src/execution/poly_daemon_client.cpp: a request and its response, over the reads and writes that the
-- operating system carries out.
use Prim.Native.Char.{Char, code}
use Prim.Native.String.{String}
use prediction_market_arbitr.Base.{
  ℕ, zero, suc, ◌+◌, ◌≤◌, ◌≡◌, refl, true, false, ltb, ◌==◌, List, [], ◌∷◌, some, length, arith,
}
use prediction_market_arbitr.Executor.Daemon.{
  PolyDaemonClient, chars, request_line, request_response_jsonl,
}
use prediction_market_arbitr.Executor.System.{
  Result, ok, Os, byte, interrupted_read, wrote, interrupted_write, dropped_front, max_line,
  after_read, write_all, read_line,
}

abbrev pub size : String → ℕ
size s = length (chars s)

not-ltb : (a b : ℕ) → b ≤ a → ltb a b ≡ false
not-ltb a b h = ground arith

none_left : (k : ℕ) → suc k ≤ 0 → ⊥
none_left k h = omega (arith, h)

module _ {E : Type 0} (os : Os E) where
  -- The kernel takes all of the bytes, in `k` writes, some of them interrupted.
  pub data Sends (fd : ℕ) : List Char → E → E → ℕ → Type 0 where
    all_sent : {e : E} → Sends fd [] e e 0
    part :
        {c : Char} {buf : List Char} {n : ℕ} {e t u : E} {k : ℕ}
        → os.write fd (c ∷ buf) e ≡ (wrote n, t)
        → Sends fd (dropped_front n (c ∷ buf)) t u k
        → Sends fd (c ∷ buf) e u (suc k)
    resumed :
        {c : Char} {buf : List Char} {e t u : E} {k : ℕ}
        → os.write fd (c ∷ buf) e ≡ (interrupted_write, t)
        → Sends fd (c ∷ buf) t u k
        → Sends fd (c ∷ buf) e u (suc k)

  -- The daemon sends this line and a newline, which take `k` reads, some of them interrupted.
  pub data Receives (fd : ℕ) : String → E → E → ℕ → Type 0 where
    newline :
        {c : Char} {e t : E}
        → (code c == 10) ≡ true
        → os.read fd e ≡ (byte c, t)
        → Receives fd "" e t 1
    next :
        {c : Char} {s : String} {e t u : E} {k : ℕ}
        → (code c == 10) ≡ false
        → os.read fd e ≡ (byte c, t)
        → Receives fd s t u k
        → Receives fd (String.◌∷◌ c s) e u (suc k)
    waits :
        {s : String} {e t u : E} {k : ℕ}
        → os.read fd e ≡ (interrupted_read, t)
        → Receives fd s t u k
        → Receives fd s e u (suc k)

  write_all-Sends :
      (fuel fd : ℕ) (buf : List Char) (e u : E) (k : ℕ)
      → k ≤ fuel
      → Sends fd buf e u k
      → write_all os fuel fd buf e ≡ (ok tt, u)
  unfolding write_all
  write_all-Sends zero fd [] e u k h all_sent = refl
  write_all-Sends (suc f) fd [] e u k h all_sent = refl
  write_all-Sends zero fd (c ∷ buf) e u zero h r = elim r [ ]
  write_all-Sends (suc f) fd (c ∷ buf) e u zero h r = elim r [ ]
  write_all-Sends zero fd (c ∷ buf) e u (suc k) h r = elim (none_left k h) [ ]
  write_all-Sends (suc f) fd (c ∷ buf) e u (suc k) h (part w r) =
      rw w (write_all-Sends f fd _ _ u k (omega (arith, h)) r)
  write_all-Sends (suc f) fd (c ∷ buf) e u (suc k) h (resumed w r) =
      rw w (write_all-Sends f fd (c ∷ buf) _ u k (omega (arith, h)) r)

  after_read-byte :
      (n : ℕ) (c : Char) (more : ℕ → E → Result String × E) (s : String) (t u : E)
      → (code c == 10) ≡ false
      → n + suc (size s) ≤ max_line
      → more (suc n) t ≡ (ok s, u)
      → after_read n more (byte c) t ≡ (ok (String.◌∷◌ c s), u)
  after_read-byte n c more s t u g b h = rw (g, not-ltb max_line (suc n) (omega (arith, b)), h) refl

  read_line-Receives :
      (fuel n fd : ℕ) (s : String) (e u : E) (k : ℕ)
      → k ≤ fuel
      → n + size s ≤ max_line
      → Receives fd s e u k
      → read_line os fuel n fd e ≡ (ok s, u)
  unfolding read_line
  read_line-Receives zero n fd s e u zero h b r = elim r [ ]
  read_line-Receives (suc f) n fd s e u zero h b r = elim r [ ]
  read_line-Receives zero n fd s e u (suc k) h b r = elim (none_left k h) [ ]
  read_line-Receives (suc f) n fd String.[] e u k h b (newline g w) = rw (w, g) refl
  read_line-Receives (suc f) n fd (String.◌∷◌ c s) e u (suc k) h b (next g w r) = rw w (
      after_read-byte n c (λ m. read_line os f m fd) s _ u g b
        (read_line-Receives f (suc n) fd s _ u k (omega (arith, h)) (omega (arith, b)) r))
  read_line-Receives (suc f) n fd s e u (suc k) h b (waits w r) =
      rw w (read_line-Receives f n fd s _ u k (omega (arith, h)) b r)

  -- On a running daemon, if the kernel takes the request and a newline in `k` writes, and the daemon
  -- then sends a line of at most 2 MiB in `m` reads, the call returns that line, whatever is
  -- interrupted, given as many rounds.
  pub request_response_jsonl_returns :
      (fuel to_fd from_fd k m : ℕ) (request response : String) (c : PolyDaemonClient) (e t u : E)
      → c.running ≡ true
      → c.to_child_fd ≡ some to_fd
      → c.from_child_fd ≡ some from_fd
      → k ≤ fuel
      → m ≤ fuel
      → size response ≤ max_line
      → Sends to_fd (request_line request) e t k
      → Receives from_fd response t u m
      → request_response_jsonl os fuel request c e ≡ (ok response, u)
  unfolding request_response_jsonl
  request_response_jsonl_returns fuel to_fd from_fd k m request response c e t u r to from hk hm b s
        g =
      rw (r, to, from, request_response_jsonl, write_all-Sends fuel to_fd _ e t k hk s)
        (read_line-Receives fuel 0 from_fd response t u m hm (omega (arith, b)) g)
