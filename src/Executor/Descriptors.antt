-- ===== src/Executor/Descriptors.antt =====
-- src/execution/poly_daemon_client.cpp: the descriptors that the client holds open.
use Prim.Native.Char.{Char, code}
use Prim.Native.String.{String}
use prediction_market_arbitr.Base.{
  ℕ, zero, suc, ◌≡◌, refl, ◌∙◌, Bool, false, not, if_intro, ◌&&◌, ◌||◌, ltb, ◌==◌, List, [], ◌∷◌,
}
use prediction_market_arbitr.Executor.System.{
  Result, Os, Read, byte, end_of_file, interrupted_read, broken_read, Written, wrote,
  interrupted_write, broken_write, pipe_ends, no_pipe, dropped_front, max_line, after_write,
  after_read, write_all, read_line,
}

-- What the system documents of the process's open descriptors: `pipe` opens two that were not open,
-- `close` closes one, and the other calls leave them alone.
pub record IsKernel {E : Type 0} (os : Os E) (is_open : ℕ → E → Bool) : Type 0 where
  pub piped :
      (r w : ℕ) (e t : E)
      → os.pipe e ≡ (pipe_ends r w, t)
      → (x : ℕ) → is_open x t ≡ (x == r || (x == w || is_open x e))
  pub fresh :
      (r w : ℕ) (e t : E)
      → os.pipe e ≡ (pipe_ends r w, t)
      → ((r == w) ≡ false) × (is_open r e ≡ false) × (is_open w e ≡ false)
  pub not_piped :
      (m : String) (e t : E) → os.pipe e ≡ (no_pipe m, t) → (x : ℕ) → is_open x t ≡ is_open x e
  pub forked :
      (cmd : String) (a b : ℕ) (e : E) (x : ℕ) → is_open x (os.fork cmd a b e).1 ≡ is_open x e
  pub written :
      (fd : ℕ) (buf : List Char) (e : E) (x : ℕ) → is_open x (os.write fd buf e).1 ≡ is_open x e
  pub was_read : (fd : ℕ) (e : E) (x : ℕ) → is_open x (os.read fd e).1 ≡ is_open x e
  pub closed : (fd : ℕ) (e : E) (x : ℕ) → is_open x (os.close fd e) ≡ (not (x == fd) && is_open x e)
  pub terminated : (pid : ℕ) (e : E) (x : ℕ) → is_open x (os.terminate pid e) ≡ is_open x e
  pub reaped : (pid : ℕ) (e : E) (x : ℕ) → is_open x (os.reap pid e) ≡ is_open x e

module _ {E : Type 0} {os : Os E} {is_open : ℕ → E → Bool} (kernel : IsKernel os is_open) where
  open kernel use {piped, fresh, not_piped, forked, written, was_read, closed, terminated, reaped}

  after_write-is_open :
      (again : List Char → E → Result Unit × E) (buf : List Char) (w : Written) (e : E) (x : ℕ)
      → ((b : List Char) (t : E) → is_open x (again b t).1 ≡ is_open x t)
      → is_open x (after_write again buf w e).1 ≡ is_open x e
  after_write-is_open again buf (wrote n) e x h = h (dropped_front n buf) e
  after_write-is_open again buf interrupted_write e x h = h buf e
  after_write-is_open again buf (broken_write m) e x h = refl

  pub write_all-is_open :
      (fuel fd : ℕ) (buf : List Char) (e : E) (x : ℕ)
      → is_open x (write_all os fuel fd buf e).1 ≡ is_open x e
  unfolding write_all
  write_all-is_open zero fd [] e x = refl
  write_all-is_open (suc fuel) fd [] e x = refl
  write_all-is_open zero fd (c ∷ buf) e x = refl
  write_all-is_open (suc fuel) fd (c ∷ buf) e x =
      after_write-is_open (write_all os fuel fd) (c ∷ buf) (os.write fd (c ∷ buf) e).0
        (os.write fd (c ∷ buf) e).1 x (λ b t. write_all-is_open fuel fd b t x)
      ∙ written fd (c ∷ buf) e x

  after_read-is_open :
      (n : ℕ) (more : ℕ → E → Result String × E) (r : Read) (e : E) (x : ℕ)
      → ((m : ℕ) (t : E) → is_open x (more m t).1 ≡ is_open x t)
      → is_open x (after_read n more r e).1 ≡ is_open x e
  after_read-is_open n more (byte c) e x h =
      if_intro (λ (p : Result String × E). is_open x p.1 ≡ is_open x e) (code c == 10) _ _
        (λ g. refl)
        (λ g.
          if_intro (λ (p : Result String × E). is_open x p.1 ≡ is_open x e) (ltb max_line (suc n)) _
            _ (λ g'. refl) (λ g'. h (suc n) e))
  after_read-is_open n more end_of_file e x h = refl
  after_read-is_open n more interrupted_read e x h = h n e
  after_read-is_open n more (broken_read m) e x h = refl

  pub read_line-is_open :
      (fuel n fd : ℕ) (e : E) (x : ℕ) → is_open x (read_line os fuel n fd e).1 ≡ is_open x e
  unfolding read_line
  read_line-is_open zero n fd e x = refl
  read_line-is_open (suc fuel) n fd e x =
      after_read-is_open n (λ m. read_line os fuel m fd) (os.read fd e).0 (os.read fd e).1 x
        (λ m t. read_line-is_open fuel m fd t x)
      ∙ was_read fd e x
