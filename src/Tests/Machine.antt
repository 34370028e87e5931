-- ===== src/Tests/Machine.antt =====
-- A machine for the tests: descriptors are numbered upwards, a write takes all of its bytes, and a read
-- takes the next of the reads that are given.
use prediction_market_arbitr.Base.{
  ℕ, suc, String, Bool, true, false, not, ◌≡◌, refl, sym, ap, ltb, ◌==◌, ◌&&◌, ◌||◌, if◌then◌else◌,
  List, [], ◌∷◌, ◌++◌, map, length, arith,
}
use prediction_market_arbitr.Executor.Daemon.{chars}
use prediction_market_arbitr.Executor.Descriptors.{IsKernel}
use prediction_market_arbitr.Executor.System.{
  Os, Read, byte, end_of_file, interrupted_read, wrote, Opened, pipe_ends, no_pipe, child,
}

pub record Machine : Type 0 where
  pub next_fd : ℕ
  pub held : ℕ → Bool
  pub incoming : List Read

abbrev next_read : List Read → Machine → Read × Machine
next_read [] e = (end_of_file, e)
next_read (r ∷ rs) e = (r, record e { incoming = rs })

unfoldable pub machine : Os Machine
machine = record {
  pipe = λ e. (
    pipe_ends e.next_fd (suc e.next_fd),
    record e {
      next_fd = suc (suc e.next_fd);
      held = λ x. if ltb x e.next_fd then e.held x else true;
    },
  );
  fork = λ cmd a b e. (child 7, e);
  write = λ fd buf e. (wrote (length buf), e);
  read = λ fd e. next_read e.incoming e;
  close = λ fd e. record e { held = λ x. not (x == fd) && e.held x };
  terminate = λ pid e. e;
  reap = λ pid e. e;
}

unfoldable pub is_open : ℕ → Machine → Bool
is_open x e = ltb x e.next_fd && e.held x

-- A line that is read byte by byte, after one interruption.
abbrev pub arriving : String → List Read
arriving s = interrupted_read ∷ (map byte (chars s) ++ (map byte (chars "\n")))

abbrev pub booted : List Read → Machine
booted reads = record { next_fd = 3; held = λ x. true; incoming = reads }

abbrev reading_end : Opened → ℕ
reading_end (pipe_ends r w) = r
reading_end (no_pipe m) = 0

abbrev writing_end : Opened → ℕ
writing_end (pipe_ends r w) = w
writing_end (no_pipe m) = 0

abbrev is_pipe : Opened → Bool
is_pipe (pipe_ends r w) = true
is_pipe (no_pipe m) = false

piped_at :
    (n x : ℕ) (b : Bool)
    → (ltb x (suc (suc n)) && (if ltb x n then b else true))
      ≡ (x == n || (x == suc n || (ltb x n && b)))
piped_at n x b = ground arith

not_self : (n : ℕ) → ltb n n ≡ false
not_self n = ground arith

not-next : (n : ℕ) → ((n == suc n) ≡ false) × (ltb (suc n) n ≡ false)
not-next n = ground arith

read-is_open : (rs : List Read) (e : Machine) (x : ℕ) → is_open x (next_read rs e).1 ≡ is_open x e
unfolding is_open
read-is_open [] e x = refl
read-is_open (r ∷ rs) e x = refl

closed_at : (a b c : Bool) → (a && (not b && c)) ≡ (not b && (a && c))
closed_at a b c = ground arith

pub machine-IsKernel : IsKernel machine is_open
unfolding machine is_open
machine-IsKernel = record {
  piped = λ r w e t p x.
      rw
        (
          sym (ap (λ (q : Opened × Machine). reading_end q.0) p),
          sym (ap (λ (q : Opened × Machine). writing_end q.0) p),
          sym (ap (λ (q : Opened × Machine). q.1) p),
        )
        (piped_at e.next_fd x (e.held x));
  fresh = λ r w e t p.
      rw
        (
          sym (ap (λ (q : Opened × Machine). reading_end q.0) p),
          sym (ap (λ (q : Opened × Machine). writing_end q.0) p),
        )
        ((not-next e.next_fd).0, rw (not_self e.next_fd) refl, rw ((not-next e.next_fd).1) refl);
  not_piped = λ m e t p. cc (ap (λ (q : Opened × Machine). is_pipe q.0) p);
  forked = λ cmd a b e x. refl;
  written = λ fd buf e x. refl;
  was_read = λ fd e x. read-is_open e.incoming e x;
  closed = λ fd e x. closed_at (ltb x e.next_fd) (x == fd) (e.held x);
  terminated = λ pid e x. refl;
  reaped = λ pid e x. refl;
}
