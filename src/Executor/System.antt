-- ===== src/Executor/System.antt =====
-- src/execution/poly_daemon_client.cpp: the calls of the operating system, and `write_all` and
-- `read_line` over them.
use Prim.Native.Char.{Char, code}
use prediction_market_arbitr.Base.{
  ℕ, zero, suc, ◌*◌, String, if◌then◌else◌, ltb, ◌==◌, List, [], ◌∷◌, ◌⊕◌,
}

-- What a call returns: a value, `false` with an error message, an exception, or nothing yet when the
-- loops of the model have used up their rounds.
pub data Result (A : Type 0) : Type 0 where
  ok : A → Result A
  failed : String → Result A
  thrown unfinished : Result A

pub data Read : Type 0 where
  byte : Char → Read
  end_of_file interrupted_read : Read
  broken_read : String → Read

pub data Written : Type 0 where
  wrote : ℕ → Written
  interrupted_write : Written
  broken_write : String → Written

pub data Opened : Type 0 where
  pipe_ends : (reading writing : ℕ) → Opened
  no_pipe : String → Opened

pub data Forked : Type 0 where
  child : (pid : ℕ) → Forked
  no_child : String → Forked

-- The kernel and the daemon, with a state of their own. A failure carries the text of `strerror`.
pub record Os (E : Type 0) : Type 0 where
  pub pipe : E → Opened × E
  -- the child runs the command in a shell, with these descriptors as its input and output
  pub fork : (daemon_cmd : String) (stdin stdout : ℕ) → E → Forked × E
  pub write : (fd : ℕ) → List Char → E → Written × E
  pub read : (fd : ℕ) → E → Read × E
  pub close : (fd : ℕ) → E → E
  pub terminate : (pid : ℕ) → E → E
  pub reap : (pid : ℕ) → E → E

abbrev pub dropped_front : {A : Type 0} → ℕ → List A → List A
dropped_front zero xs = xs
dropped_front (suc n) [] = []
dropped_front (suc n) (x ∷ xs) = dropped_front n xs

-- A response may have this many bytes.
abbrev pub max_line : ℕ
max_line = 2 * 1024 * 1024

abbrev pub prepend : Char → Result String → Result String
prepend c (ok s) = ok (String.◌∷◌ c s)
prepend c (failed m) = failed m
prepend c thrown = thrown
prepend c unfinished = unfinished

module _ {E : Type 0} where
  abbrev pub after_write :
      (List Char → E → Result Unit × E) → List Char → Written → E → Result Unit × E
  after_write again buf (wrote n) e = again (dropped_front n buf) e
  after_write again buf interrupted_write e = again buf e
  after_write again buf (broken_write m) e = (failed ("write failed: " ⊕ m), e)

  -- `more` reads on, past a byte that is kept.
  abbrev pub after_read : (n : ℕ) (more : ℕ → E → Result String × E) → Read → E → Result String × E
  after_read n more (byte c) e =
      if code c == 10
      then (ok "", e)
      else if ltb max_line (suc n)
      then (failed "daemon response too large (>2MB)", e)
      else (let r = more (suc n) e in (prepend c r.0, r.1))
  after_read n more end_of_file e = (failed "read EOF from daemon", e)
  after_read n more interrupted_read e = more n e
  after_read n more (broken_read m) e = (failed ("read failed: " ⊕ m), e)

module _ {E : Type 0} (os : Os E) where
  -- `fuel` bounds the number of writes. A write to a pipe that no process reads raises SIGPIPE, which
  -- the program does not handle and which ends it; the model's calls are those that return.
  unfoldable pub write_all : (fuel fd : ℕ) → List Char → E → Result Unit × E
  write_all fuel fd [] e = (ok tt, e)
  write_all zero fd (c ∷ buf) e = (unfinished, e)
  write_all (suc fuel) fd (c ∷ buf) e =
      let r = os.write fd (c ∷ buf) e in after_write (write_all fuel fd) (c ∷ buf) r.0 r.1

  -- `n` bytes are read already; `fuel` bounds the number of reads.
  unfoldable pub read_line : (fuel n fd : ℕ) → E → Result String × E
  read_line zero n fd e = (unfinished, e)
  read_line (suc fuel) n fd e =
      let r = os.read fd e in after_read n (λ m. read_line fuel m fd) r.0 r.1
