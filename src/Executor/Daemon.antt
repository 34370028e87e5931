-- ===== src/Executor/Daemon.antt =====
-- src/execution/poly_daemon_client.cpp: `PolyDaemonClient`. A descriptor or a process that the source
-- writes -1 for is `none`.
use Prim.Native.Char.{Char}
use Prim.Native.String.{String}
use prediction_market_arbitr.Base.{
  ℕ, Bool, true, false, not, if◌then◌else◌, ◌&&◌, List, [], ◌∷◌, Option, none, some, ◌⊕◌, codes,
  contains_text, is_empty,
}
use prediction_market_arbitr.Executor.System.{
  Result, ok, failed, thrown, unfinished, Os, Opened, pipe_ends, no_pipe, Forked, child, no_child,
  write_all, read_line,
}

pub record PolyDaemonClient : Type 0 where
  pub running : Bool
  pub child_pid : Option ℕ
  pub to_child_fd : Option ℕ
  pub from_child_fd : Option ℕ

abbrev pub new_client : PolyDaemonClient
new_client = record { running = false; child_pid = none; to_child_fd = none; from_child_fd = none }

abbrev pub launched : (pid to_fd from_fd : ℕ) → PolyDaemonClient
launched pid to_fd from_fd = record {
  running = false;
  child_pid = some pid;
  to_child_fd = some to_fd;
  from_child_fd = some from_fd;
}

-- The line says that the daemon is ready.
abbrev pub announces_ready : String → Bool
announces_ready line =
    contains_text (codes "\"ok\"") (codes line) && contains_text (codes "ready") (codes line)

abbrev pub chars : String → List Char
chars String.[] = []
chars (String.◌∷◌ c s) = c ∷ chars s

abbrev pub request_line : String → List Char
request_line request = chars (request ⊕ "\n")

module _ {E : Type 0} (os : Os E) where
  abbrev pub close_fd : Option ℕ → E → E
  close_fd none e = e
  close_fd (some fd) e = os.close fd e

  abbrev pub end_child : Option ℕ → E → E
  end_child none e = e
  end_child (some pid) e = os.reap pid (os.terminate pid e)

  unfoldable pub stop : PolyDaemonClient → E → PolyDaemonClient × E
  stop c e =
      let closed = close_fd c.from_child_fd (close_fd c.to_child_fd e) in
      (new_client, if not c.running then closed else end_child c.child_pid closed)

  -- `start` once the ready line is read.
  unfoldable pub await_ready :
      PolyDaemonClient → Result String × E → Result Unit × (PolyDaemonClient × E)
  await_ready c (ok line, e) =
      if announces_ready line
      then (ok tt, (record c { running = true }, e))
      else (failed ("daemon unexpected first line: " ⊕ line), stop c e)
  await_ready c (failed m, e) = (failed ("daemon did not become ready: " ⊕ m), stop c e)
  await_ready c (thrown, e) = (thrown, (c, e))
  await_ready c (unfinished, e) = (unfinished, (c, e))

  module _ (fuel : ℕ) where
    -- After `fork`, in the parent; `a` and `b` are the pipe to the child, `r` and `w` the one from it.
    unfoldable pub after_fork :
        (c : PolyDaemonClient) (a b r w : ℕ) → Forked × E → Result Unit × (PolyDaemonClient × E)
    after_fork c a b r w (no_child m, e) =
        (failed ("fork failed: " ⊕ m), (c, os.close w (os.close r (os.close b (os.close a e)))))
    after_fork c a b r w (child pid, e) =
        await_ready (launched pid b r) (read_line os fuel 0 r (os.close w (os.close a e)))

    unfoldable pub after_second_pipe :
        (c : PolyDaemonClient) (daemon_cmd : String) (a b : ℕ)
        → Opened × E
        → Result Unit × (PolyDaemonClient × E)
    after_second_pipe c daemon_cmd a b (no_pipe m, e) =
        (failed ("pipe(from_child) failed: " ⊕ m), (c, os.close b (os.close a e)))
    after_second_pipe c daemon_cmd a b (pipe_ends r w, e) =
        after_fork c a b r w (os.fork daemon_cmd a w e)

    unfoldable pub after_first_pipe :
        (c : PolyDaemonClient) (daemon_cmd : String)
        → Opened × E
        → Result Unit × (PolyDaemonClient × E)
    after_first_pipe c daemon_cmd (no_pipe m, e) = (failed ("pipe(to_child) failed: " ⊕ m), (c, e))
    after_first_pipe c daemon_cmd (pipe_ends a b, e) =
        after_second_pipe c daemon_cmd a b (os.pipe e)

    unfoldable pub start :
        (daemon_cmd : String) → PolyDaemonClient → E → Result Unit × (PolyDaemonClient × E)
    start daemon_cmd c e =
        if c.running
        then (ok tt, (c, e))
        else if is_empty daemon_cmd
        then (failed "POLY_DAEMON_CMD is empty", (c, e))
        else after_first_pipe c daemon_cmd (os.pipe e)

    abbrev pub then_read : Option ℕ → Result Unit × E → Result String × E
    then_read from_fd (failed m, e) = (failed m, e)
    then_read from_fd (thrown, e) = (thrown, e)
    then_read from_fd (unfinished, e) = (unfinished, e)
    then_read none (ok u, e) = (failed "read failed: Bad file descriptor", e)
    then_read (some fd) (ok u, e) = read_line os fuel 0 fd e

    abbrev pub send_request : (to_fd from_fd : Option ℕ) → List Char → E → Result String × E
    send_request none from_fd line e = (failed "write failed: Bad file descriptor", e)
    send_request (some fd) from_fd line e = then_read from_fd (write_all os fuel fd line e)

    unfoldable pub request_response_jsonl :
        (request_json_line : String) → PolyDaemonClient → E → Result String × E
    request_response_jsonl request c e =
        if not c.running
        then (failed "daemon not running", e)
        else send_request c.to_child_fd c.from_child_fd (request_line request) e
