-- ===== src/Tests/Daemons.antt =====
-- The daemon's client and the executor on a small machine.
use prediction_market_arbitr.Base.{true, ◌≡◌, refl, arith, [], ◌++◌, codes_eq, contains_text}
use prediction_market_arbitr.Executor.Answers.{Verdict, answered-Verdict}
use prediction_market_arbitr.Executor.Daemon.{
  PolyDaemonClient, launched, new_client, start, stop, request_response_jsonl, await_ready,
  after_fork, after_first_pipe, after_second_pipe,
}
use prediction_market_arbitr.Executor.Live.{answered}
use prediction_market_arbitr.Executor.Sessions.{at_first, starts, requests, stop_restores}
use prediction_market_arbitr.Executor.System.{ok, read_line}
use prediction_market_arbitr.Executor.Transfers.{
  all_sent, part, newline, next, waits, request_response_jsonl_returns,
}
use prediction_market_arbitr.Tests.Fixed.{Double-Fixed}
use prediction_market_arbitr.Tests.Machine.{
  Machine, machine, is_open, arriving, booted, machine-IsKernel,
}
use prediction_market_arbitr.Tests.World.{Json-Doc}

abbrev live_client : PolyDaemonClient
live_client = record (launched 7 4 5) { running = true }

request_response_jsonl_returns_example :
    request_response_jsonl machine 30 "hi" live_client (booted (arriving "yo"))
    ≡ (ok "yo", booted [])
unfolding machine
request_response_jsonl_returns_example =
    request_response_jsonl_returns machine 30 4 5 1 4 "hi" "yo" live_client (booted (arriving "yo"))
      (booted (arriving "yo")) (booted []) refl refl refl (omega arith) (omega arith) (omega arith)
      (part refl all_sent) (waits refl (next refl refl (next refl refl (newline refl refl))))

abbrev ready : Machine
ready = booted (arriving "{\"ok\":true,\"event\":\"ready\"}" ++ arriving "yo")

abbrev after_start : Machine
after_start = (start machine 60 "daemon" new_client ready).1.1

abbrev after_request : Machine
after_request = (request_response_jsonl machine 60 "hi" live_client after_start).1

a_start : start machine 60 "daemon" new_client ready ≡ (ok tt, (live_client, after_start))
unfolding machine start after_first_pipe after_second_pipe after_fork await_ready read_line codes_eq
    contains_text
a_start = refl

stop_restores_example : is_open 4 (stop machine live_client after_request).1 ≡ is_open 4 ready
stop_restores_example =
    stop_restores machine-IsKernel 60 live_client ready after_request
      (requests "hi" live_client after_start
        (starts "daemon" (ok tt) new_client live_client ready after_start at_first a_start tt))
      4

answered-Verdict_example : Verdict Json-Doc "refused" (answered Json-Doc "refused")
answered-Verdict_example = answered-Verdict Json-Doc "refused"
