-- ===== src/Pipeline/Writer.antt =====
-- apps/live_pipeline.cpp: `AsyncJsonlWriter`, as a step relation. Each step is one critical section
-- under `mu_`, or what a thread does outside it; the steps of the threads interleave freely.
use prediction_market_arbitr.Base.{ℕ, ◌<◌, ◌≡◌, Bool, true, false, List, [], ◌∷◌, ◌++◌, length}

-- The worker of `run`: at its wait, holding a row that it has taken, or returned.
pub data Hand (A : Type 0) : Type 0 where
  waiting : Hand A
  holding : A → Hand A
  returned : Hand A

-- The members, the rows of the threads inside `enqueue`, and whether the call of `stop_and_flush` that
-- set `stop_` has returned. `accepted` records the rows pushed, and `written` those that
-- `JsonlWriter::append` has been called with, oldest first. What is then in the file is not modelled:
-- src/logging/jsonl_writer.cpp opens it in append mode and does not check the stream.
pub record Writer (A : Type 0) : Type 0 where
  pub max_queue : ℕ
  pub queue : List A
  pub stop : Bool
  pub hand : Hand A
  pub entering : List A
  pub flushed : Bool
  pub accepted : List A
  pub written : List A

module _ {A : Type 0} where
  -- The constructor, which starts the worker.
  unfoldable pub new_writer : (max_queue : ℕ) → Writer A
  new_writer max_queue = record {
    max_queue = max_queue;
    queue = [];
    stop = false;
    hand = waiting;
    entering = [];
    flushed = false;
    accepted = [];
    written = [];
  }

  -- A thread leaves `enqueue` with its row pushed, the others staying.
  unfoldable pub push_row : A → List A → Writer A → Writer A
  push_row a others w = record w {
    entering = others;
    queue = w.queue ++ (a ∷ []);
    accepted = w.accepted ++ (a ∷ []);
  }

  -- The worker takes the front of the queue.
  unfoldable pub take_row : A → List A → Writer A → Writer A
  take_row a rest w = record w { hand = holding a; queue = rest }

  -- `writer_.append(row)`, as a call that is made
  unfoldable pub append_row : A → Writer A → Writer A
  append_row a w = record w { hand = waiting; written = w.written ++ (a ∷ []) }

  pub data Step (w : Writer A) : Writer A → Type 0 where
    enters : (a : A) → Step w (record w { entering = a ∷ w.entering })
    pushes :
        (l r : List A) (a : A)
        → w.entering ≡ l ++ (a ∷ r)
        → w.stop ≡ false
        → length w.queue < w.max_queue
        → Step w (push_row a (l ++ r) w)
    gives_up :
        (l r : List A) (a : A)
        → w.entering ≡ l ++ (a ∷ r)
        → w.stop ≡ true
        → Step w (record w { entering = l ++ r })
    takes :
        (a : A) (rest : List A) → w.hand ≡ waiting → w.queue ≡ a ∷ rest → Step w (take_row a rest w)
    appends : (a : A) → w.hand ≡ holding a → Step w (append_row a w)
    returns :
        w.hand ≡ waiting → w.stop ≡ true → w.queue ≡ [] → Step w (record w { hand = returned })
    stops : w.stop ≡ false → Step w (record w { stop = true })
    flushes : w.stop ≡ true → w.hand ≡ returned → Step w (record w { flushed = true })

  pub data Steps (w : Writer A) : Writer A → Type 0 where
    at_start : Steps w w
    and_then : {u v : Writer A} → Steps w u → Step u v → Steps w v
