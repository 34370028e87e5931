-- ===== src/Executor/Answers.antt =====
-- src/execution/live_executor.cpp: what the operations make of the daemon's response.
use prediction_market_arbitr.Base.{
  String, Bool, true, false, not, ◌≡◌, refl, ◌⊎◌, inl, inr, if◌then◌else◌, if_intro, sym, Option,
  none, some, ◌⊕◌, arith,
}
use prediction_market_arbitr.Executor.Live.{refused, accepted, parsed, answered}
use prediction_market_arbitr.Executor.System.{Result, ok, failed, thrown}
use prediction_market_arbitr.Json.{Json, value_string, value_boolean}

module _ {W J : Type 0} (json : Json W J) where
  open json use {contains, at, is_object, is_string, is_boolean, get_string, get_boolean, parse}

  -- `ok` is missing, or the Boolean false.
  abbrev pub Declines : J → Type 0
  Declines resp =
      (contains resp "ok" ≡ false)
      ⊎ ((contains resp "ok" ≡ true)
          × (is_boolean (at resp "ok") ≡ true)
          × (get_boolean (at resp "ok") ≡ false))

  -- The cases of a response line, each with what the operation makes of it.
  pub data Verdict (line : String) : Result J → Type 0 where
    unreadable : parse line ≡ none → Verdict line (failed ("daemon returned non-JSON: " ⊕ line))
    success :
        (resp : J)
        → parse line ≡ some resp
        → is_object resp ≡ true
        → contains resp "ok" ≡ true
        → is_boolean (at resp "ok") ≡ true
        → get_boolean (at resp "ok") ≡ true
        → Verdict line (ok resp)
    refusal :
        (resp : J) (message : String)
        → parse line ≡ some resp
        → is_object resp ≡ true
        → Declines resp
        → ((contains resp "error" ≡ false) × (message ≡ "daemon error"))
          ⊎ ((is_string (at resp "error") ≡ true) × (message ≡ get_string (at resp "error")))
        → Verdict line (failed (message ⊕ " raw=" ⊕ line))
    exception :
        (resp : J)
        → parse line ≡ some resp
        → (is_object resp ≡ false)
          ⊎ (((contains resp "ok" ≡ true) × (is_boolean (at resp "ok") ≡ false))
              ⊎ (Declines resp
                  × (contains resp "error" ≡ true)
                  × (is_string (at resp "error") ≡ false)))
        → Verdict line thrown

  -- What `value` returns of a field; `typed` and `got` are the test of its type and its content.
  abbrev ValueOf :
      {A : Type 0} (j : J) (key : String) (typed : Bool) (got default : A) → Option A → Type 0
  ValueOf j key typed got default none =
      (is_object j ≡ false) ⊎ ((contains j key ≡ true) × (typed ≡ false))
  ValueOf j key typed got default (some x) =
      (is_object j ≡ true)
      × (((contains j key ≡ false) × (x ≡ default))
          ⊎ ((contains j key ≡ true) × (typed ≡ true) × (x ≡ got)))

  value_ValueOf :
      {A : Type 0} (j : J) (key : String) (typed : Bool) (got default : A)
      → ValueOf j key typed got default (
          if not (is_object j)
          then none
          else if not (contains j key)
          then some default
          else if typed
          then some got
          else none)
  value_ValueOf {A} j key typed got default =
      let P = ValueOf {A = A} j key typed got default in
      if_intro P (not (is_object j)) _ _ (λ e. inl (ground arith))
        (λ e.
          if_intro P (not (contains j key)) _ _ (λ e'. (ground arith, inl (ground arith, refl)))
            (λ e'.
              if_intro P typed _ _ (λ k. (ground arith, inr (ground arith, k, refl)))
                (λ k. inr (ground arith, k))))

  refused-Verdict :
      (line : String) (resp : J) (o : Option String)
      → parse line ≡ some resp
      → Declines resp
      → ValueOf resp "error"
          (is_string (at resp "error"))
          (get_string (at resp "error"))
          "daemon error"
          o
      → Verdict line (refused json line o)
  refused-Verdict line resp none p h (inl n) = exception resp p (inl n)
  refused-Verdict line resp none p h (inr k) = exception resp p (inr (inr (h, k.0, k.1)))
  refused-Verdict line resp (some m) p h (a, inl k) = refusal resp m p a h (inl k)
  refused-Verdict line resp (some m) p h (a, inr k) = refusal resp m p a h (inr (k.1, k.2))

  accepted-Verdict :
      (line : String) (resp : J) (o : Option Bool)
      → parse line ≡ some resp
      → ValueOf resp "ok" (is_boolean (at resp "ok")) (get_boolean (at resp "ok")) false o
      → Verdict line (accepted json resp line o)
  unfolding value_string
  accepted-Verdict line resp none p (inl n) = exception resp p (inl n)
  accepted-Verdict line resp none p (inr k) = exception resp p (inr (inl k))
  accepted-Verdict line resp (some true) p (a, inl k) = cc (k.1)
  accepted-Verdict line resp (some true) p (a, inr k) = success resp p a k.0 k.1 (sym k.2)
  accepted-Verdict line resp (some false) p (a, inl k) =
      refused-Verdict line resp _ p (inl k.0) (value_ValueOf resp "error" _ _ "daemon error")
  accepted-Verdict line resp (some false) p (a, inr k) =
      refused-Verdict line resp _ p (inr (k.0, k.1, sym k.2))
        (value_ValueOf resp "error" _ _ "daemon error")

  parsed-Verdict :
      (line : String) (o : Option J) → parse line ≡ o → Verdict line (parsed json line o)
  unfolding value_boolean
  parsed-Verdict line none p = unreadable p
  parsed-Verdict line (some resp) p =
      accepted-Verdict line resp _ p (value_ValueOf resp "ok" _ _ false)

  -- What a response line comes to: a success exactly for an object whose `ok` is the Boolean true; a
  -- refusal with the daemon's message where `ok` is false or missing; a failure where the line is no
  -- JSON; and an exception that leaves the operation where the document is no object, `ok` is no
  -- Boolean, or the `error` of a refusal is no text.
  pub answered-Verdict : (line : String) → Verdict line (answered json line)
  unfolding answered
  answered-Verdict line = parsed-Verdict line (parse line) refl
