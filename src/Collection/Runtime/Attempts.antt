-- ===== src/Collection/Runtime/Attempts.antt =====
-- The attempts of a run, and what its record says of them.
use Prim.Native.Nat.{min}
use sentinel_drive.Prelude.{
  ℕ, suc, zero, ◌+◌, ◌*◌, ◌^◌, ◌≤◌, String, ◌≡◌, refl, Option, some, List, [], ◌∷◌, ◌++◌, ◌⊎◌, inl,
  inr, length, length-append, All, All-append, arith, string_Eq, map,
}
use sentinel_drive.Sanitize.{Error, sanitize_runtime_error}
use sentinel_drive.Collection.Contracts.{SourceConfig, ConnectorResult, to_raw_record}
use sentinel_drive.Collection.Runtime.{
  RuntimeState, sleep_for, backoff_after, wait_for_rate_limit, Ending, collected, gave_up,
  Attempted, Collect, on_result, succeeded, failed_for_good, after_sleep, state_after_error,
  run_attempts, run_connector, run_record, Clock, cursor_of, SourceRunRecord, success, failed,
  skipped, RunStatus,
}

-- Numbers of attempts: `count` of them behind number `n`.
abbrev pub attempt_numbers : ℕ → ℕ → List ℕ
attempt_numbers n zero = []
attempt_numbers n (suc count) = suc n ∷ attempt_numbers (suc n) count

abbrev pub Fails : Collect → Option String → ℕ → Type 0
Fails collect cursor n = (e : Error) × (collect n cursor ≡ inr e)

sleep_short : (t : ℕ) {m : ℕ} → t ≤ m → (length (sleep_for t) ≤ 1) × All (λ t. t ≤ m) (sleep_for t)
sleep_short zero h = (omega arith, tt)
sleep_short (suc t) h = (omega arith, (h, tt))

pub on_result-all :
    (Q : Attempted → Type 0) (x : ConnectorResult ⊎ Error) (f : ConnectorResult → Attempted)
    (g : Error → Attempted)
    → ((r : ConnectorResult) → Q (f r))
    → ((e : Error) → Q (g e))
    → Q (on_result x f g)
on_result-all Q (inl r) f g hf hg = hf r
on_result-all Q (inr e) f g hf hg = hg e

module _ (source : SourceConfig) (collect : Collect) (cursor : Option String) (now : ℕ) where
  -- How attempts end that follow number `n`, of which `suc left` are allowed.
  abbrev pub Ends : ℕ → ℕ → Ending → ℕ → Type 0
  Ends left n (collected result) made =
      (fails : ℕ) × ((made ≡ suc (n + fails))
        × (fails ≤ left)
        × (collect made cursor ≡ inl result)
        × All (Fails collect cursor) (attempt_numbers n fails))
  Ends left n (gave_up error) made =
      (made ≡ suc (n + left))
      × (collect made cursor ≡ inr error)
      × All (Fails collect cursor) (attempt_numbers n left)

  later-Ends :
      (left n : ℕ) (error : Error) (ending : Ending) (made : ℕ)
      → collect (suc n) cursor ≡ inr error
      → Ends left (suc n) ending made
      → Ends (suc left) n ending made
  later-Ends left n error (collected result) made e (fails, (m, l, c, h)) =
      (suc fails, (omega (arith, m), omega (arith, l), c, ((error, e), h)))
  later-Ends left n error (gave_up last) made e (m, c, h) = (omega (arith, m), c, ((error, e), h))

  last-End :
      (n : ℕ) (s : RuntimeState) (x : ConnectorResult ⊎ Error)
      → collect (suc n) cursor ≡ x
      → let a =
          on_result x
            (λ r. succeeded source collect cursor now r n s)
            (λ e. failed_for_good source collect cursor now e n s) in
        Ends zero n a.ending a.made
  last-End n s (inl result) e = (zero, (omega arith, omega arith, e, tt))
  last-End n s (inr error) e = (omega arith, e, tt)

  next-End :
      (left n : ℕ) (s : RuntimeState) (x : ConnectorResult ⊎ Error)
      → collect (suc n) cursor ≡ x
      → ((s : RuntimeState)
          → let a = run_attempts source collect cursor now left (suc n) s in
            Ends left (suc n) a.ending a.made)
      → let a =
          on_result x
            (λ r. succeeded source collect cursor now r n s)
            (λ e. after_sleep source collect cursor now (backoff_after source.retry_policy n) (
              run_attempts source collect cursor now left
                (suc n)
                (state_after_error source collect cursor now e n s))) in
        Ends (suc left) n a.ending a.made
  next-End left n s (inl result) e h = (zero, (omega arith, omega arith, e, tt))
  next-End left n s (inr error) e h =
      let s' = state_after_error source collect cursor now error n s in
      let a = run_attempts source collect cursor now left (suc n) s' in
      later-Ends left n error a.ending a.made e (h s')

  attempts-End :
      (left n : ℕ) (s : RuntimeState)
      → let a = run_attempts source collect cursor now left n s in Ends left n a.ending a.made
  unfolding run_attempts
  attempts-End zero n s = last-End n s (collect (suc n) cursor) refl
  attempts-End (suc left) n s =
      next-End left n s (collect (suc n) cursor) refl (λ s'. attempts-End left (suc n) s')

  -- The sleeps between the attempts: fewer than the attempts allowed, and none longer than the policy allows.
  abbrev ShortSleeps : ℕ → List ℕ → Type 0
  ShortSleeps left sleeps =
      (length sleeps ≤ left) × All (λ t. t ≤ source.retry_policy.max_backoff) sleeps

  backoff_short : (n : ℕ) → ShortSleeps 1 (sleep_for (backoff_after source.retry_policy n))
  unfolding backoff_after
  backoff_short n =
      sleep_short (min (source.retry_policy.backoff * 2 ^ n) source.retry_policy.max_backoff)
        (omega arith)

  after-Short :
      (left n : ℕ) (sleeps : List ℕ)
      → ShortSleeps left sleeps
      → ShortSleeps (suc left) (sleep_for (backoff_after source.retry_policy n) ++ sleeps)
  after-Short left n sleeps (l, h) =
      let (l', h') = backoff_short n in
      (
        omega
            (arith, l, l', length-append (sleep_for (backoff_after source.retry_policy n)) sleeps),
        All-append (λ t. t ≤ source.retry_policy.max_backoff)
            (sleep_for (backoff_after source.retry_policy n)) sleeps h' h,
      )

  attempts-Short :
      (left n : ℕ) (s : RuntimeState)
      → ShortSleeps left (run_attempts source collect cursor now left n s).sleeps
  unfolding run_attempts
  attempts-Short zero n s =
      on_result-all (λ a. ShortSleeps zero a.sleeps) (collect (suc n) cursor) _ _
        (λ r. (omega arith, tt)) (λ e. (omega arith, tt))
  attempts-Short (suc left) n s =
      on_result-all (λ a. ShortSleeps (suc left) a.sleeps) (collect (suc n) cursor) _ _
        (λ r. (omega arith, tt))
        (λ e.
          after-Short left n _
            (attempts-Short left (suc n) (state_after_error source collect cursor now e n s)))

-- What a record says of the connector's attempts: it stands for the first of the allowed ones that
-- succeeds, or all of them have failed.
module _ (source : SourceConfig) (collect : Collect) (cursor : Option String)
    (r : SourceRunRecord) where
  abbrev pub Reports : RunStatus → Type 0
  Reports success =
      (result : ConnectorResult) × (fails : ℕ) × ((r.attempts ≡ suc fails)
        × (fails ≤ source.retry_policy.attempts)
        × (collect r.attempts cursor ≡ inl result)
        × All (Fails collect cursor) (attempt_numbers 0 fails)
        × (r.raw_items ≡ map to_raw_record result.items)
        × (r.next_cursor ≡ result.next_cursor))
  Reports failed =
      (error : Error) × ((r.attempts ≡ suc source.retry_policy.attempts)
        × (collect r.attempts cursor ≡ inr error)
        × All (Fails collect cursor) (attempt_numbers 0 source.retry_policy.attempts)
        × (r.error_message ≡ some (sanitize_runtime_error (some error))))
  Reports skipped = ⊥

record-Reports :
    (source : SourceConfig) (collect : Collect) (cursor : Option String) (now started finished : ℕ)
    (ending : Ending) (made : ℕ)
    → Ends source collect cursor now source.retry_policy.attempts 0 ending made
    → let r = run_record source started finished ending made in
      Reports source collect cursor r r.status
record-Reports source collect cursor now started finished (collected result) made
      (fails, (m, l, c, h)) =
    (result, fails, (omega (arith, m), l, c, h, refl, refl))
record-Reports source collect cursor now started finished (gave_up error) made (m, c, h) =
    (error, (omega (arith, m), c, h, refl))

-- A run reports the first attempt that succeeds, with what it gave, and reports a failure exactly
-- after every attempt that the policy allows has failed, with the last one's error.
pub run_connector-Reports :
    (source : SourceConfig) (collect : Collect) (clock : Clock) (s : RuntimeState)
    → let r = (run_connector source collect clock s).record_of in
      Reports source collect (cursor_of source s) r r.status
unfolding run_connector
run_connector-Reports source collect clock s =
    let cursor = cursor_of source s in
    let a = run_attempts source collect cursor clock.finished source.retry_policy.attempts 0 s in
    record-Reports source collect cursor clock.finished clock.started clock.finished a.ending a.made
      (attempts-End source collect cursor clock.finished source.retry_policy.attempts 0 s)

-- A run sleeps at most once for the rate limit and once between two attempts, where no sleep between
-- attempts is longer than the policy's maximum.
pub run_connector-sleeps :
    (source : SourceConfig) (collect : Collect) (clock : Clock) (s : RuntimeState)
    → (between : List ℕ) × (((run_connector source collect clock s).sleeps
          ≡ wait_for_rate_limit source clock.monotonic_start s ++ between)
        × (length between ≤ source.retry_policy.attempts)
        × All (λ t. t ≤ source.retry_policy.max_backoff) between)
unfolding run_connector
run_connector-sleeps source collect clock s =
    let cursor = cursor_of source s in
    let a = run_attempts source collect cursor clock.finished source.retry_policy.attempts 0 s in
    let (l, h) =
      attempts-Short source collect cursor clock.finished source.retry_policy.attempts 0 s in
    (a.sleeps, (refl, l, h))
