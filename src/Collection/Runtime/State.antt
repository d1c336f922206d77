-- ===== src/Collection/Runtime/State.antt =====
-- The state that a run leaves, of its source and of the others.
use sentinel_drive.Prelude.{
  ℕ, suc, zero, String, ◌≡◌, refl, ◌∙◌, false, Option, none, some, ◌==◌, string_Eq, beq_refl,
}
use sentinel_drive.Sanitize.{Error, sanitize_runtime_error}
use sentinel_drive.Collection.Contracts.{SourceConfig, ConnectorResult}
use sentinel_drive.Collection.Runtime.Attempts.{on_result-all}
use sentinel_drive.Collection.Runtime.{
  RuntimeState, record_success, record_error, record_attempt, set_next_rate_limit, Ending,
  collected, gave_up, Collect, succeeded, failed_for_good, state_after_error, run_attempts,
  run_connector, run_record, Clock, cursor_of, SourceRunRecord, success, failed, skipped, RunStatus,
}

module _ (source : SourceConfig) (collect : Collect) (cursor : Option String) (now : ℕ) where
  -- What the attempts leave under the source's name.
  abbrev pub Leaves : RuntimeState → Ending → ℕ → RuntimeState → Type 0
  Leaves s (collected result) made s' =
      (s'.cursors source.name ≡ some result.next_cursor)
      × (s'.errors source.name ≡ none)
      × (s'.last_success_at source.name ≡ some now)
      × (s'.attempts source.name ≡ some made)
  Leaves s (gave_up error) made s' =
      (s'.cursors source.name ≡ s.cursors source.name)
      × (s'.errors source.name ≡ some (sanitize_runtime_error (some error)))
      × (s'.last_success_at source.name ≡ s.last_success_at source.name)
      × (s'.attempts source.name ≡ some made)

  success-Leaves :
      (n : ℕ) (s : RuntimeState) (r : ConnectorResult)
      → let a = succeeded source collect cursor now r n s in Leaves s a.ending a.made a.state
  unfolding record_success record_attempt
  success-Leaves n s r = rw (beq_refl source.name) (refl, refl, refl, refl)

  failure-Leaves :
      (n : ℕ) (s : RuntimeState) (e : Error)
      → let a = failed_for_good source collect cursor now e n s in Leaves s a.ending a.made a.state
  unfolding record_error record_attempt
  failure-Leaves n s e = rw (beq_refl source.name) (refl, refl, refl, refl)

  later-Leaves :
      (n : ℕ) (s : RuntimeState) (e : Error) (ending : Ending) (made : ℕ) (s' : RuntimeState)
      → Leaves (state_after_error source collect cursor now e n s) ending made s'
      → Leaves s ending made s'
  unfolding record_error record_attempt
  later-Leaves n s e (collected r) made s' h = h
  later-Leaves n s e (gave_up r) made s' h = h

  attempts-Leave :
      (left n : ℕ) (s : RuntimeState)
      → let a = run_attempts source collect cursor now left n s in Leaves s a.ending a.made a.state
  unfolding run_attempts
  attempts-Leave zero n s =
      on_result-all (λ a. Leaves s a.ending a.made a.state) (collect (suc n) cursor) _ _
        (success-Leaves n s) (failure-Leaves n s)
  attempts-Leave (suc left) n s =
      on_result-all (λ a. Leaves s a.ending a.made a.state) (collect (suc n) cursor) _ _
        (success-Leaves n s)
        (λ e.
          later-Leaves n s e _ _ _
            (attempts-Leave left (suc n) (state_after_error source collect cursor now e n s)))

  -- The entries of another source.
  abbrev pub SameAt : String → RuntimeState → RuntimeState → Type 0
  SameAt j s s' =
      (s'.cursors j ≡ s.cursors j)
      × (s'.next_allowed_at j ≡ s.next_allowed_at j)
      × (s'.errors j ≡ s.errors j)
      × (s'.attempts j ≡ s.attempts j)
      × (s'.last_success_at j ≡ s.last_success_at j)

  SameAt-trans : (j : String) (s t u : RuntimeState) → SameAt j s t → SameAt j t u → SameAt j s u
  SameAt-trans j s t u (a, b, c, d, e) (a', b', c', d', e') =
      (a' ∙ a, b' ∙ b, c' ∙ c, d' ∙ d, e' ∙ e)

  error-SameAt :
      (j : String) (n : ℕ) (s : RuntimeState) (x : Error)
      → (source.name == j) ≡ false
      → SameAt j s (state_after_error source collect cursor now x n s)
  unfolding record_error record_attempt
  error-SameAt j n s x e = rw e (refl, refl, refl, refl, refl)

  attempts-SameAt :
      (j : String) (left n : ℕ) (s : RuntimeState)
      → (source.name == j) ≡ false
      → SameAt j s (run_attempts source collect cursor now left n s).state
  unfolding run_attempts record_success record_error record_attempt
  attempts-SameAt j zero n s e =
      on_result-all (λ a. SameAt j s a.state) (collect (suc n) cursor) _ _
        (λ r. rw e (refl, refl, refl, refl, refl)) (λ x. rw e (refl, refl, refl, refl, refl))
  attempts-SameAt j (suc left) n s e =
      on_result-all (λ a. SameAt j s a.state) (collect (suc n) cursor) _ _
        (λ r. rw e (refl, refl, refl, refl, refl))
        (λ x.
          let s' = state_after_error source collect cursor now x n s in
          SameAt-trans j s s' (run_attempts source collect cursor now left (suc n) s').state
            (error-SameAt j n s x e) (attempts-SameAt j left (suc n) s' e))

-- A run leaves what the state holds of every other source as it was.
pub run_connector-SameAt :
    (source : SourceConfig) (collect : Collect) (clock : Clock) (s : RuntimeState) (j : String)
    → (source.name == j) ≡ false
    → SameAt source collect
        (cursor_of source s)
        clock.finished
        j
        s
        (run_connector source collect clock s).state
unfolding run_connector set_next_rate_limit
run_connector-SameAt source collect clock s j e =
    let (a, b, c, d, f) =
      attempts-SameAt source collect (cursor_of source s) clock.finished j
        source.retry_policy.attempts 0 s e in
    (a, rw e b, c, d, f)

-- The state under the source's name, by the status that a record has.
abbrev pub LeavesStatus :
    SourceConfig → RuntimeState → ℕ → RuntimeState → SourceRunRecord → RunStatus → Type 0
LeavesStatus source s now s' r success =
    (s'.cursors source.name ≡ some r.next_cursor)
    × (s'.errors source.name ≡ none)
    × (s'.last_success_at source.name ≡ some now)
    × (s'.attempts source.name ≡ some r.attempts)
LeavesStatus source s now s' r failed =
    (s'.cursors source.name ≡ s.cursors source.name)
    × (s'.errors source.name ≡ r.error_message)
    × (s'.last_success_at source.name ≡ s.last_success_at source.name)
    × (s'.attempts source.name ≡ some r.attempts)
LeavesStatus source s now s' r skipped = ⊥

abbrev pub LeavesRecord : SourceConfig → RuntimeState → ℕ → RuntimeState → SourceRunRecord → Type 0
LeavesRecord source s now s' r = LeavesStatus source s now s' r r.status

ending_state :
    (source : SourceConfig) (collect : Collect) (cursor : Option String) (now started finished : ℕ)
    (s s' : RuntimeState) (ending : Ending) (made : ℕ)
    → Leaves source collect cursor now s ending made s'
    → LeavesRecord source s now s' (run_record source started finished ending made)
ending_state source collect cursor now started finished s s' (collected r) made h = h
ending_state source collect cursor now started finished s s' (gave_up r) made h = h

-- After a success, the state has the cursor that was given and no error; after a failure, the cursor
-- as it was and the error that is reported. The attempts are counted in both.
pub run_connector-LeavesRecord :
    (source : SourceConfig) (collect : Collect) (clock : Clock) (s : RuntimeState)
    → let ran = run_connector source collect clock s in
      LeavesRecord source s clock.finished ran.state ran.record_of
unfolding run_connector set_next_rate_limit
run_connector-LeavesRecord source collect clock s =
    let cursor = cursor_of source s in
    let a = run_attempts source collect cursor clock.finished source.retry_policy.attempts 0 s in
    ending_state source collect cursor clock.finished clock.started clock.finished s a.state
      a.ending a.made
      (attempts-Leave source collect cursor clock.finished source.retry_policy.attempts 0 s)
