-- ===== src/Pipeline/Stages.antt =====
-- What the pipeline says of its stages.
use sentinel_drive.Prelude.{
  ◌≡◌, refl, sym, ap, Bool, true, false, Option, none, some, List, [], ◌∷◌, ◌++◌, ◌⊎◌, inl, inr,
  keep, any, All, if◌then◌else◌, string_Eq, Bool-cases,
}
use mathlib.Core.Path.{subst}
use mathlib.Core.List.{append-nil}
use sentinel_drive.Text.{take_text}
use sentinel_drive.Value.{Value, str, dict, from_items, Fields, get, lookup, has_key}
use sentinel_drive.Value.Equality.{value_eq}
use sentinel_drive.Sanitize.{Error}
use sentinel_drive.Pipeline.{
  Stage, collection, normalization, scoring, alerts, stage_name, run_stage, get_or, is_fatal,
  stage_errors, fatal_stage_errors, skipped_alerts, Step, run_processing_pipeline,
}

-- What a stage did: the dict that it returned, or the error that it raised.
abbrev pub StageOutcome : Type 0
StageOutcome = Stage × (Fields ⊎ Error)

-- A stage failed if it raised, or returned a dict of the status "failed".
abbrev pub has_failed : StageOutcome → Bool
has_failed (stage, inl result) = value_eq (get result "status") (str "failed")
has_failed (stage, inr error) = true

-- What there is to say of a stage that failed: at most 500 characters of the error, or the message
-- in the dict.
abbrev pub failure_message : Fields ⊎ Error → Value
failure_message (inl result) = get_or result "error_message" (str "未知阶段失败")
failure_message (inr error) = str (take_text 500 error.message)

abbrev pub failure_entry : StageOutcome → Value
failure_entry (stage, x) =
    dict
      (from_items (("stage", str (stage_name stage)) ∷ ("error_message", failure_message x) ∷ []))

-- The stages one after another, each in the state that the one before left.
abbrev pub outcomes_of :
    {S : Type 0} → Step S → Step S → Step S → Option (Step S) → S → List StageOutcome
outcomes_of collect normalize score none s =
    let (c, s₁) = collect s in
    let (n, s₂) = normalize s₁ in
    let (k, s₃) = score s₂ in (collection, c) ∷ (normalization, n) ∷ (scoring, k) ∷ []
outcomes_of collect normalize score (some evaluate) s =
    let (c, s₁) = collect s in
    let (n, s₂) = normalize s₁ in
    let (k, s₃) = score s₂ in
    let (a, s₄) = evaluate s₃ in
    (collection, c) ∷ (normalization, n) ∷ (scoring, k) ∷ (alerts, a) ∷ []

abbrev pub Has : Value → List Value → Type 0
Has v [] = ⊥
Has v (w ∷ ws) = (v ≡ w) ⊎ Has v ws

Has-left : (v : Value) (vs ws : List Value) → Has v vs → Has v (vs ++ ws)
Has-left v [] ws x = elim x [ ]
Has-left v (w ∷ vs) ws (inl e) = inl e
Has-left v (w ∷ vs) ws (inr h) = inr (Has-left v vs ws h)

Has-right : (v : Value) (vs ws : List Value) → Has v ws → Has v (vs ++ ws)
Has-right v [] ws h = h
Has-right v (w ∷ vs) ws h = inr (Has-right v vs ws h)

-- A run stage is fatal exactly where it failed.
is_fatal-run_stage :
    (stage : Stage) (x : Fields ⊎ Error) → is_fatal (run_stage stage x) ≡ has_failed (stage, x)
unfolding get lookup value_eq
is_fatal-run_stage stage (inl result) = refl
is_fatal-run_stage stage (inr error) = refl

message-run_stage :
    (stage : Stage) (x : Fields ⊎ Error)
    → get_or (run_stage stage x) "error_message" (str "未知阶段失败") ≡ failure_message x
unfolding get lookup has_key
message-run_stage stage (inl result) = refl
message-run_stage stage (inr error) = refl

-- The entries of a stage.
abbrev errors_in : StageOutcome → List Value
errors_in (stage, x) = stage_errors stage (run_stage stage x)

failed-Has : (o : StageOutcome) → has_failed o ≡ true → Has (failure_entry o) (errors_in o)
unfolding stage_errors
failed-Has (stage, x) h =
    let entry = λ (m : Value).
      dict (from_items (("stage", str (stage_name stage)) ∷ ("error_message", m) ∷ [])) in
    rw (is_fatal-run_stage stage x, h) (inl (ap entry (sym (message-run_stage stage x))))

abbrev all_errors : List StageOutcome → List Value
all_errors [] = []
all_errors (o ∷ os) = errors_in o ++ all_errors os

All-right :
    (vs ws : List Value) (os : List StageOutcome)
    → All (λ o. Has (failure_entry o) ws) os
    → All (λ o. Has (failure_entry o) (vs ++ ws)) os
All-right vs ws [] h = tt
All-right vs ws (o ∷ os) (h, hs) = (Has-right (failure_entry o) vs ws h, All-right vs ws os hs)

-- Every stage that failed has its entry.
all_errors-All :
    (os : List StageOutcome) → All (λ o. Has (failure_entry o) (all_errors os)) (keep has_failed os)
all_errors-All [] = tt
all_errors-All (o ∷ os) =
    let rest = All-right (errors_in o) (all_errors os) (keep has_failed os) (all_errors-All os) in
    elim (Bool-cases (has_failed o)) [
      | inl f ↦
          rw f (Has-left (failure_entry o) (errors_in o) (all_errors os) (failed-Has o f), rest)
      | inr f ↦ rw f rest
    ]

skipped-fine : is_fatal skipped_alerts ≡ false
unfolding get lookup value_eq
skipped-fine = refl

module _ {S : Type 0} where
  -- For every stage that raises or returns the status "failed", the pipeline's list of failures has
  -- an entry with the stage's name and with its message: at most 500 characters of the error raised,
  -- or the message of the dict returned. The pipeline's status is "completed_with_errors" where
  -- there is such a stage, and else "completed". Each stage runs in the state that the one before
  -- left, whether that failed or not.
  pub pipeline_failures :
      (collect normalize score : Step S) (evaluate : Option (Step S)) (s : S)
      → let r = (run_processing_pipeline collect normalize score evaluate s).0 in
        let outcomes = outcomes_of collect normalize score evaluate s in
        All (λ o. Has (failure_entry o) r.stage_failures) (keep has_failed outcomes)
        × (r.status ≡ (if any has_failed outcomes then "completed_with_errors" else "completed"))
  unfolding run_processing_pipeline fatal_stage_errors
  pipeline_failures collect normalize score none s =
      let (c, s₁) = collect s in
      let (n, s₂) = normalize s₁ in
      let (k, s₃) = score s₂ in
      (
        all_errors-All (outcomes_of collect normalize score none s),
        rw
            (
              is_fatal-run_stage collection c,
              is_fatal-run_stage normalization n,
              is_fatal-run_stage scoring k,
              skipped-fine,
            )
            refl,
      )
  pipeline_failures collect normalize score (some evaluate) s =
      let (c, s₁) = collect s in
      let (n, s₂) = normalize s₁ in
      let (k, s₃) = score s₂ in
      let (a, s₄) = evaluate s₃ in
      let outcomes = outcomes_of collect normalize score (some evaluate) s in
      (
        subst
            (λ vs.
              All
                (λ o. Has (failure_entry o) (
                  errors_in (collection, c)
                  ++ (errors_in (normalization, n) ++ (errors_in (scoring, k) ++ vs))))
                (keep has_failed outcomes))
            (append-nil (errors_in (alerts, a))) (all_errors-All outcomes),
        rw
            (
              is_fatal-run_stage collection c,
              is_fatal-run_stage normalization n,
              is_fatal-run_stage scoring k,
              is_fatal-run_stage alerts a,
            )
            refl,
      )
