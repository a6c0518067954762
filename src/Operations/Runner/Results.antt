-- ===== src/Operations/Runner/Results.antt =====
-- internal/operations: what the result of a plan says about its steps, and which commands are refused.
use askio_agent.Base.{
  ℕ, String, Bool, true, false, none, ◌⊎◌, eq_iff, ◌==◌, not, ◌||◌, ◌&&◌, ◌≡◌, refl, Option, some,
  List, [], ◌∷◌, ◌++◌, lookup, arith, is_empty, append, Bool-cases, inl, inr,
}
use askio_agent.Base.Strings.{trim_space}
use askio_agent.Base.Action.{done, pure}
use askio_agent.Base.Action.Returns.{
  Returns, Always, Returns-bind, Returns-after, Returns-option, Returns-pure, Returns-split,
  returned,
}
use askio_agent.Envelope.{Fields}
use askio_agent.Remediation.Machine.{Machine, Executor}
use askio_agent.Operations.Data.{
  Mode, Status, is_failed, is_success, StepResult, PlanStep, ActionPlan, Verdict,
}
use askio_agent.Operations.Params.{param}
use askio_agent.Operations.Handlers.{has_slash}
use askio_agent.Operations.Handlers.{
  is_listed, OperationsConfig, Handler, command_run, is_shell, allows_shell, is_allowed_exe,
  resolve_exe, refusal, run_handler, run_shell, run_exe,
}
use askio_agent.Operations.Plan.{
  Progress, no_progress, add_unknown, add_result, unknown_step, settle_status, plan_step,
  plan_steps, run_plan,
}

unfoldable pub any_failed : List StepResult → Bool
any_failed [] = false
any_failed (r ∷ rs) = is_failed r.status || any_failed rs

any_failed-snoc :
    (rs : List StepResult) (r : StepResult)
    → any_failed (rs ++ (r ∷ [])) ≡ (any_failed rs || is_failed r.status)
unfolding any_failed
any_failed-snoc [] r = ground arith
any_failed-snoc (x ∷ rs) r = ground (arith, any_failed-snoc rs r)

-- The overall status is a success just as long as no step has failed.
record IsHonest (p : Progress) : Type 0 where
  agrees : is_success p.overall ≡ not (any_failed p.results)

add_unknown-IsHonest :
    (step : PlanStep) (s f : ℕ) (p : Progress) → IsHonest (add_unknown (unknown_step step s f) p)
unfolding add_unknown unknown_step is_success is_failed
add_unknown-IsHonest step s f p = record { agrees = rw any_failed-snoc (ground arith) }

settle-success :
    (step : PlanStep) (status overall : Status)
    → is_success (settle_status step status overall)
      ≡ (is_success overall && not (is_failed status))
unfolding settle_status is_failed is_success
settle-success step status overall = ground arith

add_result-IsHonest :
    (step : PlanStep) (r : StepResult) (p : Progress) → IsHonest p → IsHonest (add_result step r p)
unfolding add_result
add_result-IsHonest step r p h = record {
  agrees = rw (any_failed-snoc, settle-success) (ground (arith, h.agrees));
}

module _ {World : Type 0} (m : Machine World) (e : Executor) (registry : List (String × Handler))
    (mode : Mode) where
  Returns-plan_step :
      (step : PlanStep) (p : Progress)
      → IsHonest p
      → Returns Always (λ after _. IsHonest after.0) (plan_step m e registry mode step p)
  unfolding plan_step
  Returns-plan_step step p h = Returns-after _ _ (λ started.
      Returns-option (lookup step.action registry) _ _
        (Returns-after _ _
          (λ finished. Returns-pure _ (λ w u. add_unknown-IsHonest step started finished p)))
        (λ handler. Returns-after _ _ (λ result.
          Returns-after _ _ (λ finished. Returns-pure _ (λ w u. add_result-IsHonest step _ p h)))))

  Returns-plan_steps :
      (steps : List PlanStep) (p : Progress)
      → IsHonest p
      → Returns Always (λ after _. IsHonest after) (plan_steps m e registry mode steps p)
  unfolding plan_steps
  Returns-plan_steps [] p h = Returns-pure _ (λ w u. h)
  Returns-plan_steps (step ∷ steps) p h =
      Returns-bind {Q = λ after _. IsHonest after.0} _ _ (Returns-plan_step step p h) (λ after.
        Returns-split after.1 _ _ (λ _. Returns-pure _ (λ w g. g))
          (λ _. record { at = λ w g. (Returns-plan_steps steps after.0 g).at w tt }))

  -- A plan is reported as a success just when none of the steps it ran has failed, whatever the
  -- steps say about failures, and whether or not it is rolled back.
  pub run_plan-success :
      (enabled : Bool) (plan : ActionPlan) (v : Verdict) (w u : World)
      → run_plan m e registry mode enabled (some plan) w ≡ done v u
      → is_success v.status ≡ not (any_failed v.step_results)
  unfolding run_plan any_failed is_success
  run_plan-success enabled plan v w u h =
      returned {P = Always} {Q = λ v _. is_success v.status ≡ not (any_failed v.step_results)} _ w v
        u
        (Returns-bind {Q = λ after _. IsHonest after} _ _
          (Returns-plan_steps plan.steps no_progress (record { agrees = refl }))
          (λ p. record {
            at = λ s g.
                (Returns-after {P = Always} _ _ (λ lines. Returns-pure _ (λ t x. g.agrees))).at s
                  tt;
          }))
        tt h

-- An entry of the allowlist names the executable: in full, or, if the entry has no slash, by its base
-- name.
abbrev pub IsMatch : {World : Type 0} → Machine World → String → String → Type 0
IsMatch m exe entry =
    (is_empty (trim_space entry) ≡ false)
    × ((exe ≡ trim_space entry)
        ⊎ ((m.base_name exe ≡ trim_space entry) × (has_slash (trim_space entry) ≡ false)))

-- One of the entries names the executable.
pub data IsListed {World : Type 0} (m : Machine World) (exe : String) : List String → Type 0 where
  here :
      {entry : String} {entries : List String}
      → IsMatch m exe entry
      → IsListed m exe (entry ∷ entries)
  there :
      {entry : String} {entries : List String}
      → IsListed m exe entries
      → IsListed m exe (entry ∷ entries)

-- What the configuration says of a command: a shell needs `operations.allow_shell`; an executable is
-- free if there is no configuration or its allowlist is empty, and is on the list otherwise.
pub data IsPermitted {World : Type 0} (m : Machine World) (c : Option OperationsConfig)
    (params : Fields) : Type 0 where
  by_shell :
      (config : OperationsConfig)
      → is_shell params ≡ true
      → c ≡ some config
      → config.allow_shell ≡ true
      → IsPermitted m c params
  by_default : is_shell params ≡ false → c ≡ none → IsPermitted m c params
  by_empty_list :
      (config : OperationsConfig)
      → is_shell params ≡ false
      → c ≡ some config
      → config.allowlist ≡ []
      → IsPermitted m c params
  by_list :
      (config : OperationsConfig)
      → is_shell params ≡ false
      → c ≡ some config
      → IsListed m (resolve_exe m (trim_space (param params "exe"))) config.allowlist
      → IsPermitted m c params

module _ {World : Type 0} (m : Machine World) where
  listed-entry :
      (exe entry : String)
      → (exe == trim_space entry
          || not (has_slash (trim_space entry)) && m.base_name exe == trim_space entry)
        ≡ true
      → is_empty (trim_space entry) ≡ false
      → IsMatch m exe entry
  listed-entry exe entry h full = elim (Bool-cases (exe == trim_space entry)) [
    | inl p ↦ (full, inl ((eq_iff exe (trim_space entry)).0 p))
    | inr p ↦ (
      full,
      inr (ground (arith, h, p, eq_iff (m.base_name exe) (trim_space entry)), ground (arith, h, p)),
    )
  ]

  is_listed-IsListed :
      (exe : String) (entries : List String)
      → is_listed m exe entries ≡ true
      → IsListed m exe entries
  unfolding is_listed
  is_listed-IsListed exe [] h = cc
  is_listed-IsListed exe (entry ∷ entries) h = elim (Bool-cases (is_listed m exe entries)) [
    | inl p ↦ there (is_listed-IsListed exe entries p)
    | inr p ↦ elim (Bool-cases (is_empty (trim_space entry))) [
      | inl q ↦ absurd (ground (arith, h, p, q))
      | inr q ↦ here (listed-entry exe entry (ground (arith, h, p, q)) q)
    ]
  ]

  is_allowed_exe-IsPermitted :
      (c : Option OperationsConfig) (params : Fields)
      → is_shell params ≡ false
      → is_allowed_exe m c (resolve_exe m (trim_space (param params "exe"))) ≡ true
      → IsPermitted m c params
  unfolding is_allowed_exe
  is_allowed_exe-IsPermitted none params plain h = by_default plain refl
  is_allowed_exe-IsPermitted (some config) params plain h = allowed config.allowlist refl h
    where
      allowed :
          (entries : List String)
          → config.allowlist ≡ entries
          → elim entries [
            | [] ↦ true
            | _ ∷ _ ↦ is_listed m (resolve_exe m (trim_space (param params "exe"))) config.allowlist
          ]
            ≡ true
          → IsPermitted m (some config) params
      allowed [] e h = by_empty_list config plain refl e
      allowed (x ∷ xs) e h = by_list config plain refl (is_listed-IsListed _ config.allowlist h)

-- A command is refused, and the host is left as it is, in a live run too, unless the configuration
-- permits it: a shell only if `allow_shell` is set, an executable only if the allowlist is empty or
-- names it or there is no configuration.
pub command_run-IsPermitted :
    {World : Type 0} (m : Machine World) (e : Executor) (c : Option OperationsConfig)
    (params : Fields) (mode : Mode) (w : World)
    → ((message : String) × (run_handler m e (command_run c) params mode w
          ≡ done (refusal message) w))
      ⊎ IsPermitted m c params
unfolding run_handler run_shell run_exe pure allows_shell
command_run-IsPermitted m e c params mode w = elim (Bool-cases (is_shell params)) [
  | inl shell ↦ by_config c shell
  | inr plain ↦ elim (Bool-cases (is_empty (trim_space (param params "exe")))) [
    | inl absent ↦ inl ("missing param: exe", ground arith)
    | inr present ↦
        elim (Bool-cases (is_allowed_exe m c (resolve_exe m (trim_space (param params "exe"))))) [
          | inl allowed ↦ inr (is_allowed_exe-IsPermitted m c params plain allowed)
          | inr forbidden ↦ inl (
            append "exe not allowed: " (resolve_exe m (trim_space (param params "exe"))),
            ground arith,
          )
        ]
  ]
]
  where
    by_config :
        (c : Option OperationsConfig)
        → is_shell params ≡ true
        → ((message : String) × (run_handler m e (command_run c) params mode w
              ≡ done (refusal message) w))
          ⊎ IsPermitted m c params
    by_config none shell = inl ("shell mode disabled (operations.allow_shell=false)", rw shell refl)
    by_config (some config) shell = elim (Bool-cases config.allow_shell) [
      | inl on ↦ inr (by_shell config shell refl on)
      | inr off ↦ inl ("shell mode disabled (operations.allow_shell=false)", rw (shell, off) refl)
    ]
