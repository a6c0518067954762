-- ===== src/Envelope.antt =====
-- internal/migration/task.go, broker.go and executor.go: the signed task envelope, the JSON values
-- that its inputs hold, and the readers of single inputs.
use askio_agent.Base.{
  ℕ, suc, String, Bool, not, ◌||◌, Option, none, some, List, [], ◌∷◌, if◌then◌else◌, ltb, eqb,
  is_empty, ◌==◌, append, decimal, ◌≡◌, refl, ◌⊎◌, inl, inr,
}
use askio_agent.Base.Action.{Action, done, fail, pure, raise, check, ◌>>=◌, ◌>>◌}

-- What a decoded JSON document holds (`any`). A number that is no whole one keeps its text.
mutual
  pub data Json : Type 0 where
    null : Json
    bool : Bool → Json
    whole : ℕ → Json
    negative : ℕ → Json
    fraction : String → Json
    text : String → Json
    array : Items → Json
    object : Fields → Json

  pub data Items : Type 0 where
    end_items : Items
    item : Json → Items → Items

  pub data Fields : Type 0 where
    end_fields : Fields
    field : String → Json → Fields → Fields

pub record PrimitiveRef : Type 0 where
  pub id : String
  pub version : String

pub record TaskEnvelope : Type 0 where
  pub schema_version : String
  pub key_id : String
  pub algorithm : String
  pub audience : String
  pub agent_id : String
  pub endpoint_id : String
  pub migration_id : String
  pub run_id : Option String
  pub run_step_id : Option String
  pub attempt_id : String
  pub attempt_token : String
  pub fencing_token : ℕ
  pub plan_digest : Option String
  pub subject_digest : String
  pub primitive : PrimitiveRef
  pub resource_scope : Fields
  pub inputs : Fields
  pub issued_at : String
  pub expires_at : String
  pub nonce : String
  pub signature : String

-- `m[key]` of a decoded object.
unfoldable pub get_field : String → Fields → Option Json
get_field k end_fields = none
get_field k (field j v fs) = if j == k then some v else get_field k fs

nested_inputs : Fields → Option Json → Fields
nested_inputs outer (some (object inner)) = inner
nested_inputs outer _ = outer

unfoldable pub task_inputs : TaskEnvelope → Fields
unfolding nested_inputs get_field
task_inputs task = nested_inputs task.inputs (get_field "inputs" task.inputs)

count_items : Items → ℕ
count_items end_items = 0
count_items (item _ rest) = suc (count_items rest)

-- A task's run, or the error of a task that has none.
non_empty : Option String → Option String
non_empty none = none
non_empty (some s) = if is_empty s then none else some s

module _ {S : Type 0} where
  text_items : String → Items → Action S (List String)
  text_items key end_items = pure []
  text_items key (item (text s) rest) = do
    check (not (is_empty s)) (append key " contains an invalid item")
    values ← text_items key rest
    pure (s ∷ values)
  text_items key (item _ rest) = raise (append key " contains an invalid item")

  bounded_items : String → ℕ → Option Json → Action S (List String)
  unfolding text_items count_items
  bounded_items key maximum (some (array items)) =
      if eqb (count_items items) 0 || ltb maximum (count_items items)
      then raise (append key (append " must contain 1-" (append (decimal maximum) " items")))
      else text_items key items
  bounded_items key maximum _ =
      raise (append key (append " must contain 1-" (append (decimal maximum) " items")))

  unfoldable pub string_list_input : Fields → String → ℕ → Action S (List String)
  unfolding bounded_items get_field
  string_list_input inputs key maximum = bounded_items key maximum (get_field key inputs)

  text_value : String → Option Json → Action S String
  text_value key (some (text s)) = if is_empty s then raise (append key " is required") else pure s
  text_value key _ = raise (append key " is required")

  unfoldable pub string_input : Fields → String → Action S String
  unfolding text_value get_field
  string_input inputs key = text_value key (get_field key inputs)

  within : String → ℕ → ℕ → ℕ → Action S ℕ
  within key minimum maximum value =
      if ltb value minimum || ltb maximum value
      then raise (
          append key (
            append " must be between "
              (append (decimal minimum) (append " and " (decimal maximum)))))
      else pure value

  -- Both bounds are positive wherever the source calls it, so no negative number is within them.
  integer_value : String → ℕ → ℕ → Option Json → Action S ℕ
  unfolding within
  integer_value key minimum maximum (some (whole n)) = within key minimum maximum n
  integer_value key minimum maximum (some (negative n)) = raise (
      append key
        (append " must be between " (append (decimal minimum) (append " and " (decimal maximum)))))
  integer_value key minimum maximum _ = raise (append key " must be an integer")

  unfoldable pub bounded_integer_input : Fields → String → ℕ → ℕ → Action S ℕ
  unfolding integer_value get_field
  bounded_integer_input inputs key minimum maximum =
      integer_value key minimum maximum (get_field key inputs)

  run_of : Option String → Option String → Action S String
  run_of (some run) (some step) = pure run
  run_of _ _ = raise "privileged task run scope is required"

  unfoldable pub broker_task_run_id : TaskEnvelope → Action S String
  unfolding run_of non_empty
  broker_task_run_id task = run_of (non_empty task.run_id) (non_empty task.run_step_id)

module _ {S : Type 0} where
  run_of_cases :
      (run step : Option String) (s : S)
      → ((name : String) × (run_of run step s ≡ done name s))
        ⊎ ((e : String) × (run_of run step s ≡ fail e s))
  unfolding run_of ◌>>=◌
  run_of_cases (some run) (some step) s = inl (run, refl)
  run_of_cases (some run) none s = inr (_, refl)
  run_of_cases none step s = inr (_, refl)

  -- The run's name is read off the task: the state stays as it is.
  pub broker_task_run_id_cases :
      (task : TaskEnvelope) (s : S)
      → ((name : String) × (broker_task_run_id task s ≡ done name s))
        ⊎ ((e : String) × (broker_task_run_id task s ≡ fail e s))
  unfolding broker_task_run_id
  broker_task_run_id_cases task s =
      run_of_cases (non_empty task.run_id) (non_empty task.run_step_id) s
