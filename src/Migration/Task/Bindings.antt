-- ===== src/Migration/Task/Bindings.antt =====
-- internal/migration/task.go, `expectedBindingPurpose`: which secret a task may ask for.
use askio_agent.Base.{
  String, Bool, false, not, ◌||◌, ◌&&◌, Option, some, if◌then◌else◌, is_empty, ◌==◌, codes, append,
  ◌≡◌, arith,
}
use askio_agent.Base.Strings.{begins_with, has_suffix}
use askio_agent.Envelope.{Json, text, Fields, get_field, TaskEnvelope, task_inputs}

text_or_empty : Option Json → String
text_or_empty (some (text s)) = s
text_or_empty _ = ""

-- `value, _ := inputs[key].(string)`.
unfoldable pub text_at : String → Fields → String
unfolding text_or_empty
text_at key fields = text_or_empty (get_field key fields)

has_prefix : String → String → Bool
has_prefix s prefix = begins_with (codes s) (codes prefix)

engine_family : String → String
engine_family engine =
    if engine == "postgresql"
    then "postgres"
    else if engine == "mysql" || engine == "mariadb"
    then "mysql"
    else if engine == "mongodb"
    then "mongodb"
    else if engine == "redis" || engine == "valkey"
    then "redis"
    else ""

reads_source : String → Bool
reads_source id =
    id == "migration.source.estimate.v1" || id == "migration.source.verify-quiescence.v1"

-- The database family of a primitive, which for two of them is that of the engine in the inputs.
unfoldable pub database_family : String → String → String
unfolding has_prefix engine_family reads_source
database_family id engine =
    if has_prefix id "migration.postgres."
    then "postgres"
    else if has_prefix id "migration.mysql."
    then "mysql"
    else if has_prefix id "migration.mongodb."
    then "mongodb"
    else if has_prefix id "migration.redis."
    then "redis"
    else if reads_source id
    then engine_family engine
    else ""

unfoldable pub is_source_primitive : String → Bool
unfolding reads_source
is_source_primitive id =
    has_suffix id ".inspect.v1"
    || has_suffix id ".dump.v1"
    || reads_source id
    || id == "migration.postgres.logical-preflight.v1"
    || id == "migration.postgres.logical-schema-dump.v1"
    || id == "migration.postgres.logical-prepare-source.v1"
    || id == "migration.postgres.logical-finalize-source.v1"
    || id == "migration.postgres.logical-cleanup-source.v1"

unfoldable pub is_target_primitive : String → Bool
is_target_primitive id =
    has_suffix id ".inspect.v1"
    || has_suffix id ".reset-empty-target.v1"
    || has_suffix id ".restore.v1"
    || has_suffix id ".verify.v1"
    || id == "migration.postgres.logical-preflight.v1"
    || id == "migration.postgres.logical-restore-schema.v1"
    || id == "migration.postgres.logical-start-subscription.v1"
    || id == "migration.postgres.logical-finalize-target.v1"
    || id == "migration.postgres.logical-cleanup-target.v1"

unfoldable pub family_purpose : String → String → String → String
family_purpose id role family =
    if is_empty family
    then ""
    else if role == "source" && is_source_primitive id
    then append family ".source"
    else if role == "target" && is_target_primitive id
    then append family ".target"
    else ""

unfoldable pub purpose_for : String → String → Fields → String → String
unfolding has_prefix
purpose_for id role inputs binding =
    if text_at "transfer_binding_id" inputs == binding
      && id == "migration.files.sync.v1"
      && role == "target"
    then "transfer.source-address"
    else if text_at "runtime_secret_binding_id" inputs == binding
        && id == "migration.compose.start-isolated.v1"
        && role == "target"
    then "compose.runtime-secrets"
    else if text_at "logical_source_binding_id" inputs == binding
        && role == "target"
        && has_prefix id "migration.postgres.logical-"
    then "postgres.logical-source"
    else if not (text_at "database_binding_id" inputs == binding)
    then ""
    else family_purpose id role (database_family id (text_at "database_engine" inputs))

-- The role is read off the task's own inputs, all else off the nested ones.
unfoldable pub expected_binding_purpose : TaskEnvelope → String → String
expected_binding_purpose task binding =
    purpose_for task.primitive.id (text_at "endpoint_role" task.inputs) (task_inputs task) binding

family_purpose-none :
    (id role family : String)
    → (role == "source") ≡ false
    → (role == "target") ≡ false
    → family_purpose id role family ≡ ""
unfolding family_purpose
family_purpose-none id role family s t = ground (arith, s, t)

-- A task whose endpoint role is neither "source" nor "target" gets no secret, whatever its primitive,
-- its inputs and the binding it asks for.
pub expected_binding_purpose-none :
    (task : TaskEnvelope) (binding : String)
    → (text_at "endpoint_role" task.inputs == "source") ≡ false
    → (text_at "endpoint_role" task.inputs == "target") ≡ false
    → expected_binding_purpose task binding ≡ ""
unfolding expected_binding_purpose purpose_for
expected_binding_purpose-none task binding s t = ground (
  arith,
  s,
  t,
  family_purpose-none task.primitive.id (text_at "endpoint_role" task.inputs)
      (database_family task.primitive.id (text_at "database_engine" (task_inputs task))) s t,
)
