-- ===== src/Budget.antt =====
-- The budget report of budget.py: what the agent runs of a project used.
pub mod Usage
pub mod Report
use project_os_agentic_agile.Base.{
  ℕ, suc, ◌+◌, String, Bool, true, false, ◌&&◌, ◌||◌, List, [], ◌∷◌, Option, none, some, str_eq,
  if◌then◌else◌, ◌==◌, find, truthy, coalesce, is_some, ℤ, pos, ◌+ℤ◌, neg,
}
use project_os_agentic_agile.Store.Schema.{Job, Db}
use project_os_agentic_agile.Store.Rows.{find_job}

-- The values of a JSON object that are told apart: a number with a fraction, a list and an object are
-- `other`.
pub data Json : Type 0 where
  null other : Json
  boolean : Bool → Json
  integer : ℤ → Json
  text : String → Json

pub data Document : Type 0 where
  object : List (String × Json) → Document
  not_object : Document

-- data.get(key), where null stands for a missing key too.
abbrev pub get : String → List (String × Json) → Option Json
get key [] = none
get key ((k, v) ∷ fields) = if str_eq k key then some v else get key fields

-- data.get(key, data.get(other_key))
abbrev pub get_or : (key other_key : String) → List (String × Json) → Json
get_or key other_key fields = coalesce (get key fields) (coalesce (get other_key fields) null)

-- What the two isinstance tests and `is None` tell of a value. Python's booleans are integers.
pub data Count : Type 0 where
  absent unusable : Count
  counted : ℤ → Count

abbrev pub count_of : Json → Count
count_of null = absent
count_of (integer n) = counted n
count_of (boolean true) = counted (pos 1)
count_of (boolean false) = counted (pos 0)
count_of (text _) = unusable
count_of other = unusable

-- The result of _parse_usage: (input, output, reported).
pub record UsageCount : Type 0 where
  pub input : Option ℤ
  pub output : Option ℤ
  pub reported : Bool

abbrev pub unreported : UsageCount
unreported = record { input = none; output = none; reported = false }

unfoldable pub usage_of : Count → Count → UsageCount
usage_of (counted i) (counted o) = record { input = some i; output = some o; reported = true }
usage_of (counted i) absent = record { input = some i; output = none; reported = true }
usage_of absent (counted o) = record { input = none; output = some o; reported = true }
usage_of _ _ = unreported

abbrev pub is_text : String → Option Json → Bool
is_text s (some (text t)) = str_eq t s
is_text s _ = false

unfoldable pub usage_of_document : Option Document → UsageCount
usage_of_document none = unreported
usage_of_document (some not_object) = unreported
usage_of_document (some (object fields)) =
    if is_text "unknown" (get "status" fields)
    then unreported
    else usage_of (count_of (get_or "input_tokens" "prompt_tokens" fields))
        (count_of (get_or "output_tokens" "completion_tokens" fields))

-- The columns of agent_runs that are read.
pub record AgentRun : Type 0 where
  pub job_id : ℕ
  pub duration_ms : Option ℤ
  pub usage_json : Option String

-- A row of the join with orchestration_jobs.
pub record RunRow : Type 0 where
  pub agent_role : String
  pub duration_ms : Option ℤ
  pub usage_json : Option String

pub record Schedule : Type 0 where
  pub project_human_id : String
  pub approved_budget_tokens : Option ℤ

abbrev pub in_iteration : Option String → Option String → Bool
in_iteration none value = true
in_iteration (some s) none = false
in_iteration (some s) (some value) = str_eq value s

abbrev pub is_budget_job : String → Option String → Job → Bool
is_budget_job project_human_id iteration j =
    str_eq j.project_human_id project_human_id
    && in_iteration (truthy iteration) j.iteration_human_id

abbrev pub join_job : String → Option String → AgentRun → Option Job → List RunRow → List RunRow
join_job pid iteration r none rows = rows
join_job pid iteration r (some j) rows =
    if is_budget_job pid iteration j
    then record {
      agent_role = j.agent_role;
      duration_ms = r.duration_ms;
      usage_json = r.usage_json;
    }
      ∷ rows
    else rows

unfoldable pub run_rows : String → Option String → Db → List AgentRun → List RunRow
run_rows pid iteration db [] = []
run_rows pid iteration db (r ∷ runs) =
    join_job pid iteration r (find_job r.job_id db) (run_rows pid iteration db runs)

-- per_role_counts[role] = per_role_counts.get(role, 0) + 1
abbrev pub add_role : String → List (String × ℕ) → List (String × ℕ)
add_role role [] = (role, 1) ∷ []
add_role role ((r, n) ∷ counts) =
    if str_eq r role then (r, suc n) ∷ counts else (r, n) ∷ add_role role counts

-- The variables of the loop.
pub record Tally : Type 0 where
  pub cursor_invocations : ℕ
  pub total_duration_ms : ℤ
  pub per_role_counts : List (String × ℕ)
  pub unreported_usage_count : ℕ
  pub input_sum : ℤ
  pub output_sum : ℤ
  pub any_input : Bool
  pub any_output : Bool

abbrev pub no_runs : Tally
no_runs = record {
  cursor_invocations = 0;
  total_duration_ms = pos 0;
  per_role_counts = [];
  unreported_usage_count = 0;
  input_sum = pos 0;
  output_sum = pos 0;
  any_input = false;
  any_output = false;
}

-- What a NULL adds is nothing.
abbrev pub add_to : ℤ → Option ℤ → ℤ
add_to n none = n
add_to n (some m) = n +ℤ m

abbrev pub next_unreported : Bool → ℕ → ℕ
next_unreported true n = n
next_unreported false n = suc n

-- What a row adds. Where usage is not reported, its numbers are not there.
unfoldable pub add_row : RunRow → UsageCount → Tally → Tally
add_row row u t = record {
  cursor_invocations = suc t.cursor_invocations;
  total_duration_ms = add_to t.total_duration_ms row.duration_ms;
  per_role_counts = add_role row.agent_role t.per_role_counts;
  unreported_usage_count = next_unreported u.reported t.unreported_usage_count;
  input_sum = if u.reported then add_to t.input_sum u.input else t.input_sum;
  output_sum = if u.reported then add_to t.output_sum u.output else t.output_sum;
  any_input = t.any_input || (u.reported && is_some u.input);
  any_output = t.any_output || (u.reported && is_some u.output);
}

pub record BudgetReport : Type 0 where
  pub project_human_id : String
  pub iteration_human_id : Option String
  pub cursor_invocations : ℕ
  pub total_duration_ms : ℤ
  pub per_role_counts : List (String × ℕ)
  pub token_input : Option ℤ
  pub token_output : Option ℤ
  pub unreported_usage_count : ℕ
  pub approved_budget_tokens : Option ℤ
  pub remaining_budget_tokens : Option ℤ

abbrev pub some_if : Bool → ℤ → Option ℤ
some_if b n = if b then some n else none

abbrev pub approved_of : Option Schedule → Option ℤ
approved_of none = none
approved_of (some s) = s.approved_budget_tokens

unfoldable pub remaining : (approved input output : Option ℤ) → Option ℤ
remaining none input output = none
remaining (some a) input output =
    some_if (is_some input || is_some output)
      (a +ℤ neg (coalesce input (pos 0) +ℤ coalesce output (pos 0)))

-- `loads` is json.loads, and none where that raises JSONDecodeError.
module _ (loads : String → Option Document) where
  unfoldable pub parse_text : Option String → UsageCount
  parse_text none = unreported
  parse_text (some s) = usage_of_document (loads s)

  unfoldable pub parse_usage : Option String → UsageCount
  parse_usage usage_json = parse_text (truthy usage_json)

  unfoldable pub add_rows : List RunRow → Tally → Tally
  add_rows [] t = t
  add_rows (row ∷ rows) t = add_rows rows (add_row row (parse_usage row.usage_json) t)

  unfoldable pub build_budget_report :
      (project_human_id : String)
      → (iteration_human_id : Option String) → Db
      → List AgentRun
      → List Schedule
      → BudgetReport
  build_budget_report pid iteration db runs schedules =
      let t = add_rows (run_rows pid iteration db runs) no_runs in
      let input = some_if t.any_input t.input_sum in
      let output = some_if t.any_output t.output_sum in
      let approved = approved_of (find (λ s. str_eq s.project_human_id pid) schedules) in
      record {
        project_human_id = pid;
        iteration_human_id = iteration;
        cursor_invocations = t.cursor_invocations;
        total_duration_ms = t.total_duration_ms;
        per_role_counts = t.per_role_counts;
        token_input = input;
        token_output = output;
        unreported_usage_count = t.unreported_usage_count;
        approved_budget_tokens = approved;
        remaining_budget_tokens = remaining approved input output;
      }
