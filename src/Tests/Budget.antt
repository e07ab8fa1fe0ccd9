-- ===== src/Tests/Budget.antt =====
-- The budget report of four runs, and of two that report no usage.
use project_os_agentic_agile.Base.{
  ◌+◌, ◌≤◌, String, true, List, [], ◌∷◌, Option, none, some, str_eq, if◌then◌else◌, pos, negsuc,
  ◌≡◌, refl, length, count,
}
use project_os_agentic_agile.Tests.{one_job, steps}
use project_os_agentic_agile.Budget.{
  integer, text, boolean, Document, object, usage_of, usage_of_document, AgentRun, RunRow, Schedule,
  run_rows, add_row, remaining, parse_text, parse_usage, add_rows, build_budget_report,
}
use project_os_agentic_agile.Budget.Usage.{role_count, role_sum, given, total}
use project_os_agentic_agile.Budget.Report.{
  inputs, outputs, build_budget_report-total, build_budget_report-length, build_budget_report-none,
}

abbrev document_of : String → Option Document
document_of s =
    if str_eq s "both"
    then some (
        object (("input_tokens", integer (pos 700)) ∷ ("completion_tokens", integer (pos 40)) ∷ []))
    else if str_eq s "flag"
    then some (object (("prompt_tokens", boolean true) ∷ []))
    else if str_eq s "unknown"
    then some (object (("status", text "unknown") ∷ ("input_tokens", integer (pos 9)) ∷ []))
    else none

abbrev run : Option String → AgentRun
run usage_json = record { job_id = 1; duration_ms = some (pos 1500); usage_json = usage_json }

abbrev runs : List AgentRun
runs = run (some "both") ∷ run (some "flag") ∷ run (some "unknown") ∷ run none ∷ []

abbrev schedules : List Schedule
schedules = record { project_human_id = "PRJ-1"; approved_budget_tokens = some (pos 500) } ∷ []

-- A flag counts as a number, and more may be used than was approved.
overspent :
    let report = build_budget_report document_of "PRJ-1" none one_job runs schedules in
    (report.token_input ≡ some (pos 701))
    × (report.token_output ≡ some (pos 40))
    × (report.unreported_usage_count ≡ 2)
    × (report.total_duration_ms ≡ pos 6000)
    × (report.remaining_budget_tokens ≡ some (negsuc 240))
unfolding steps build_budget_report run_rows add_rows add_row parse_usage parse_text
    usage_of_document usage_of remaining
overspent = (refl, refl, refl, refl, refl)

build_budget_report-total_example :
    let report = build_budget_report document_of "PRJ-1" none one_job runs schedules in
    let rows = run_rows "PRJ-1" none one_job runs in
    (report.token_input ≡ total (given (inputs document_of rows)))
    × (report.token_output ≡ total (given (outputs document_of rows)))
    × (role_count "developer" report.per_role_counts
        ≡ count (λ (row : RunRow). str_eq row.agent_role "developer") rows)
build_budget_report-total_example =
    build_budget_report-total document_of "PRJ-1" none one_job runs schedules "developer"

build_budget_report-length_example :
    let report = build_budget_report document_of "PRJ-1" none one_job runs schedules in
    let rows = run_rows "PRJ-1" none one_job runs in
    (report.cursor_invocations ≡ length rows)
    × (role_sum report.per_role_counts ≡ report.cursor_invocations)
    × (report.unreported_usage_count + length (given (inputs document_of rows))
        ≤ report.cursor_invocations)
    × (report.unreported_usage_count + length (given (outputs document_of rows))
        ≤ report.cursor_invocations)
build_budget_report-length_example =
    build_budget_report-length document_of "PRJ-1" none one_job runs schedules

abbrev silent_runs : List AgentRun
silent_runs = run (some "unknown") ∷ run (some "") ∷ []

all_silent :
    (build_budget_report document_of "PRJ-1" none one_job silent_runs
      schedules).unreported_usage_count
    ≡ (build_budget_report document_of "PRJ-1" none one_job silent_runs
        schedules).cursor_invocations
unfolding steps build_budget_report run_rows add_rows add_row parse_usage parse_text
    usage_of_document usage_of
all_silent = refl

build_budget_report-none_example :
    let report = build_budget_report document_of "PRJ-1" none one_job silent_runs schedules in
    (report.token_input ≡ none)
    × (report.token_output ≡ none)
    × (report.remaining_budget_tokens ≡ none)
build_budget_report-none_example =
    build_budget_report-none document_of "PRJ-1" none one_job silent_runs schedules all_silent
