-- ===== src/Budget/Report.antt =====
-- What a budget report adds up, against a reading of the runs one by one.
use project_os_agentic_agile.Base.{
  ◌+◌, ◌≤◌, String, Bool, not, ◌||◌, List, [], ◌∷◌, Option, none, some, str_eq, truthy, ℤ, ◌≡◌, inr,
  refl, ◌∙◌, length, count, arith,
}
use project_os_agentic_agile.Store.Schema.{Db}
use project_os_agentic_agile.Budget.{
  Document, UsageCount, AgentRun, RunRow, Schedule, run_rows, Tally, no_runs, add_row, parse_text,
  parse_usage, add_rows, remaining, build_budget_report,
}
use project_os_agentic_agile.Budget.Usage.{
  role_count, role_sum, given, sum_from, is_given, total, IsHonest, usage_of_document-IsHonest,
  add_role-count, add_role-sum, input-honest, output-honest, number_step, silent_step, total-none,
  given_step,
}

remaining-none : (a : Option ℤ) → remaining a none none ≡ none
unfolding remaining
remaining-none none = refl
remaining-none (some a) = refl

module _ (loads : String → Option Document) where
  abbrev pub usage_in : RunRow → UsageCount
  usage_in row = parse_usage loads row.usage_json

  abbrev pub inputs : List RunRow → List (Option ℤ)
  inputs [] = []
  inputs (row ∷ rows) = (usage_in row).input ∷ inputs rows

  abbrev pub outputs : List RunRow → List (Option ℤ)
  outputs [] = []
  outputs (row ∷ rows) = (usage_in row).output ∷ outputs rows

  abbrev pub is_silent : RunRow → Bool
  is_silent row = not (usage_in row).reported

  parse_text-IsHonest : (json : Option String) → IsHonest (parse_text loads json)
  unfolding parse_text
  parse_text-IsHonest none = inr (refl, refl, refl)
  parse_text-IsHonest (some s) = usage_of_document-IsHonest (loads s)

  usage_in-IsHonest : (row : RunRow) → IsHonest (usage_in row)
  unfolding parse_usage
  usage_in-IsHonest row = parse_text-IsHonest (truthy row.usage_json)

  add_rows-count :
      (rows : List RunRow) (t : Tally)
      → ((add_rows loads rows t).cursor_invocations ≡ length rows + t.cursor_invocations)
        × ((add_rows loads rows t).unreported_usage_count
            ≡ count is_silent rows + t.unreported_usage_count)
        × (role_sum (add_rows loads rows t).per_role_counts
            ≡ length rows + role_sum t.per_role_counts)
  unfolding add_rows add_row
  add_rows-count [] t = (omega arith, omega arith, omega arith)
  add_rows-count (row ∷ rows) t =
      let u = parse_usage loads row.usage_json in
      let (a, b, c) = add_rows-count rows (add_row row u t) in
      let d = add_role-sum row.agent_role t.per_role_counts in
      (
        omega (arith, a),
        silent_step u.reported (count is_silent rows) t.unreported_usage_count b,
        omega (arith, c, d),
      )

  add_rows-role :
      (role : String) (rows : List RunRow) (t : Tally)
      → role_count role (add_rows loads rows t).per_role_counts
        ≡ count (λ (row : RunRow). str_eq row.agent_role role) rows
          + role_count role t.per_role_counts
  unfolding add_rows add_row
  add_rows-role role [] t = omega arith
  add_rows-role role (row ∷ rows) t =
      let u = parse_usage loads row.usage_json in
      let h = add_rows-role role rows (add_row row u t) in
      let k = add_role-count role row.agent_role t.per_role_counts in ground (arith, h, k)

  add_rows-input :
      (rows : List RunRow) (t : Tally)
      → ((add_rows loads rows t).input_sum ≡ sum_from t.input_sum (given (inputs rows)))
        × ((add_rows loads rows t).any_input ≡ (t.any_input || is_given (given (inputs rows))))
  unfolding add_rows add_row
  add_rows-input [] t = (refl, ground arith)
  add_rows-input (row ∷ rows) t =
      let u = parse_usage loads row.usage_json in
      let (a, b) = add_rows-input rows (add_row row u t) in
      let (c, d) =
        number_step u.reported u.input (input-honest (usage_in-IsHonest row)) t.input_sum
          t.any_input (inputs rows) in
      (a ∙ c, b ∙ d)

  add_rows-output :
      (rows : List RunRow) (t : Tally)
      → ((add_rows loads rows t).output_sum ≡ sum_from t.output_sum (given (outputs rows)))
        × ((add_rows loads rows t).any_output ≡ (t.any_output || is_given (given (outputs rows))))
  unfolding add_rows add_row
  add_rows-output [] t = (refl, ground arith)
  add_rows-output (row ∷ rows) t =
      let u = parse_usage loads row.usage_json in
      let (a, b) = add_rows-output rows (add_row row u t) in
      let (c, d) =
        number_step u.reported u.output (output-honest (usage_in-IsHonest row)) t.output_sum
          t.any_output (outputs rows) in
      (a ∙ c, b ∙ d)

  inputs-length :
      (rows : List RunRow) → count is_silent rows + length (given (inputs rows)) ≤ length rows
  inputs-length [] = omega arith
  inputs-length (row ∷ rows) =
      given_step (usage_in row).reported (usage_in row).input (input-honest (usage_in-IsHonest row))
        (inputs rows) (count is_silent rows) (length rows) (inputs-length rows)

  outputs-length :
      (rows : List RunRow) → count is_silent rows + length (given (outputs rows)) ≤ length rows
  outputs-length [] = omega arith
  outputs-length (row ∷ rows) =
      given_step (usage_in row).reported (usage_in row).output
        (output-honest (usage_in-IsHonest row)) (outputs rows) (count is_silent rows) (length rows)
        (outputs-length rows)

  module _ (pid : String) (iteration : Option String) (db : Db) (runs : List AgentRun)
      (schedules : List Schedule) where
    -- The report of a project's runs, of one iteration or of all: the tokens read and written are the sums
    -- of the numbers that the runs' usage gives, and unknown where no run gives one; and the count of a role
    -- is the number of runs of its jobs.
    pub build_budget_report-total :
        (role : String)
        → let report = build_budget_report loads pid iteration db runs schedules in
          let rows = run_rows pid iteration db runs in
          (report.token_input ≡ total (given (inputs rows)))
          × (report.token_output ≡ total (given (outputs rows)))
          × (role_count role report.per_role_counts
              ≡ count (λ (row : RunRow). str_eq row.agent_role role) rows)
    unfolding build_budget_report
    build_budget_report-total role =
        let rows = run_rows pid iteration db runs in
        let (a, b) = add_rows-input rows no_runs in
        let (c, d) = add_rows-output rows no_runs in
        let e = add_rows-role role rows no_runs in
        (rw (a, b) refl, rw (c, d) refl, omega (arith, e))

    -- The invocations are the runs, and the counts of the roles make them up; and the runs that report no
    -- usage and those whose tokens are added up, read or written, are together no more than the invocations.
    pub build_budget_report-length :
        let report = build_budget_report loads pid iteration db runs schedules in
        let rows = run_rows pid iteration db runs in
        (report.cursor_invocations ≡ length rows)
        × (role_sum report.per_role_counts ≡ report.cursor_invocations)
        × (report.unreported_usage_count + length (given (inputs rows)) ≤ report.cursor_invocations)
        × (report.unreported_usage_count + length (given (outputs rows))
            ≤ report.cursor_invocations)
    unfolding build_budget_report
    build_budget_report-length =
        let rows = run_rows pid iteration db runs in
        let (a, b, c) = add_rows-count rows no_runs in
        (
          omega (arith, a),
          omega (arith, a, c),
          omega (arith, a, b, inputs-length rows),
          omega (arith, a, b, outputs-length rows),
        )

    build_budget_report-remaining :
        let report = build_budget_report loads pid iteration db runs schedules in
        report.remaining_budget_tokens
        ≡ remaining report.approved_budget_tokens report.token_input report.token_output
    unfolding build_budget_report
    build_budget_report-remaining = refl

    -- Where every run is counted as unreported, the report invents nothing: the tokens read, written and
    -- remaining are unknown.
    pub build_budget_report-none :
        (build_budget_report loads pid iteration db runs schedules).unreported_usage_count
          ≡ (build_budget_report loads pid iteration db runs schedules).cursor_invocations
        → let report = build_budget_report loads pid iteration db runs schedules in
          (report.token_input ≡ none)
          × (report.token_output ≡ none)
          × (report.remaining_budget_tokens ≡ none)
    build_budget_report-none silent =
        let rows = run_rows pid iteration db runs in
        let (a, b, c) = build_budget_report-total "" in
        let (d, e, f, g) = build_budget_report-length in
        let i = a ∙ total-none (given (inputs rows)) (omega (arith, silent, f)) in
        let o = b ∙ total-none (given (outputs rows)) (omega (arith, silent, g)) in
        (i, o, build_budget_report-remaining ∙ rw (i, o) (remaining-none _))
