-- ===== src/Tests/Selection.antt =====
-- The choice of a job at concrete input.
use project_os_agentic_agile.Base.{List, [], ◌∷◌, none, some, ◌≡◌, refl, inl, true, In, length, ◌↔◌}
use project_os_agentic_agile.Store.Schema.{Job, empty}
use project_os_agentic_agile.Store.Action.{ok}
use project_os_agentic_agile.Store.Selection.{
  dependencies_satisfied, is_candidate, select_ready_job, runs_before, list_job_dependencies,
  list_dependent_job_ids, list_eligible_ready_jobs, is_eligible_row,
}
use project_os_agentic_agile.Store.Selection.Dependents.{
  list_job_dependencies-list_dependent_job_ids,
}
use project_os_agentic_agile.Store.Selection.Choice.{select_ready_job-first}
use project_os_agentic_agile.Store.Selection.Eligible.{
  AllRunnable, WithinLimit, list_eligible_ready_jobs-runnable,
}
use project_os_agentic_agile.Store.Operations.{create}
use project_os_agentic_agile.Store.Isolation.{IsIsolated}
use project_os_agentic_agile.Store.Isolation.Preserved.{apply_all-IsIsolated, empty-IsIsolated}
use project_os_agentic_agile.Tests.{as_written, new_job, steps, tables, first_job, one_job}

first_runnable : dependencies_satisfied 1 one_job ≡ (ok true, one_job)
unfolding steps
first_runnable = refl

first_listed : In first_job one_job.jobs
unfolding steps
first_listed = inl refl

one_job-IsIsolated : IsIsolated as_written one_job
one_job-IsIsolated =
    apply_all-IsIsolated as_written (create 1000000 (new_job "JOB-1" "READY") ∷ []) empty
      (empty-IsIsolated as_written)

select_ready_job-first_example :
    (j : Job) × (select_ready_job (some "implementation") none none one_job
      ≡ (ok (some j), one_job))
    × In j one_job.jobs
    × (is_candidate (some "implementation") none none j ≡ true)
    × (dependencies_satisfied j.id one_job ≡ (ok true, one_job))
    × (runs_before j first_job ≡ true)
select_ready_job-first_example =
    select_ready_job-first as_written (some "implementation") none none one_job first_job
      one_job-IsIsolated first_listed refl first_runnable

list_eligible_ready_jobs-runnable_example :
    (rs : List Job) × (list_eligible_ready_jobs (some 0) none (some "PRJ-1") one_job
      ≡ (ok rs, one_job))
    × AllRunnable
        (λ j. In j one_job.jobs × (is_eligible_row one_job none (some "PRJ-1") j ≡ true))
        one_job
        rs
    × WithinLimit (some 0) (length rs)
list_eligible_ready_jobs-runnable_example =
    list_eligible_ready_jobs-runnable as_written (some 0) none (some "PRJ-1") one_job
      one_job-IsIsolated

list_job_dependencies-list_dependent_job_ids_example :
    In 1 (list_job_dependencies tables 2) ↔ In 2 (list_dependent_job_ids tables 1)
list_job_dependencies-list_dependent_job_ids_example =
    list_job_dependencies-list_dependent_job_ids tables 2 1
