-- ===== src/Scheduler/Tests.antt =====
-- Runs of the scheduler, over a gocron that counts what is registered; a negative job fails.
use hanami.Base.{
  ℕ, suc, ◌≡◌, refl, pos, false, none, some, List, [], ◌∷◌, String, ok, err, contains, sort_by,
  insert_sorted,
}
use hanami.Scheduler.{
  Native, Job, Runtime, Monitor, SchedulerError, construct_and_register, register_jobs,
  set_required, initialize, check, running, failing, register_failed, construct_failed, observe_all,
  job_failed_event, scheduler_stopped, job_failed, by_name,
}
use hanami.Scheduler.Monitoring.{first_failure, observe_all-failure}
use hanami.Scheduler.Starting.{construct-shutdown, initialize-check}

-- A number of registrations, zero once it is shut down.
abbrev gocron : Native ℕ String
gocron = record {
  new_scheduler = ok 1;
  start = λ s. s;
  shutdown = λ s. (0, none);
  stop_jobs = λ s. (s, none);
}

abbrev sweep : Job ℕ String
sweep = record { name = "sweep"; register = some (λ s. ok (suc s)) }

abbrev report : Job ℕ String
report = record { name = "report"; register = some (λ s. err ("no cron", s)) }

abbrev with_jobs : List (Job ℕ String) → Runtime ℕ String
with_jobs jobs = record {
  config = record { shutdown_timeout = pos 0; health_timeout = pos 0; health_name = "" };
  jobs = jobs;
  health_name = "scheduler";
  monitor = record { required = []; failure = none; intentional_stop = false };
  native = none;
  started = false;
  stopping = false;
}

registers_one : (construct_and_register gocron (with_jobs (sweep ∷ []))).0.native ≡ some 2
unfolding construct_and_register register_jobs set_required sort_by insert_sorted contains
registers_one = refl

refuses_report :
    (construct_and_register gocron (with_jobs (sweep ∷ report ∷ []))).1
    ≡ some (register_failed "report" "no cron")
unfolding construct_and_register register_jobs set_required sort_by insert_sorted contains
refuses_report = refl

abbrev monitor : Monitor String
monitor = record { required = "sweep" ∷ []; failure = none; intentional_stop = false }

observe_all-failure_example :
    ((e : SchedulerError String)
      → monitor.failure ≡ some e
      → (observe_all (job_failed_event "sweep" "full" ∷ scheduler_stopped ∷ []) monitor).failure
        ≡ some e)
    × (monitor.failure ≡ none
        → (observe_all (job_failed_event "sweep" "full" ∷ scheduler_stopped ∷ []) monitor).failure
          ≡ some (job_failed "sweep" "full"))
unfolding first_failure contains
observe_all-failure_example =
    observe_all-failure (job_failed_event "sweep" "full" ∷ scheduler_stopped ∷ []) monitor

construct-shutdown_example :
    ((construct_and_register gocron (with_jobs (sweep ∷ report ∷ []))).0.native ≡ none)
    × ((f : String)
        → gocron.new_scheduler ≡ err f
        → register_failed "report" "no cron" ≡ construct_failed f)
    × ((s : ℕ)
        → gocron.new_scheduler ≡ ok s
        → (s' : ℕ) × ((register_jobs gocron []
              (sort_by by_name (sweep ∷ report ∷ []))
              s
              (with_jobs (sweep ∷ report ∷ [])).monitor).native
            ≡ 0))
construct-shutdown_example =
    construct-shutdown gocron (with_jobs (sweep ∷ report ∷ [])) (register_failed "report" "no cron")
      refuses_report

initialize-check_example :
    let r = with_jobs (sweep ∷ []) in
    ((initialize gocron r).1 ≡ none → check (initialize gocron r).0 ≡ running)
    × ((e : SchedulerError String)
        → (initialize gocron r).1 ≡ some e
        → (check (initialize gocron r).0 ≡ failing "scheduler failed" (some e))
          × ((initialize gocron r).0.started ≡ false))
initialize-check_example = initialize-check gocron (with_jobs (sweep ∷ [])) refl refl refl
