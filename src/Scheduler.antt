-- ===== src/Scheduler.antt =====
-- scheduler/scheduler.go: the runtime that makes a gocron scheduler when the application starts, and
-- the monitor that gocron calls back. gocron is an interface: `S` is the state of a native
-- scheduler and `E` the type of the errors. The logger is left out.
pub mod Monitoring
pub mod Starting
pub mod Reference
mod Tests
use hanami.Base.{
  ℤ, is_negative, Bool, true, false, not, ◌&&◌, ◌||◌, Option, none, some, List, [], ◌∷◌, String,
  is_blank, str_eq, contains, sort_by, text_le, if◌then◌else◌, Result, ok, err,
}

-- `register` is nil when it is `none`; otherwise it takes the native scheduler to the one with the job's
-- registrations, or to an error.
pub record Job (S E : Type 0) : Type 0 where
  pub name : String
  pub register : Option (S → Result (E × S) S)

pub record Config : Type 0 where
  pub shutdown_timeout : ℤ
  pub health_timeout : ℤ
  pub health_name : String

-- What the code asks of gocron.
pub record Native (S E : Type 0) : Type 0 where
  pub new_scheduler : Result E S
  pub start : S → S
  pub shutdown : S → S × Option E
  pub stop_jobs : S → S × Option E

pub data SchedulerError (E : Type 0) : Type 0 where
  stopping name_empty stopped_unexpectedly : SchedulerError E
  shutdown_timeout_negative health_timeout_negative not_started : SchedulerError E
  no_registration registered_twice : String → SchedulerError E
  construct_failed native_failed : E → SchedulerError E
  register_failed job_failed : String → E → SchedulerError E

-- `required` holds the names that the map has with the value true, the only one that is set.
pub record Monitor (E : Type 0) : Type 0 where
  pub required : List String
  pub failure : Option (SchedulerError E)
  pub intentional_stop : Bool

-- `native` is the one behind the reference, `none` while there is none.
pub record Runtime (S E : Type 0) : Type 0 where
  pub config : Config
  pub jobs : List (Job S E)
  pub health_name : String
  pub monitor : Monitor E
  pub native : Option S
  pub started : Bool
  pub stopping : Bool

-- What gocron tells the monitor; the calls that only log are one.
pub data Event (E : Type 0) : Type 0 where
  scheduler_started scheduler_stopped only_logged : Event E
  job_failed_event : String → E → Event E

-- How the registration ends: the native scheduler, after its shutdown if there was an error, and
-- the names that have become required.
pub record Registration (S E : Type 0) : Type 0 where
  pub native : S
  pub monitor : Monitor E
  pub error : Option (SchedulerError E)

-- The outcome of the readiness check: pass, or fail with this detail and error.
pub data Health (E : Type 0) : Type 0 where
  running : Health E
  failing : String → Option (SchedulerError E) → Health E

module _ {E : Type 0} where
  unfoldable pub fail : SchedulerError E → Monitor E → Monitor E
  fail e v = elim v.failure [ none ↦ record v { failure = some e } | some f ↦ v ]

  unfoldable pub set_required : String → Monitor E → Monitor E
  set_required name v = record v { required = name ∷ v.required }

  unfoldable pub observe : Event E → Monitor E → Monitor E
  observe scheduler_started v = record v { intentional_stop = false }
  observe scheduler_stopped v =
      let w : Monitor E = record v { intentional_stop = false } in
      if v.intentional_stop then w else fail stopped_unexpectedly w
  observe only_logged v = v
  observe (job_failed_event name e) v =
      if contains name v.required then fail (job_failed name e) v else v

  unfoldable pub observe_all : List (Event E) → Monitor E → Monitor E
  observe_all [] v = v
  observe_all (o ∷ os) v = observe_all os (observe o v)

module _ {S E : Type 0} where
  unfoldable pub new_runtime : Config → List (Job S E) → Result (SchedulerError E) (Runtime S E)
  new_runtime c jobs =
      if is_negative c.shutdown_timeout
      then err shutdown_timeout_negative
      else if is_negative c.health_timeout
      then err health_timeout_negative
      else ok (record {
        config = c;
        jobs = jobs;
        health_name = if is_blank c.health_name then "scheduler" else c.health_name;
        monitor = record { required = []; failure = none; intentional_stop = false };
        native = none;
        started = false;
        stopping = false;
      })

  abbrev pub by_name : Job S E → Job S E → Bool
  by_name left right = text_le left.name right.name

  abbrev pub given_up : Native S E → S → Monitor E → SchedulerError E → Registration S E
  given_up g s v e = record { native = (g.shutdown s).0; monitor = v; error = some e }

  -- The loop over the sorted jobs; `seen` holds the names so far.
  unfoldable pub register_jobs :
      Native S E → List String → List (Job S E) → S → Monitor E → Registration S E
  register_jobs g seen [] s v = record { native = s; monitor = v; error = none }
  register_jobs g seen (j ∷ js) s v =
      if is_blank j.name then given_up g s v name_empty else elim j.register [
        | none ↦ given_up g s v (no_registration j.name)
        | some register ↦
            if contains j.name seen
            then given_up g s v (registered_twice j.name)
            else elim (register s) [
              | err (e, s') ↦ given_up g s' v (register_failed j.name e)
              | ok s' ↦ register_jobs g (j.name ∷ seen) js s' (set_required j.name v)
            ]
      ]

  unfoldable pub construct_and_register :
      Native S E → Runtime S E → Runtime S E × Option (SchedulerError E)
  construct_and_register g r = elim g.new_scheduler [
    | err e ↦ (r, some (construct_failed e))
    | ok s ↦
        let done : Registration S E = register_jobs g [] (sort_by by_name r.jobs) s r.monitor in
        elim done.error [
          | some e ↦ (record r { monitor = done.monitor }, some e)
          | none ↦ (record r { monitor = done.monitor; native = some done.native }, none)
        ]
  ]

  unfoldable pub ref_start : Native S E → Runtime S E → Runtime S E
  ref_start g r = elim r.native [
    | none ↦ r
    | some s ↦ record r {
      monitor = record r.monitor { intentional_stop = false };
      native = some (g.start s);
    }
  ]

  unfoldable pub ref_shutdown : Native S E → Runtime S E → Runtime S E × Option E
  ref_shutdown g r = elim r.native [
    | none ↦ (r, none)
    | some s ↦ (
      record r {
        monitor = record r.monitor { intentional_stop = true };
        native = some (g.shutdown s).0;
      },
      (g.shutdown s).1,
    )
  ]

  unfoldable pub ref_stop_jobs : Native S E → Runtime S E → Runtime S E × Option (SchedulerError E)
  ref_stop_jobs g r = elim r.native [
    | none ↦ (r, some not_started)
    | some s ↦ (
      record r {
        monitor = record r.monitor { intentional_stop = true };
        native = some (g.stop_jobs s).0;
      },
      elim (g.stop_jobs s).1 [ none ↦ none | some e ↦ some (native_failed e) ],
    )
  ]

  unfoldable pub initialize : Native S E → Runtime S E → Runtime S E × Option (SchedulerError E)
  initialize g r =
      if r.stopping
      then (r, some stopping)
      else let (built, failed) = construct_and_register g r in
        elim failed [
          | some e ↦ (record built { monitor = fail e built.monitor }, some e)
          | none ↦ (record (ref_start g built) { started = true }, none)
        ]

  unfoldable pub stop : Native S E → Runtime S E → Runtime S E × Option E
  stop g r =
      let marked : Runtime S E = record r { stopping = true } in
      if r.started then ref_shutdown g marked else (marked, none)

  unfoldable pub check : Runtime S E → Health E
  check r = elim r.monitor.failure [
    | some e ↦ failing "scheduler failed" (some e)
    | none ↦
        if not r.started
        then failing "scheduler is not started" none
        else if r.stopping
        then failing "scheduler is stopping" none
        else running
  ]
