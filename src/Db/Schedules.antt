-- ===== src/Db/Schedules.antt =====
-- db/repository.rs: the statements on schedule_config, which have a state of their own, as only the
-- scheduler and its API read them.
use bitprotector.Db.Pairs.{given_or}
use bitprotector.Base.Table.{delete_where, find, update_where}
use bitprotector.Base.{
  Bool, Exec, List, Option, Text, [], gets, modify, none, or_raise, row_not_found, some, ℕ, ◌++◌,
  ◌+◌, ◌==◌, ◌>>=◌, ◌>>◌, ◌∷◌,
}

-- scheduler::TaskType, the column task_type
pub data TaskType : Type 0 where
  sync integrity_check : TaskType

-- Intervals and durations in seconds, which the API lets be negative, are natural numbers here.
pub record ScheduleConfig : Type 0 where
  pub id : ℕ
  pub task_type : TaskType
  pub cron_expr : Option Text
  pub interval_seconds : Option ℕ
  pub max_duration_seconds : Option ℕ
  pub enabled : Bool
  pub last_run : Option ℕ
  pub next_run : Option ℕ

pub record Schedules : Type 0 where
  pub schedules : List ScheduleConfig
  pub next_schedule_id : ℕ
  pub clock : ℕ

abbrev pub schedule_is : ℕ → ScheduleConfig → Bool
schedule_is id c = c.id == id

unfoldable pub get_schedule_config : ℕ → Exec Schedules ScheduleConfig
get_schedule_config id = do
  found ← gets (λ s. find (schedule_is id) s.schedules)
  or_raise found row_not_found

unfoldable pub list_schedule_configs : Exec Schedules (List ScheduleConfig)
list_schedule_configs = gets (λ s. s.schedules)

unfoldable pub create_schedule_config :
    TaskType → Option Text → Option ℕ → Bool → Option ℕ → Exec Schedules ScheduleConfig
create_schedule_config task cron interval enabled max_duration = do
  id ← gets (λ s. s.next_schedule_id)
  modify (λ s. record s {
    schedules =
        s.schedules
        ++ record {
          id = id;
          task_type = task;
          cron_expr = cron;
          interval_seconds = interval;
          max_duration_seconds = max_duration;
          enabled = enabled;
          last_run = none;
          next_run = none;
        }
          ∷ [];
    next_schedule_id = id + 1;
  })
  get_schedule_config id

abbrev pub update_schedules : ℕ → (ScheduleConfig → ScheduleConfig) → Exec Schedules (Unit {0})
update_schedules id f =
    modify (λ s. record s { schedules = update_where (schedule_is id) f s.schedules })

unfoldable pub update_schedule_config :
    ℕ
    → Option (Option Text)
    → Option (Option ℕ)
    → Option Bool
    → Option (Option ℕ)
    → Exec Schedules ScheduleConfig
update_schedule_config id cron interval enabled max_duration = do
  update_schedules id (λ c. record c {
    cron_expr = given_or cron c.cron_expr;
    interval_seconds = given_or interval c.interval_seconds;
    enabled = given_or enabled c.enabled;
    max_duration_seconds = given_or max_duration c.max_duration_seconds;
  })
  get_schedule_config id

unfoldable pub delete_schedule_config : ℕ → Exec Schedules (Unit {0})
delete_schedule_config id =
    modify (λ s. record s { schedules = delete_where (schedule_is id) s.schedules })

-- The CASE on the columns.
abbrev pub next_run_of : ℕ → Option Text → Option ℕ → Option ℕ
next_run_of now (some cron) interval = none
next_run_of now none none = none
next_run_of now none (some seconds) = some (now + seconds)

unfoldable pub update_schedule_last_run : ℕ → Exec Schedules (Unit {0})
update_schedule_last_run id s =
    update_schedules id
      (λ c. record c {
        last_run = some s.clock;
        next_run = next_run_of s.clock c.cron_expr c.interval_seconds;
      })
      s
