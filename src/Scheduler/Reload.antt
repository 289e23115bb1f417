-- ===== src/Scheduler/Reload.antt =====
-- Which threads run after a reload.
use bitprotector.Scheduler.{
  start_thread, Scheduler, enabled_as, is_wanted, reload, reload_database_backup_threads,
  start_missing, stop_unwanted,
}
use mathlib.Core.Path.{subst}
use bitprotector.Base.{
  ==_iff, Bool-cases, Option-cases, ap, arith, false, inl, inr, refl, true, ◌==◌, ◌∙◌, List, Option,
  [], none, not, some, ℕ, ◌∷◌, ◌≡◌,
}
use bitprotector.Db.Schedules.{ScheduleConfig, schedule_is}
use bitprotector.Db.Backups.{DbBackupSettings}
use bitprotector.Base.Table.{delete_where, find}

-- The first choice, where it is there.
abbrev pub or_else : Option ScheduleConfig → Option ScheduleConfig → Option ScheduleConfig
or_else none b = b
or_else (some a) b = some a

-- The thread of a schedule, and the enabled row of one.
abbrev pub running : ℕ → Scheduler → Option ScheduleConfig
running id s = find (schedule_is id) s.threads

abbrev pub scheduled : ℕ → List ScheduleConfig → Option ScheduleConfig
scheduled id configs = find (enabled_as id) configs

abbrev pub when_wanted : Option ScheduleConfig → Option ScheduleConfig → Option ScheduleConfig
when_wanted none a = none
when_wanted (some c) a = a

or_else-none : (o : Option ScheduleConfig) → o ≡ or_else o none
or_else-none none = refl
or_else-none (some a) = refl

when_wanted-none : (w : Option ScheduleConfig) → none ≡ when_wanted w none
when_wanted-none none = refl
when_wanted-none (some c) = refl

or_else-when_wanted :
    (w r : Option ScheduleConfig) → or_else (when_wanted w r) w ≡ when_wanted w (or_else r w)
or_else-when_wanted none r = refl
or_else-when_wanted (some c) r = refl

own_id : (id : ℕ) → (id == id) ≡ true
own_id id = ground arith

find-start_own :
    (c : ScheduleConfig) (threads : List ScheduleConfig)
    → find (schedule_is c.id) (start_thread c threads) ≡ some c
unfolding start_thread
find-start_own c threads = rw (own_id c.id) refl

apart : (k c id : ℕ) → (c == id) ≡ false → (k == c) ≡ true → (k == id) ≡ false
apart k c id h e = ground arith

find-delete_other :
    (id k : ℕ) (threads : List ScheduleConfig)
    → (k == id) ≡ false
    → find (schedule_is id) (delete_where (schedule_is k) threads) ≡ find (schedule_is id) threads
find-delete_other id k [] h = refl
find-delete_other id k (t ∷ ts) h = elim (Bool-cases (t.id == k)) [
  | inl hit ↦ rw (hit, apart t.id k id h hit) (find-delete_other id k ts h)
  | inr miss ↦ ground (arith, find-delete_other id k ts h)
]

find-start_other :
    (id : ℕ) (c : ScheduleConfig) (threads : List ScheduleConfig)
    → (c.id == id) ≡ false
    → find (schedule_is id) (start_thread c threads) ≡ find (schedule_is id) threads
unfolding start_thread
find-start_other id c threads h = rw h (find-delete_other id c.id threads h)

-- One row of the table, for the schedule of that row and for another one.
start_own :
    (c : ScheduleConfig) (cs threads : List ScheduleConfig)
    → find (schedule_is c.id) (start_missing cs threads)
      ≡ or_else (find (schedule_is c.id) threads) (scheduled c.id cs)
    → find (schedule_is c.id) (start_missing cs (start_thread c threads))
      ≡ or_else (find (schedule_is c.id) (start_thread c threads)) (scheduled c.id cs)
    → find (schedule_is c.id) (start_missing (c ∷ cs) threads)
      ≡ or_else (find (schedule_is c.id) threads) (scheduled c.id (c ∷ cs))
unfolding start_missing
start_own c cs threads old new = ground (arith, own_id c.id, find-start_own c threads)

start_other :
    (id : ℕ) (c : ScheduleConfig) (cs threads : List ScheduleConfig)
    → (c.id == id) ≡ false
    → find (schedule_is id) (start_missing cs threads)
      ≡ or_else (find (schedule_is id) threads) (scheduled id cs)
    → find (schedule_is id) (start_missing cs (start_thread c threads))
      ≡ or_else (find (schedule_is id) (start_thread c threads)) (scheduled id cs)
    → find (schedule_is id) (start_missing (c ∷ cs) threads)
      ≡ or_else (find (schedule_is id) threads) (scheduled id (c ∷ cs))
unfolding start_missing
start_other id c cs threads other old new = ground (arith, find-start_other id c threads other)

find-start_missing :
    (id : ℕ) (configs threads : List ScheduleConfig)
    → find (schedule_is id) (start_missing configs threads)
      ≡ or_else (find (schedule_is id) threads) (scheduled id configs)
unfolding start_missing
find-start_missing id [] threads = or_else-none (find (schedule_is id) threads)
find-start_missing id (c ∷ cs) threads = elim (Bool-cases (c.id == id)) [
  | inl own ↦
      subst
        (λ (k : ℕ).
          find (schedule_is k) (start_missing (c ∷ cs) threads)
          ≡ or_else (find (schedule_is k) threads) (scheduled k (c ∷ cs)))
        ((==_iff c.id id).0 own)
        (start_own c cs threads (find-start_missing c.id cs threads)
          (find-start_missing c.id cs (start_thread c threads)))
  | inr other ↦
      start_other id c cs threads other (find-start_missing id cs threads)
        (find-start_missing id cs (start_thread c threads))
]

stop_own :
    (configs : List ScheduleConfig) (t : ScheduleConfig) (ts : List ScheduleConfig)
    → find (schedule_is t.id) (delete_where (λ x. not (is_wanted configs x)) ts)
      ≡ when_wanted (scheduled t.id configs) (find (schedule_is t.id) ts)
    → find (schedule_is t.id) (delete_where (λ x. not (is_wanted configs x)) (t ∷ ts))
      ≡ when_wanted (scheduled t.id configs) (find (schedule_is t.id) (t ∷ ts))
unfolding is_wanted
stop_own configs t ts h = elim (Option-cases (find (enabled_as t.id) configs)) [
  | inl gone ↦
      rw gone
        (h ∙ ap (λ (o : Option ScheduleConfig). when_wanted o (find (schedule_is t.id) ts)) gone)
  | inr (c, there) ↦ rw (there, own_id t.id) refl
]

find-stop_unwanted :
    (id : ℕ) (configs threads : List ScheduleConfig)
    → find (schedule_is id) (delete_where (λ t. not (is_wanted configs t)) threads)
      ≡ when_wanted (scheduled id configs) (find (schedule_is id) threads)
unfolding is_wanted
find-stop_unwanted id configs [] = when_wanted-none (scheduled id configs)
find-stop_unwanted id configs (t ∷ ts) = elim (Bool-cases (t.id == id)) [
  | inl own ↦
      subst
        (λ (k : ℕ).
          find (schedule_is k) (delete_where (λ x. not (is_wanted configs x)) (t ∷ ts))
          ≡ when_wanted (scheduled k configs) (find (schedule_is k) (t ∷ ts)))
        ((==_iff t.id id).0 own) (stop_own configs t ts (find-stop_unwanted t.id configs ts))
  | inr other ↦ ground (arith, find-stop_unwanted id configs ts)
]

-- After a reload a schedule has a thread if and only if the table has an enabled row for it. A
-- thread that was running keeps the row that it was started with, whatever the table says now, and
-- a new one gets the row of the table.
pub reload_lem :
    (id : ℕ) (configs : List ScheduleConfig) (settings : DbBackupSettings) (s : Scheduler)
    → running id (reload configs settings s)
      ≡ when_wanted (scheduled id configs) (or_else (running id s) (scheduled id configs))
unfolding reload reload_database_backup_threads stop_unwanted
reload_lem id configs settings s =
    find-start_missing id configs (delete_where (λ t. not (is_wanted configs t)) s.threads)
    ∙ ap (λ (o : Option ScheduleConfig). or_else o (scheduled id configs))
        (find-stop_unwanted id configs s.threads)
    ∙ or_else-when_wanted (scheduled id configs) (running id s)
