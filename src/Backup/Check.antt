-- ===== src/Backup/Check.antt =====
-- db/backup.rs: what run_backup_integrity_check answers, and when it writes to the disk.
use bitprotector.Db.Backups.{
  mark_db_backup_settings_integrity_run, list_db_backup_configs, sort_by_priority, Backups,
  update_db_backup_integrity_status,
}
use bitprotector.Base.{
  ignore, pure, ◌>>=◌, ◌⊎◌, arith, Bool-cases, inl, inr, ◌∙◌, database_busy, not, suc, zero, ◌&&◌,
  if◌then◌else◌, Bool, Error, Exec, List, Option, Result, Text, [], err, false, map, none, ok, refl,
  some, true, ℕ, ◌==◌, ◌>>◌, ◌∷◌, ◌≡◌,
}
use bitprotector.Backup.Defs.{
  on_database, broken_status, inspect_backup, or_again, repair_source_of,
  run_backup_integrity_check, check_broken, repair_if_marked, unless_busy, BackupHealth,
  BackupIntegrityResult, Store, arms, check_backup, check_backups, checksum_backup,
  copy_backup_atomically, is_healthy, mark_and_repair, on_disk, repair_backup, report_broken,
  report_healthy, retry_status_write, write_status,
}
use bitprotector.Fs.{exists, Bytes, FilePath, Fs}
use bitprotector.Base.Table.{select}
use bitprotector.Checksum.Hasher.{Blake3}

-- It succeeds, with an answer for the given configuration.
abbrev pub IsAnswerFor : ℕ → Result BackupIntegrityResult × Store → Type 0
IsAnswerFor id out = (r : BackupIntegrityResult) × ((out.0 ≡ ok r) × (r.backup_config_id ≡ id))

arms-both :
    {A B : Type 0} (P : Result B × Store → Type 0) (r : Result A) {f : A → Exec Store B}
    {g : Error → Exec Store B}
    → ((a : A) (s : Store) → P (f a s))
    → ((e : Error) (s : Store) → P (g e s))
    → (s : Store) → P (arms r f g s)
arms-both P (ok a) good bad s = good a s
arms-both P (err e) good bad s = bad e s

-- One answer for each of the configurations, in their order.
abbrev pub AnswersAll : List BackupHealth → Result (List BackupIntegrityResult) × Store → Type 0
AnswersAll hs out =
    (rs : List BackupIntegrityResult) × ((out.0 ≡ ok rs)
      × (map (λ r. r.backup_config_id) rs ≡ map (λ h. h.config.id) hs))

-- The disk after the step is the disk before it.
abbrev pub KeepsDisk : {A : Type 0} → Fs → A × Store → Type 0
KeepsDisk fs out = out.1.fs ≡ fs

unless_busy-KeepsDisk :
    (busy : List Bool) (m : Exec Backups (Unit {0})) (s : Store)
    → KeepsDisk s.fs (unless_busy busy m s)
unless_busy-KeepsDisk [] m s = refl
unless_busy-KeepsDisk (true ∷ bs) m s = refl
unless_busy-KeepsDisk (false ∷ bs) m s = refl

write_status-KeepsDisk :
    (id : ℕ) (status : Text) (error : Option Text) (s : Store)
    → KeepsDisk s.fs (write_status id status error s)
unfolding write_status
write_status-KeepsDisk id status error s =
    unless_busy-KeepsDisk s.busy (update_db_backup_integrity_status id status error) s

not_forced : (a b c : Bool) → a ≡ false → b ≡ false → (not a && (not b && not c)) ≡ false → c ≡ true
not_forced a b true miss other h = refl
not_forced a b false miss other h = absurd (ground arith)

-- The database is busy for the next statement.
abbrev pub is_held : List Bool → Bool
is_held [] = false
is_held (b ∷ bs) = b

-- The database is busy for as many attempts.
unfoldable pub all_busy : ℕ → List Bool → Bool
all_busy zero bs = true
all_busy (suc n) [] = false
all_busy (suc n) (b ∷ bs) = b && all_busy n bs

-- Writing a status anew succeeds exactly where the database is free for one of the attempts.
pub retry_status_write_lem :
    (n id : ℕ) (status : Text) (error : Option Text) (last : Option Error) (s : Store)
    → (retry_status_write n id status error last s).0.0 ≡ not (all_busy n s.busy)
unfolding retry_status_write all_busy write_status update_db_backup_integrity_status
retry_status_write_lem zero id status error last s = refl
retry_status_write_lem (suc n) id status error last s =
    go
      (λ bs. retry_status_write_lem n id status error (some database_busy) (record s { busy = bs }))
      s.busy refl
  where
    go :
        ((bs : List Bool)
          → (retry_status_write n id status error (some database_busy) (record s { busy = bs })).0.0
            ≡ not (all_busy n bs))
        → (bs : List Bool) → s.busy ≡ bs
        → (retry_status_write (suc n) id status error last s).0.0 ≡ not (all_busy (suc n) s.busy)
    go later_ones [] e = rw e refl
    go later_ones (false ∷ bs) e = rw e refl
    go later_ones (true ∷ bs) e = rw e (later_ones bs)

-- The backup is broken, the source is another one, and one of three attempts finds the database
-- free.
unfoldable pub may_repair : Option (ℕ × FilePath) → BackupHealth → List Bool → Bool
may_repair none h busy = false
may_repair (some source) h busy =
    not (is_healthy h) && (not (source.0 == h.config.id) && not (all_busy 3 busy))

or_again-KeepsDisk :
    (fs : Fs) (r : Result (Unit {0})) (again : Error → Store → (Bool × Option Error) × Store)
    (s : Store)
    → s.fs ≡ fs
    → ((e : Error) → KeepsDisk s.fs (again e s))
    → KeepsDisk fs (or_again r again s)
or_again-KeepsDisk fs (ok done) again s same rest = same
or_again-KeepsDisk fs (err e) again s same rest = rest e ∙ same

retry_status_write-KeepsDisk :
    (n id : ℕ) (status : Text) (error : Option Text) (last : Option Error) (s : Store)
    → KeepsDisk s.fs (retry_status_write n id status error last s)
unfolding retry_status_write
retry_status_write-KeepsDisk zero id status error last s = refl
retry_status_write-KeepsDisk (suc n) id status error last s =
    or_again-KeepsDisk s.fs (write_status id status error s).0
      (λ e. retry_status_write n id status error (some e)) (write_status id status error s).1
      (write_status-KeepsDisk id status error s)
      (λ e.
        retry_status_write-KeepsDisk n id status error (some e) (write_status id status error s).1)

if-both : {A : Type 0} (P : A → Type 0) (b : Bool) {x y : A} → P x → P y → P (if b then x else y)
if-both P true px py = px
if-both P false px py = py

module _ (b3 : Blake3) (sqlite_ok : Bytes → Bool) (shown : Error → Text) (stamp : Text) where
  repair_backup-IsAnswerFor :
      (source : ℕ × FilePath) (h : BackupHealth) (s : Store)
      → IsAnswerFor h.config.id (repair_backup b3 sqlite_ok shown stamp source h s)
  unfolding repair_backup
  repair_backup-IsAnswerFor source h s =
      arms-both (IsAnswerFor h.config.id)
        (on_disk
          (copy_backup_atomically b3 sqlite_ok shown stamp source.1 h.path
            >> checksum_backup b3 sqlite_ok shown stamp h.path)
          s).0
        (λ a s'. (_, (refl, refl))) (λ e s'. (_, (refl, refl))) _

  repair_if_marked-IsAnswerFor :
      (marked : Bool × Option Error) (pre : Text) (source : ℕ × FilePath) (h : BackupHealth)
      (s : Store)
      → IsAnswerFor h.config.id (repair_if_marked b3 sqlite_ok shown stamp marked pre source h s)
  unfolding repair_if_marked
  repair_if_marked-IsAnswerFor (true, last) pre source h s = repair_backup-IsAnswerFor source h s
  repair_if_marked-IsAnswerFor (false, last) pre source h s = (_, (refl, refl))

  report_broken-IsAnswerFor :
      (h : BackupHealth) (s : Store)
      → IsAnswerFor h.config.id (report_broken b3 sqlite_ok shown stamp h s)
  unfolding report_broken
  report_broken-IsAnswerFor h s = (_, (refl, refl))

  check_broken-IsAnswerFor :
      (source : Option (ℕ × FilePath)) (h : BackupHealth) (s : Store)
      → IsAnswerFor h.config.id (check_broken b3 sqlite_ok shown stamp source h s)
  unfolding check_broken mark_and_repair
  check_broken-IsAnswerFor none h s = report_broken-IsAnswerFor h s
  check_broken-IsAnswerFor (some source) h s =
      if-both {A = Exec Store BackupIntegrityResult} (λ m. IsAnswerFor h.config.id (m s))
        (source.0 == h.config.id) (report_broken-IsAnswerFor h s)
        (repair_if_marked-IsAnswerFor _ _ source h _)

  check_backup-IsAnswerFor :
      (source : Option (ℕ × FilePath)) (h : BackupHealth) (s : Store)
      → IsAnswerFor h.config.id (check_backup b3 sqlite_ok shown stamp source h s)
  unfolding check_backup report_healthy
  check_backup-IsAnswerFor source h s =
      if-both {A = Exec Store BackupIntegrityResult} (λ m. IsAnswerFor h.config.id (m s))
        (is_healthy h) (_, (refl, refl)) (check_broken-IsAnswerFor source h s)

  check_backups-AnswersAll :
      (source : Option (ℕ × FilePath)) (hs : List BackupHealth) (s : Store)
      → AnswersAll hs (check_backups b3 sqlite_ok shown stamp source hs s)
  unfolding check_backups
  check_backups-AnswersAll source [] s = ([], (refl, refl))
  check_backups-AnswersAll source (h ∷ hs) s =
      let (r, (done, same)) = check_backup-IsAnswerFor source h s in
      let (rs, (rest, all_same)) =
        check_backups-AnswersAll source hs (check_backup b3 sqlite_ok shown stamp source h s).1 in
      (r ∷ rs, (rw done (rw rest refl), cc))

  abbrev pub inspected : Store → List BackupHealth
  inspected s =
      map (inspect_backup b3 sqlite_ok shown stamp s.fs)
        (select (λ c. c.enabled) (sort_by_priority s.rows.configs))

  after_listing :
      (s : Store)
      → AnswersAll (inspected s) (
          (do
            results ←
                check_backups b3 sqlite_ok shown stamp
                  (repair_source_of (inspected s))
                  (inspected s)
            ignore (on_database mark_db_backup_settings_integrity_run)
            pure results)
            s)
  after_listing s =
      let (rs, (done, same)) =
        check_backups-AnswersAll (repair_source_of (inspected s)) (inspected s) s in
      (rs, (rw done refl, same))

  -- The check of all backups fails only where the database is busy when their list is read, and then
  -- it has changed neither the disk nor the tables. Otherwise it succeeds, with one answer for each
  -- enabled configuration, in the order of their priority, whatever the disk does, and however often
  -- the database is busy from then on.
  pub run_backup_integrity_check-AnswersAll :
      (s : Store)
      → ((is_held s.busy ≡ true)
          × ((run_backup_integrity_check b3 sqlite_ok shown stamp s).0 ≡ err database_busy)
          × ((run_backup_integrity_check b3 sqlite_ok shown stamp s).1.fs ≡ s.fs)
          × ((run_backup_integrity_check b3 sqlite_ok shown stamp s).1.rows ≡ s.rows))
        ⊎ ((is_held s.busy ≡ false)
            × AnswersAll (inspected s) (run_backup_integrity_check b3 sqlite_ok shown stamp s))
  unfolding run_backup_integrity_check list_db_backup_configs
  run_backup_integrity_check-AnswersAll s = go s.busy refl
    where
      go :
          (bs : List Bool)
          → s.busy ≡ bs
          → ((is_held s.busy ≡ true)
              × ((run_backup_integrity_check b3 sqlite_ok shown stamp s).0 ≡ err database_busy)
              × ((run_backup_integrity_check b3 sqlite_ok shown stamp s).1.fs ≡ s.fs)
              × ((run_backup_integrity_check b3 sqlite_ok shown stamp s).1.rows ≡ s.rows))
            ⊎ ((is_held s.busy ≡ false)
                × AnswersAll (inspected s) (run_backup_integrity_check b3 sqlite_ok shown stamp s))
      go [] e = inr (rw e (refl, after_listing (record s { busy = [] })))
      go (true ∷ bs) e = inl (rw e (refl, refl, refl, refl))
      go (false ∷ bs) e = inr (rw e (refl, after_listing (record s { busy = bs })))

  report_broken-KeepsDisk :
      (h : BackupHealth) (s : Store) → KeepsDisk s.fs (report_broken b3 sqlite_ok shown stamp h s)
  unfolding report_broken
  report_broken-KeepsDisk h s = write_status-KeepsDisk _ _ _ s

  mark_and_repair-KeepsDisk :
      (source : ℕ × FilePath) (h : BackupHealth) (s : Store)
      → all_busy 3 s.busy ≡ true
      → KeepsDisk s.fs (mark_and_repair b3 sqlite_ok shown stamp source h s)
  unfolding mark_and_repair repair_if_marked
  mark_and_repair-KeepsDisk source h s busy =
      go (retry_status_write 3 h.config.id (broken_status (exists s.fs h.path)) h.error none s)
        (rw
          (retry_status_write_lem 3 h.config.id (broken_status (exists s.fs h.path)) h.error none s)
          (rw busy refl))
        (retry_status_write-KeepsDisk 3 _ _ _ _ s)
    where
      go :
          (marked : (Bool × Option Error) × Store)
          → marked.0.0 ≡ false
          → KeepsDisk s.fs marked
          → KeepsDisk s.fs (
              repair_if_marked b3 sqlite_ok shown stamp marked.0
                (broken_status (exists s.fs h.path))
                source
                h
                marked.1)
      go ((true, last), s') failed same = absurd cc
      go ((false, last), s') failed same = same

  -- The check of a backup writes nothing to the disk where the backup is healthy, no other backup is
  -- given to repair it from, or the database is busy for all three attempts to store its state.
  pub check_backup-KeepsDisk :
      (source : Option (ℕ × FilePath)) (h : BackupHealth) (s : Store)
      → may_repair source h s.busy ≡ false
      → KeepsDisk s.fs (check_backup b3 sqlite_ok shown stamp source h s)
  unfolding check_backup may_repair report_healthy check_broken
  check_backup-KeepsDisk none h s safe =
      if-both {A = Exec Store BackupIntegrityResult} (λ m. KeepsDisk s.fs (m s)) (is_healthy h)
        (write_status-KeepsDisk _ _ _ s) (report_broken-KeepsDisk h s)
  check_backup-KeepsDisk (some source) h s safe = elim (Bool-cases (is_healthy h)) [
    | inl hit ↦ rw hit (write_status-KeepsDisk _ _ _ s)
    | inr miss ↦ elim (Bool-cases (source.0 == h.config.id)) [
      | inl own ↦ rw miss (rw own (report_broken-KeepsDisk h s))
      | inr other ↦
          rw miss
            (rw other (mark_and_repair-KeepsDisk source h s (not_forced _ _ _ miss other safe)))
    ]
  ]
