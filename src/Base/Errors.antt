-- ===== src/Base/Errors.antt =====
-- `anyhow::Result`: a value or the place that failed. A procedure keeps what it wrote before it
-- failed, so the state comes back beside the error too.
use mathlib.Core.Bool.{Bool, true, false}
use mathlib.Core.Option.{Option, none, some}

-- The failures that the code tells apart by their message.
pub data Error : Type 0 where
  row_not_found : Error
  open_failed read_failed create_failed write_failed create_dir_failed remove_failed : Error
  source_missing root_unavailable standby_not_ready : Error
  checksum_mismatch mirror_verification_failed : Error
  drive_failed wrong_drive_state failover_target_unavailable : Error
  no_pending_item already_pending integrity_check_failed : Error
  not_resolvable not_pending wrong_resolution unknown_resolution : Error
  new_file_missing no_filename : Error
  run_active folder_busy files_still_tracked : Error
  not_a_directory same_directory not_writable : Error
  virtual_path_invalid virtual_path_taken virtual_path_overlaps not_a_symlink no_virtual_path :
      Error
  pair_not_found still_referenced duplicate_row foreign_key_failed : Error
  sidecar_invalid folder_missing file_missing duplicate_drive_path : Error
  folder_unreadable outside_drive : Error
  backup_missing database_busy database_path_invalid : Error

pub data Result {ℓ} (A : Type ℓ) : Type ℓ where
  ok : A → Result A
  err : Error → Result A

abbrev pub Exec {ℓ} : Type ℓ → Type ℓ → Type ℓ
Exec S A = S → Result A × S

module _ {ℓ} {S A : Type ℓ} where
  abbrev pub pure : A → Exec S A
  pure a s = (ok a, s)

  -- `bail!`
  abbrev pub raise : Error → Exec S A
  raise e s = (err e, s)

  abbrev pub gets : (S → A) → Exec S A
  gets f s = (ok (f s), s)

  abbrev pub or_raise : Option A → Error → Exec S A
  or_raise none e = raise e
  or_raise (some a) e = pure a

  -- `?` on a plain result.
  abbrev pub lift : Result A → Exec S A
  lift r s = (r, s)

module _ {ℓ} {S : Type ℓ} where
  abbrev pub modify : (S → S) → Exec S (Unit {ℓ})
  modify f s = (ok tt, f s)

  abbrev pub raise_if : Bool → Error → Exec S (Unit {ℓ})
  raise_if true e s = (err e, s)
  raise_if false e s = (ok tt, s)

module _ {ℓ} {S A B : Type ℓ} where
  abbrev pub continue : Result A → (A → Exec S B) → Exec S B
  continue (ok a) f s = f a s
  continue (err e) f s = (err e, s)

infixl 5 ◌>>=◌ ◌>>◌
abbrev pub ◌>>=◌ {ℓ} : {S A B : Type ℓ} → Exec S A → (A → Exec S B) → Exec S B
◌>>=◌ m f s = let (r, s') = m s in continue r f s'

abbrev pub ◌>>◌ {ℓ} : {S A B : Type ℓ} → Exec S A → Exec S B → Exec S B
m >> k = m >>= λ _. k

-- `let _ = call(...)`: the result is dropped, the effects stay.
abbrev pub ignore {ℓ} : {S A : Type ℓ} → Exec S A → Exec S (Unit {ℓ})
ignore m s = (ok tt, (m s).1)
