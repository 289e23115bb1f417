-- ===== src/Db/Listing.antt =====
-- db/repository.rs: the queries that return a page of tracked files and the total count.
use bitprotector.Base.{
  ◌++◌, List, [], gets, length, none, or_raise, row_not_found, some, text_eq, ◌&&◌, ◌==◌, ◌>>=◌,
  ◌∷◌, not, true, false, Exec, Option, Bool, Text, ℕ,
}
use bitprotector.Db.Like.{like}
use bitprotector.Fs.{FilePath}
use bitprotector.Db.World.{World}
use bitprotector.Db.Rows.{TrackedFile}
use bitprotector.Base.Table.{count_where, find, select}
use bitprotector.Base.Paging.{page_of}

abbrev pub when_given {ℓ} : {A : Type ℓ} → Option A → (A → Bool) → Bool
when_given none test = true
when_given (some a) test = test a

-- virtual_path LIKE prefix || '%'
abbrev pub has_prefix : Text → Option Text → Bool
has_prefix prefix none = false
has_prefix prefix (some v) = like (prefix ++ b'%' ∷ []) v

abbrev pub same_flag : Bool → Bool → Bool
same_flag true b = b
same_flag false b = not b

abbrev pub listed_file : Option ℕ → Option Text → Option Bool → TrackedFile → Bool
listed_file pair_id prefix mirrored f =
    when_given pair_id (λ id. f.drive_pair_id == id)
    && when_given prefix (λ p. has_prefix p f.virtual_path)
    && when_given mirrored (λ m. same_flag m f.is_mirrored)

unfoldable pub list_tracked_files :
    Option ℕ → Option Text → Option Bool → ℕ → ℕ → Exec World (List TrackedFile × ℕ)
list_tracked_files pair_id prefix mirrored page per_page = gets (λ w.
    let rows = select (listed_file pair_id prefix mirrored) w.files in
    (page_of page per_page rows, length rows))

unfoldable pub count_tracked_files : Option ℕ → Exec World ℕ
count_tracked_files pair_id = gets (λ w.
    count_where (λ (f : TrackedFile). when_given pair_id (λ id. f.drive_pair_id == id)) w.files)

abbrev pub at_path : ℕ → FilePath → TrackedFile → Bool
at_path pair_id relative f = (f.drive_pair_id == pair_id) && text_eq f.relative_path relative

unfoldable pub get_tracked_file_by_path : ℕ → FilePath → Exec World TrackedFile
get_tracked_file_by_path pair_id relative = do
  found ← gets (λ w. find (at_path pair_id relative) w.files)
  or_raise found row_not_found
