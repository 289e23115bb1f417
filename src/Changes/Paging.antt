-- ===== src/Changes/Paging.antt =====
-- The scan by pages against one pass over all files of the pair.
use bitprotector.Fs.{read_to_end, FilePath, Fs, open_file}
use bitprotector.Base.{
  Bool, Bool-cases, ap, false, if◌then◌else◌, inl, inr, leb, length-drop, sym, take,
  take-append-drop, ◌-◌, ◌==◌, ◌≤◌, ◌⊎◌, Result, continue, drop, err, length, ok, suc, zero, ℕ, ◌*◌,
  ◌+◌, ◌<◌, ◌∙◌, Exec, List, Option, Text, [], arith, gets, none, pure, refl, some, ◌++◌, ◌>>=◌,
  ◌∷◌, ◌≡◌,
}
use mathlib.Core.Path.{subst}
use bitprotector.Base.Paging.{drop-drop, drop_all}
use bitprotector.Db.Listing.{list_tracked_files, listed_file}
use bitprotector.Changes.Defs.{
  push_change, scan_all_changes, scan_pages, Change, detect_change, scan_files,
}
use bitprotector.Drive.Pair.{active_path}
use bitprotector.Db.World.{World}
use bitprotector.Db.Rows.{DrivePair, TrackedFile}
use bitprotector.Db.Queue.Dedup.{stored}
use bitprotector.Checksum.Hasher.{Blake3}
use bitprotector.Checksum.{ChecksumStrategy, checksum_file}
use bitprotector.Base.Table.{select}

-- What the scan of a pair comes to: the files of the pair in order, at once.
abbrev pub scan_at_once : Blake3 → DrivePair → Exec World (Option (List Change))
scan_at_once b3 pair = do
  files ← gets (λ w. select (listed_file (some pair.id) none none) w.files)
  changes ← scan_files b3 (active_path pair) files []
  pure (some changes)

keeps_continue :
    {A B : Type 0} (r : Result A × Fs) (w : World) (f : A → Exec World B)
    → r.1 ≡ w.fs
    → ((a : A) → (f a w).1 ≡ w)
    → (continue r.0 f (record w { fs = r.1 })).1 ≡ w
keeps_continue (ok a, fs) w f h k = rw h (k a)
keeps_continue (err e, fs) w f h k = rw h refl

continue_cong :
    {A B : Type 0} (r : Result A) (f g : A → Exec World B) (w : World)
    → ((a : A) → f a w ≡ g a w)
    → continue r f w ≡ continue r g w
continue_cong (ok a) f g w h = h a
continue_cong (err e) f g w h = refl

continue-continue :
    {A B C : Type 0} (r : Result A) (f : A → Exec World B) (g : B → Exec World C) (w : World)
    → continue r (λ a. f a >>= g) w ≡ continue (continue r f w).0 g (continue r f w).1
continue-continue (ok a) f g w = refl
continue-continue (err e) f g w = refl

offset : (k : ℕ) → (k + 1 - 1) * 200 ≡ k * 200
offset k = omega arith

next_offset : (k : ℕ) → k * 200 + 200 ≡ (k + 1) * 200
next_offset k = omega arith

length-cases : (l : List TrackedFile) → (l ≡ []) ⊎ (0 < length l)
length-cases [] = inl refl
length-cases (f ∷ fs) = inr (omega arith)

page_not_empty : (l : List TrackedFile) → 0 < length l → (length (take 200 l) == 0) ≡ false
page_not_empty [] h = absurd (omega arith)
page_not_empty (f ∷ fs) h = ground arith

length-select : (p : TrackedFile → Bool) (l : List TrackedFile) → length (select p l) ≤ length l
length-select p [] = omega arith
length-select p (f ∷ fs) = ground (arith, length-select p fs)

-- Each page that is not empty takes files away.
less :
    (k fuel : ℕ) (rows : List TrackedFile)
    → length (drop (k * 200) rows) < suc fuel
    → 0 < length (drop (k * 200) rows)
    → length (drop ((k + 1) * 200) rows) < fuel
less k fuel rows lt some_left =
    omega (arith, length-drop (k * 200) rows, length-drop ((k + 1) * 200) rows)

module _ (b3 : Blake3) where
  checksum_file_keeps :
      (path : FilePath) (strategy : ChecksumStrategy) (fs : Fs)
      → (checksum_file b3 path strategy fs).1 ≡ fs
  unfolding checksum_file open_file read_to_end
  checksum_file_keeps path strategy fs = ground arith

  detect_change_keeps :
      (root relative : FilePath) (stored : Text) (fs : Fs)
      → (detect_change b3 root relative stored fs).1 ≡ fs
  unfolding detect_change checksum_file open_file read_to_end
  detect_change_keeps root relative stored fs = ground arith

  -- Scanning reads only.
  scan_files_keeps :
      (root : FilePath) (l : List TrackedFile) (changes : List Change) (w : World)
      → (scan_files b3 root l changes w).1 ≡ w
  unfolding scan_files
  scan_files_keeps root [] changes w = refl
  scan_files_keeps root (f ∷ fs) changes w =
      keeps_continue (detect_change b3 root f.relative_path f.checksum w.fs) w
        (λ changed. scan_files b3 root fs (push_change f changed changes))
        (detect_change_keeps root f.relative_path f.checksum w.fs)
        (λ changed. scan_files_keeps root fs (push_change f changed changes) w)

  -- Scanning two lists one after the other is scanning them joined.
  scan_files-append :
      (root : FilePath) (a b : List TrackedFile) (changes : List Change) (w : World)
      → scan_files b3 root (a ++ b) changes w
        ≡ (scan_files b3 root a changes >>= scan_files b3 root b) w
  unfolding scan_files
  scan_files-append root [] b changes w = refl
  scan_files-append root (f ∷ fs) b changes w =
      continue_cong (detect_change b3 root f.relative_path f.checksum w.fs).0 _ _ _
        (λ changed. scan_files-append root fs b (push_change f changed changes) _)
      ∙ continue-continue (detect_change b3 root f.relative_path f.checksum w.fs).0
          (λ changed. scan_files b3 root fs (push_change f changed changes)) (scan_files b3 root b)
          _

  abbrev after_page : DrivePair → Bool → ℕ → ℕ → List Change → Exec World (Option (List Change))
  after_page pair last fuel page more =
      if last then pure (some more) else scan_pages b3 pair fuel page more

  -- A page that is not empty, and what follows it.
  scan_page_step :
      (pair : DrivePair) (last : Bool) (fuel page : ℕ) (rest : List TrackedFile)
      (changes : List Change) (w : World)
      → ((more : List Change)
          → after_page pair last fuel page more w
            ≡ (scan_files b3 (active_path pair) (drop 200 rest) more >>= λ m. pure (some m)) w)
      → (scan_files b3 (active_path pair) (take 200 rest) changes
            >>= after_page pair last fuel page)
          w
        ≡ (scan_files b3 (active_path pair) rest changes >>= λ more. pure (some more)) w
  scan_page_step pair last fuel page rest changes w next =
      continue_cong (scan_files b3 (active_path pair) (take 200 rest) changes w).0
        (after_page pair last fuel page)
        (λ more. scan_files b3 (active_path pair) (drop 200 rest) more >>= (λ m. pure (some m))) _
        (λ more.
          subst
            (λ (s : World).
              after_page pair last fuel page more s
              ≡ (scan_files b3 (active_path pair) (drop 200 rest) more >>= λ m. pure (some m)) s)
            (sym (scan_files_keeps (active_path pair) (take 200 rest) changes w)) (next more))
      ∙ continue-continue (scan_files b3 (active_path pair) (take 200 rest) changes w).0
          (scan_files b3 (active_path pair) (drop 200 rest)) (λ m. pure (some m)) _
      ∙ ap
          (λ (r : Result (List Change) × World).
            continue r.0 (λ (m : List Change). pure {S = World} (some m)) r.1)
          (sym (scan_files-append (active_path pair) (take 200 rest) (drop 200 rest) changes w)
            ∙ ap (λ (l : List TrackedFile). scan_files b3 (active_path pair) l changes w)
                (take-append-drop 200 rest))

  -- The loop from a page on is one pass over the files from that page on.
  scan_pages_from :
      (pair : DrivePair) (fuel k : ℕ) (changes : List Change) (w : World)
      → length (drop (k * 200) (select (listed_file (some pair.id) none none) w.files)) < fuel
      → scan_pages b3 pair fuel (k + 1) changes w
        ≡ (scan_files b3
                (active_path pair)
                (drop (k * 200) (select (listed_file (some pair.id) none none) w.files))
                changes
              >>= λ more. pure (some more))
            w
  unfolding scan_pages list_tracked_files
  scan_pages_from pair zero k changes w lt = absurd (omega arith)
  scan_pages_from pair (suc fuel) k changes w lt =
      let rows = select (listed_file (some pair.id) none none) w.files in
      rw (offset k) (elim (length-cases (drop (k * 200) rows)) [
        | inl none_left ↦ rw none_left (unfold scan_files in refl)
        | inr some_left ↦ rw (page_not_empty (drop (k * 200) rows) some_left) (
            scan_page_step pair (leb (length rows) ((k + 1) * 200)) fuel (k + 1 + 1)
              (drop (k * 200) rows) changes w
              (λ more. elim (Bool-cases (leb (length rows) ((k + 1) * 200))) [
                | inl last ↦
                    rw
                      (
                        last,
                        drop-drop (k * 200) 200 rows,
                        drop_all (k * 200 + 200) rows (ground arith),
                      )
                      (unfold scan_files in refl)
                | inr further ↦
                    rw (further, drop-drop (k * 200) 200 rows, next_offset k)
                      (scan_pages_from pair fuel (k + 1) more w (less k fuel rows lt some_left))
              ]))
      ])

  -- The scan of a pair by pages of 200 files ends, and comes to what one pass over all files of
  -- the pair in order comes to: the same changes or the same error, in the same state.
  pub scan_all_changes-eq-scan_at_once :
      (pair : DrivePair) (w : World) → scan_all_changes b3 pair w ≡ scan_at_once b3 pair w
  unfolding scan_all_changes
  scan_all_changes-eq-scan_at_once pair w =
      scan_pages_from pair (suc (length w.files)) 0 [] w
        (omega (arith, length-select (listed_file (some pair.id) none none) w.files))
