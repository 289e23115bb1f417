-- ===== src/Db/Runs/Order.antt =====
-- The order by the time of the last check, while a run sets those times.
use bitprotector.Base.Paging.{take_all}
use bitprotector.Base.{
  length-append, length-drop, ap, sym, true, ◌∙◌, All, List, [], arith, drop, false, length, ltb,
  none, ok, refl, some, suc, zero, ℕ, ◌++◌, ◌+◌, ◌-◌, ◌∷◌, ◌≡◌, ◌≤◌,
}
use bitprotector.Db.Runs.Results.{
  checked_before, insert_by_check, list_tracked_files_oldest_integrity_first, sort_by_check,
}
use bitprotector.Db.World.{World}
use bitprotector.Db.Rows.{TrackedFile}
use bitprotector.Db.Files.{file_of_pair}
use bitprotector.Base.Table.{select}
use mathlib.Core.List.{append-nil}

abbrev pub IsUnchecked : TrackedFile → Type 0
IsUnchecked f = f.last_integrity_check_at ≡ none

abbrev pub IsCheckedAt : ℕ → TrackedFile → Type 0
IsCheckedAt now f = f.last_integrity_check_at ≡ some now

insert-unchecked :
    (f : TrackedFile) → IsUnchecked f → (l : List TrackedFile) → insert_by_check f l ≡ f ∷ l
unfolding insert_by_check
insert-unchecked f h [] = refl
insert-unchecked f h (g ∷ gs) = rw h refl

sort-unchecked : (l : List TrackedFile) → All IsUnchecked l → sort_by_check l ≡ l
unfolding sort_by_check
sort-unchecked [] h = refl
sort-unchecked (f ∷ fs) h = rw (sort-unchecked fs h.1) (insert-unchecked f h.0 fs)

not_before : (now : ℕ) → ltb now now ≡ false
not_before now = ground arith

unchecked_before :
    (now : ℕ) (f g : TrackedFile)
    → IsCheckedAt now f
    → IsUnchecked g
    → checked_before g.last_integrity_check_at f.last_integrity_check_at ≡ true
unchecked_before now f g h k = rw (h, k) refl

insert-checked :
    (now : ℕ) (f : TrackedFile)
    → IsCheckedAt now f
    → (new old : List TrackedFile) → All IsUnchecked new
    → All (IsCheckedAt now) old
    → insert_by_check f (new ++ old) ≡ new ++ f ∷ old
unfolding insert_by_check
insert-checked now f h [] [] a b = refl
insert-checked now f h [] (g ∷ gs) a b = rw (b.0, h, not_before now) refl
insert-checked now f h (g ∷ gs) old a b =
    rw (unchecked_before now f g h a.0, insert-checked now f h gs old a.1 b) refl

-- The files that were just checked go behind those that never were.
pub sort-append :
    (now : ℕ) (old new : List TrackedFile)
    → All (IsCheckedAt now) old
    → All IsUnchecked new
    → sort_by_check (old ++ new) ≡ new ++ old
unfolding sort_by_check
sort-append now [] new a b = sort-unchecked new b ∙ sym (append-nil new)
sort-append now (f ∷ fs) new a b =
    rw (sort-append now fs new a.1 b) (insert-checked now f a.0 new fs b a.1)

drop-append :
    (k : ℕ) (xs ys : List TrackedFile) → length xs ≤ k → drop k (xs ++ ys) ≡ drop (k - length xs) ys
drop-append k [] ys h = ap (λ (j : ℕ). drop j ys) (omega arith)
drop-append zero (x ∷ xs) ys h = absurd (omega arith)
drop-append (suc k) (x ∷ xs) ys h =
    drop-append k xs ys (omega arith) ∙ ap (λ (j : ℕ). drop j ys) (omega arith)

-- Where the first hundred files of a pair have just been checked, and at most a hundred others
-- never, the second page of the query that a run takes its files from has none of the others: it
-- consists of files that have just been checked.
pub oldest_second_page :
    (pair_id now : ℕ) (old new : List TrackedFile) (w : World)
    → select (file_of_pair pair_id) w.files ≡ old ++ new
    → All (IsCheckedAt now) old
    → All IsUnchecked new
    → length old ≡ 100
    → length new ≤ 100
    → (list_tracked_files_oldest_integrity_first (some pair_id) 2 100 w).0
      ≡ ok (drop (100 - length new) old, 100 + length new)
unfolding list_tracked_files_oldest_integrity_first
oldest_second_page pair_id now old new w rows a b hundred few =
    rw
      (
        rows,
        sort-append now old new a b,
        drop-append 100 new old few,
        length-append old new,
        hundred,
        take_all 100 (drop (100 - length new) old)
            (rw (length-drop (100 - length new) old, hundred) (omega arith)),
      )
      refl
