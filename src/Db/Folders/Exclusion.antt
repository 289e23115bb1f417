-- ===== src/Db/Folders/Exclusion.antt =====
-- Two operations on one folder: the second is refused while the first is under way.
use bitprotector.Db.Folders.Operations.{
  is_busy, is_idle, begin_delete, begin_mirror, begin_scan, end_all, is_idle_folder,
  reset_stale_folder_flags, start_folder_delete, start_folder_mirror, start_folder_scan,
  start_operation,
}
use bitprotector.Base.{
  ◌<◌, Bool, Exec, List, [], arith, err, false, folder_busy, ok, refl, some, true, ℕ, ◌∷◌, ◌≡◌,
}
use bitprotector.Db.World.{World}
use bitprotector.Db.Rows.{TrackedFolder}
use bitprotector.Db.Folders.{folder_is, get_tracked_folder}
use bitprotector.Base.Table.{count_where, find, update_where}

pub data StartCall : Type 0 where
  scan_of mirror_of : ℕ → StartCall
  delete_of : StartCall

abbrev pub row_start : StartCall → TrackedFolder → TrackedFolder
row_start (scan_of total) d = begin_scan total d
row_start (mirror_of total) d = begin_mirror total d
row_start delete_of d = begin_delete d

-- The three ways to start an operation on a folder.
abbrev pub start_folder : StartCall → ℕ → Exec World TrackedFolder
start_folder (scan_of total) id = start_folder_scan id total
start_folder (mirror_of total) id = start_folder_mirror id total
start_folder delete_of id = start_folder_delete id

-- An update after which no row matches any more.
count-update_where :
    {A : Type 0} (p : A → Bool) (f : A → A)
    → ((x : A) → p x ≡ true → p (f x) ≡ false)
    → (l : List A) → count_where p (update_where p f l) ≡ 0
count-update_where p f gone [] = refl
count-update_where p f gone (x ∷ xs) = ground (arith, gone x, count-update_where p f gone xs)

update_where_none :
    {A : Type 0} (p : A → Bool) (f : A → A) (l : List A)
    → count_where p l ≡ 0
    → update_where p f l ≡ l
update_where_none p f [] h = refl
update_where_none p f (x ∷ xs) h = ground (arith, update_where_none p f xs)

claimed :
    (a : StartCall) (id : ℕ) (d : TrackedFolder)
    → is_idle_folder id d ≡ true
    → is_idle_folder id (row_start a d) ≡ false
claimed (scan_of total) id d h = ground arith
claimed (mirror_of total) id d h = ground arith
claimed delete_of id d h = ground arith

start_folder_eq : (a : StartCall) (id : ℕ) → start_folder a id ≡ start_operation id (row_start a)
unfolding start_folder_scan start_folder_mirror start_folder_delete
start_folder_eq (scan_of total) id = refl
start_folder_eq (mirror_of total) id = refl
start_folder_eq delete_of id = refl

start_operation-refused :
    (id : ℕ) (f : TrackedFolder → TrackedFolder) (w : World)
    → count_where (is_idle_folder id) w.folders ≡ 0
    → start_operation id f w ≡ (err folder_busy, w)
unfolding start_operation
start_operation-refused id f w h = rw (h, update_where_none (is_idle_folder id) f w.folders h) refl

start_operation_left :
    (id : ℕ) (f : TrackedFolder → TrackedFolder) (w : World)
    → (start_operation id f w).1.folders ≡ update_where (is_idle_folder id) f w.folders
unfolding start_operation get_tracked_folder
start_operation_left id f w = ground arith

-- Right after a start of an operation on a folder, whether it succeeded or not, a second start of
-- any kind on that folder is refused as busy and changes nothing.
pub start_folder-start_folder :
    (a b : StartCall) (id : ℕ) (w : World)
    → start_folder b id (start_folder a id w).1 ≡ (err folder_busy, (start_folder a id w).1)
start_folder-start_folder a b id w =
    rw (start_folder_eq a id, start_folder_eq b id)
      (start_operation-refused id (row_start b) (start_operation id (row_start a) w).1 (
        rw (start_operation_left id (row_start a) w)
          (count-update_where (is_idle_folder id) (row_start a) (claimed a id) w.folders)))

row_start_id : (b : StartCall) (d : TrackedFolder) → (row_start b d).id ≡ d.id
row_start_id (scan_of total) d = refl
row_start_id (mirror_of total) d = refl
row_start_id delete_of d = refl

end_all-idle : (d : TrackedFolder) → is_busy d ≡ false → d ≡ end_all d
end_all-idle d h = ground arith

find-end_all :
    (id : ℕ) (d : TrackedFolder) (l : List TrackedFolder)
    → find (folder_is id) l ≡ some d
    → find (folder_is id) (update_where is_busy end_all l) ≡ some (end_all d)
find-end_all id d [] h = absurd cc
find-end_all id d (x ∷ xs) h = ground (arith, find-end_all id d xs, end_all-idle x)

-- An update of the idle row finds it, where the row that the query finds is idle.
find_started :
    (f : TrackedFolder → TrackedFolder) (keep : (x : TrackedFolder) → (f x).id ≡ x.id) (id : ℕ)
    (d : TrackedFolder) (l : List TrackedFolder)
    → find (folder_is id) l ≡ some d
    → is_idle d ≡ true
    → (find (folder_is id) (update_where (is_idle_folder id) f l) ≡ some (f d))
      × (0 < count_where (is_idle_folder id) l)
find_started f keep id d [] h k = absurd cc
find_started f keep id d (x ∷ xs) h k = ground (arith, keep x, keep d, find_started f keep id d xs)

start_operation-starts :
    (b : StartCall) (id : ℕ) (d : TrackedFolder) (w : World)
    → find (folder_is id) w.folders ≡ some d
    → is_idle d ≡ true
    → (start_operation id (row_start b) w).0 ≡ ok (row_start b d)
unfolding start_operation get_tracked_folder
start_operation-starts b id d w h k =
    ground (arith, find_started (row_start b) (row_start_id b) id d w.folders h k)

-- After a restart of the service, which ends what was under way, each operation can be started on
-- every folder there is, and returns the folder with that operation alone under way.
pub start_folder-reset_stale_folder_flags :
    (b : StartCall) (id : ℕ) (d : TrackedFolder) (w : World)
    → find (folder_is id) w.folders ≡ some d
    → (start_folder b id (reset_stale_folder_flags w).1).0 ≡ ok (row_start b (end_all d))
start_folder-reset_stale_folder_flags b id d w h = rw (start_folder_eq b id) (
    start_operation-starts b id (end_all d) (reset_stale_folder_flags w).1
      (unfold reset_stale_folder_flags in find-end_all id d w.folders h) refl)
