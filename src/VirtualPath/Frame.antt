-- ===== src/VirtualPath/Frame.antt =====
-- Regenerating the links writes links and directories, and no table.
use bitprotector.Db.Settings.Lock.{later}
use bitprotector.VirtualPath.Normalize.{normalize_virtual_path}
use bitprotector.Base.{
  ℕ, Option, ◌⊎◌, Error, pair_not_found, ◌≡◌, refl, Bool, true, inl, inr, some, none, List, [], ◌∷◌,
  arith, Text, Result, ok, err, Option-cases, continue,
}
use bitprotector.Db.Rows.{DrivePair, TrackedFile, TrackedFolder}
use bitprotector.Db.World.{World}
use bitprotector.Fs.{FilePath}
use bitprotector.VirtualPath.Refresh.{
  VirtualOwner, VirtualMapping, SymlinkRefreshResult, validate_virtual_path, create_symlink,
  refresh_mapping, refresh_loop, refresh_all_virtual_paths, note_outcome, file_mappings, map_to,
}

-- The world with other directories and links.
abbrev pub SameTables : World → World → Type 0
SameTables w w' =
    (w'.pairs ≡ w.pairs)
    × (w'.files ≡ w.files)
    × (w'.folders ≡ w.folders)
    × (w'.queue ≡ w.queue)
    × (w'.next_item_id ≡ w.next_item_id)
    × (w'.settings ≡ w.settings)
    × (w'.events ≡ w.events)
    × (w'.now ≡ w.now)

SameTables-trans : (u v w : World) → SameTables u v → SameTables v w → SameTables u w
SameTables-trans u v w h k = ground arith

validate_virtual_path-SameTables :
    (o : VirtualOwner) (v : Text) (w : World) → (validate_virtual_path o v w).1 ≡ w
unfolding validate_virtual_path
validate_virtual_path-SameTables o v w = ground arith

create_symlink-SameTables :
    (v : Text) (real : FilePath) (b : Bool) (w : World) → SameTables w (create_symlink v real b w).1
unfolding create_symlink
create_symlink-SameTables v real b w = ground arith

refresh_mapping-SameTables : (m : VirtualMapping) (w : World) → SameTables w (refresh_mapping m w).1
unfolding refresh_mapping
refresh_mapping-SameTables m w = ground (
  arith,
  validate_virtual_path-SameTables m.owner m.virtual_path w,
  create_symlink-SameTables m.virtual_path m.real_path true w,
)

refresh_loop-SameTables :
    (ms : List VirtualMapping) (acc : SymlinkRefreshResult) (w : World)
    → SameTables w (refresh_loop ms acc w).1
unfolding refresh_loop
refresh_loop-SameTables [] acc w = ground arith
refresh_loop-SameTables (m ∷ ms) acc w =
    SameTables-trans w (refresh_mapping m w).1
      (refresh_loop ms (note_outcome m.owner (refresh_mapping m w).0 acc) (refresh_mapping m w).1).1
      (refresh_mapping-SameTables m w)
      (refresh_loop-SameTables ms (note_outcome m.owner (refresh_mapping m w).0 acc)
        (refresh_mapping m w).1)

pub refresh_all_virtual_paths-SameTables :
    (pairs : ℕ → Option DrivePair) (w : World) → SameTables w (refresh_all_virtual_paths pairs w).1
unfolding refresh_all_virtual_paths
refresh_all_virtual_paths-SameTables pairs w = mapped (file_mappings pairs w.files w.folders)
  where
    mapped :
        (r : Result (List VirtualMapping))
        → SameTables w
            (continue r
              (λ ms. refresh_loop ms (record { created = 0; removed = 0; errors = [] }))
              w).1
    mapped (ok ms) = refresh_loop-SameTables ms (record { created = 0; removed = 0; errors = [] }) w
    mapped (err e) = ground arith

-- A file that a mapping must show, of a pair that the map does not hold.
abbrev pub IsStray : (ℕ → Option DrivePair) → TrackedFile → Type 0
IsStray pairs f = (v : Text) × (f.virtual_path ≡ some v) × (pairs f.drive_pair_id ≡ none)

abbrev pub AnyFile : (TrackedFile → Type 0) → List TrackedFile → Type 0
AnyFile P [] = ⊥
AnyFile P (f ∷ fs) = P f ⊎ AnyFile P fs

map_to_err :
    (o : VirtualOwner) (p : Option DrivePair) (v : Result Text) (relative : FilePath) (e : Error)
    → (e' : Error) × (map_to o p v relative (err e) ≡ err e')
map_to_err o none v relative e = (pair_not_found, refl)
map_to_err o (some pair) (err e') relative e = (e', refl)
map_to_err o (some pair) (ok v) relative e = (e, refl)

file_mappings_stray :
    (pairs : ℕ → Option DrivePair) (fs : List TrackedFile) (folders : List TrackedFolder)
    → AnyFile (IsStray pairs) fs
    → (e : Error) × (file_mappings pairs fs folders ≡ err e)
unfolding file_mappings
file_mappings_stray pairs [] folders h = elim h [ ]
file_mappings_stray pairs (f ∷ fs) folders (inl (v, hv, hp)) = (pair_not_found, rw (hv, hp) refl)
file_mappings_stray pairs (f ∷ fs) folders (inr later) =
    let (e, h) = file_mappings_stray pairs fs folders later in
    elim (Option-cases f.virtual_path) [
      | inl unset ↦ (e, rw (unset, h) refl)
      | inr (v, hv) ↦
          rw (hv, h)
            (map_to_err (VirtualOwner.file f.id) (pairs f.drive_pair_id) (normalize_virtual_path v)
              f.relative_path e)
    ]

-- If one tracked file with a virtual path belongs to a pair that the map does not hold, the
-- regeneration changes nothing and fails.
pub refresh_all_virtual_paths_stray :
    (pairs : ℕ → Option DrivePair) (w : World)
    → AnyFile (IsStray pairs) w.files
    → (e : Error) × (refresh_all_virtual_paths pairs w ≡ (err e, w))
unfolding refresh_all_virtual_paths
refresh_all_virtual_paths_stray pairs w h =
    let (e, stuck) = file_mappings_stray pairs w.files w.folders h in (e, rw stuck refl)
