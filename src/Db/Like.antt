-- ===== src/Db/Like.antt =====
-- The operator LIKE of SQLite, and the tests of db/repository.rs that a path lies under a folder.
use bitprotector.Base.{
  lower, Bool, Text, [], false, if◌then◌else◌, length, text_eq, true, ℕ, ◌&&◌, ◌++◌, ◌==◌, ◌||◌,
  ◌∷◌,
}
use bitprotector.Fs.{FilePath}

unfoldable pub any_suffix : (Text → Bool) → Text → Bool
any_suffix p [] = p []
any_suffix p (c ∷ cs) = p (c ∷ cs) || any_suffix p cs

abbrev after_one : (Text → Bool) → Text → Bool
after_one p [] = false
after_one p (c ∷ cs) = p cs

abbrev after_char : ℕ → (Text → Bool) → Text → Bool
after_char q p [] = false
after_char q p (c ∷ cs) = (lower q == lower c) && p cs

-- `text LIKE pattern`: `%` stands for any characters, `_` for one.
unfoldable pub like : Text → Text → Bool
like [] [] = true
like [] (c ∷ cs) = false
like (q ∷ qs) s =
    if q == b'%'
    then any_suffix (like qs) s
    else if q == b'_'
    then after_one (like qs) s
    else after_char q (like qs) s

-- `text LIKE escaped || '%' ESCAPE '\'`, where every character of the prefix stands for itself.
unfoldable pub like_prefix : Text → Text → Bool
like_prefix [] s = true
like_prefix (p ∷ ps) [] = false
like_prefix (p ∷ ps) (c ∷ cs) = (lower p == lower c) && like_prefix ps cs

-- trim_end_matches('/'), rtrim(path, '/')
unfoldable pub trim_slashes : Text → Text
trim_slashes [] = []
trim_slashes (c ∷ cs) =
    let rest = trim_slashes cs in if (length rest == 0) && (c == b'/') then [] else c ∷ rest

-- relative_path = folder OR relative_path LIKE folder || '/%'
unfoldable pub under_folder_like : FilePath → FilePath → Bool
under_folder_like folder path =
    text_eq path (trim_slashes folder) || like (trim_slashes folder ++ b'/' ∷ b'%' ∷ []) path

-- The same with the wildcards of the folder escaped.
unfoldable pub under_folder : FilePath → FilePath → Bool
under_folder folder path =
    text_eq path (trim_slashes folder) || like_prefix (trim_slashes folder ++ b'/' ∷ []) path
