-- ===== src/Sidecar/Defs.antt =====
-- core/sidecar.rs, in the order of the file.
use bitprotector.Fs.{read_to_end, Bytes, FilePath, Fs, content, exists, file_name, open_file}
use bitprotector.VirtualPath.Normalize.{is_whitespace, trim}
use bitprotector.Base.{
  Bool, Exec, List, Option, Result, Text, [], err, gets, if◌then◌else◌, leb, length, lift, lower,
  ltb, map, no_filename, none, not, ok, or_raise, pure, raise_if, sidecar_invalid, some, text, true,
  ℕ, ◌&&◌, ◌++◌, ◌==◌, ◌>>=◌, ◌>>◌, ◌||◌, ◌∷◌,
}

abbrev pub max_sidecar_bytes : ℕ
max_sidecar_bytes = 4096

-- with_file_name of the name with `.b3` behind it, for a path that does not end in a separator.
unfoldable pub sidecar_path_for : FilePath → Option FilePath
sidecar_path_for path = elim (file_name path) [
  | none ↦ none
  | some name ↦ some (path ++ text ".b3")
]

-- is_ascii_hexdigit
abbrev pub is_hex : ℕ → Bool
is_hex c = (leb 48 c && leb c 57) || (leb 65 c && leb c 70) || (leb 97 c && leb c 102)

unfoldable pub all_hex : Text → Bool
all_hex [] = true
all_hex (c ∷ cs) = is_hex c && all_hex cs

unfoldable pub normalize_b3_hex : Text → Result Text
normalize_b3_hex candidate =
    if (length candidate == 64) && all_hex (map lower candidate)
    then ok (map lower candidate)
    else err sidecar_invalid

-- str::lines; a carriage return at the end of a line stays, as the code trims the lines anyway.
abbrev pub head_line : List Text → Text
head_line [] = []
head_line (l ∷ ls) = l

abbrev pub later_lines : List Text → List Text
later_lines [] = []
later_lines (l ∷ ls) = ls

unfoldable pub lines : Text → List Text
lines [] = []
lines (c ∷ cs) =
    let rest = lines cs in if c == 10 then [] ∷ rest else (c ∷ head_line rest) ∷ later_lines rest

-- lines().map(trim).find(|line| !line.is_empty())
unfoldable pub first_non_empty : List Text → Option Text
first_non_empty [] = none
first_non_empty (l ∷ ls) =
    let rest = first_non_empty ls in if length (trim l) == 0 then rest else some (trim l)

-- split_whitespace().next() of a text that does not begin with a space.
unfoldable pub first_word : Text → Text
first_word [] = []
first_word (c ∷ cs) = let rest = first_word cs in if is_whitespace c then [] else c ∷ rest

-- What the first line says, where there is one.
unfoldable pub hash_of_line : Option Text → Result Text
hash_of_line none = err sidecar_invalid
hash_of_line (some line) = normalize_b3_hex (first_word line)

-- What the content says, from its decoded text.
unfoldable pub parse_sidecar : Text → Result Text
parse_sidecar s = hash_of_line (first_non_empty (lines s))

module _ (decode : Bytes → Option Text) where
  unfoldable pub read_b3_sidecar : FilePath → Exec Fs (Option Text)
  read_b3_sidecar path = do
    sidecar ← or_raise (sidecar_path_for path) no_filename
    present ← gets (λ fs. exists fs sidecar)
    if not present then pure none else do
      size ← gets (λ fs. length (content fs sidecar))
      raise_if (ltb max_sidecar_bytes size) sidecar_invalid
      open_file sidecar
      read_to_end sidecar
      data' ← gets (λ fs. content fs sidecar)
      s ← or_raise (decode data') sidecar_invalid
      sum ← lift (parse_sidecar s)
      pure (some sum)
