-- ===== src/VirtualPath/Normalize.antt =====
-- core/virtual_path.rs: the normal form of a virtual path.
use bitprotector.Base.{
  ℕ, Bool, true, false, ◌&&◌, ◌||◌, List, [], ◌∷◌, ◌++◌, ◌==◌, leb, if◌then◌else◌, Text, text,
  text_eq, Result, ok, err, virtual_path_invalid,
}

-- char::is_whitespace
abbrev pub is_whitespace : ℕ → Bool
is_whitespace c =
    (leb 9 c && leb c 13)
    || c == 32
    || c == 0x85
    || c == 0xa0
    || c == 0x1680
    || (leb 0x2000 c && leb c 0x200a)
    || c == 0x2028
    || c == 0x2029
    || c == 0x202f
    || c == 0x205f
    || c == 0x3000

unfoldable pub trim_start : Text → Text
trim_start [] = []
trim_start (c ∷ cs) = let rest = trim_start cs in if is_whitespace c then rest else c ∷ cs

unfoldable pub trim_end : Text → Text
trim_end [] = []
trim_end (c ∷ cs) = elim (trim_end cs) [
  | [] ↦ if is_whitespace c then [] else c ∷ []
  | d ∷ ds ↦ c ∷ d ∷ ds
]

-- str::trim
unfoldable pub trim : Text → Text
trim s = trim_end (trim_start s)

-- The pieces between separators; the last one is open.
abbrev pub push_char : ℕ → List Text → List Text
push_char c [] = (c ∷ []) ∷ []
push_char c (s ∷ ss) = (c ∷ s) ∷ ss

unfoldable pub split_slash : Text → List Text
split_slash [] = [] ∷ []
split_slash (c ∷ cs) =
    let rest = split_slash cs in if c == b'/' then [] ∷ rest else push_char c rest

abbrev pub is_empty : Text → Bool
is_empty [] = true
is_empty (c ∷ cs) = false

-- The loop over the components of an absolute path: empty and `.` pieces are no components, `..`
-- is refused, and each other segment is trimmed.
unfoldable pub segments_of : List Text → Result (List Text)
segments_of [] = ok []
segments_of (s ∷ ss) =
    let rest = segments_of ss in
    if is_empty s || text_eq s (text ".")
    then rest
    else if text_eq s (text "..")
    then err virtual_path_invalid
    else if is_empty (trim s)
    then err virtual_path_invalid
    else elim rest [ ok r ↦ ok (trim s ∷ r) | err e ↦ err e ]

-- "/" and the segments joined by "/"
unfoldable pub print_segments : List Text → Text
print_segments [] = []
print_segments (s ∷ ss) = b'/' ∷ (s ++ print_segments ss)

abbrev pub starts_with_slash : Text → Bool
starts_with_slash [] = false
starts_with_slash (c ∷ cs) = c == b'/'

abbrev pub print_nonempty : Result (List Text) → Result Text
print_nonempty (err e) = err e
print_nonempty (ok []) = err virtual_path_invalid
print_nonempty (ok (s ∷ ss)) = ok (print_segments (s ∷ ss))

unfoldable pub normalize_virtual_path : Text → Result Text
normalize_virtual_path virtual =
    if starts_with_slash (trim virtual)
    then print_nonempty (segments_of (split_slash (trim virtual)))
    else err virtual_path_invalid
