-- ===== src/Sidecar/RoundTrip.antt =====
-- A sidecar that holds the line that is written when the current content is accepted.
use bitprotector.Fs.{read_fails, read_to_end, FilePath, content, file, Bytes, Fs, open_file}
use bitprotector.Base.{
  none, ap, ◌∙◌, length-append, ltb, List, if◌then◌else◌, All, Bool, Option, Text, [], arith, false,
  leb, length, lower, map, ok, refl, some, true, ℕ, ◌&&◌, ◌++◌, ◌==◌, ◌||◌, ◌∷◌, ◌≡◌, ◌≤◌,
}
use bitprotector.Sidecar.{
  hash_of_line, max_sidecar_bytes, all_hex, first_non_empty, first_word, head_line, is_hex,
  later_lines, lines, normalize_b3_hex, parse_sidecar, read_b3_sidecar, sidecar_path_for,
}
use bitprotector.VirtualPath.Normalize.{is_whitespace, trim, trim_end, trim_start}
use mathlib.Core.List.{append-nil}
use bitprotector.SyncQueue.Resolve.{sidecar_line}

abbrev pub is_lower_hex : ℕ → Bool
is_lower_hex c = (leb 48 c && leb c 57) || (leb 97 c && leb c 102)

abbrev pub IsLowerHex : ℕ → Type 0
IsLowerHex c = is_lower_hex c ≡ true

lower-hex : (c : ℕ) → IsLowerHex c → lower c ≡ c
lower-hex c h = ground arith

is_hex-hex : (c : ℕ) → IsLowerHex c → is_hex c ≡ true
is_hex-hex c h = ground arith

is_whitespace-hex : (c : ℕ) → IsLowerHex c → is_whitespace c ≡ false
is_whitespace-hex c h = ground arith

newline-hex : (c : ℕ) → IsLowerHex c → (c == 10) ≡ false
newline-hex c h = ground arith

-- The digits in front of a space are a line's beginning, which trimming leaves and which is the
-- first word.
lines-hex :
    (sum rest : Text)
    → All IsLowerHex sum
    → lines (sum ++ 32 ∷ rest) ≡ (sum ++ 32 ∷ head_line (lines rest)) ∷ later_lines (lines rest)
unfolding lines
lines-hex [] rest h = refl
lines-hex (c ∷ cs) rest h = rw (newline-hex c h.0, lines-hex cs rest h.1) refl

keep_char :
    (c : ℕ) (t : Text)
    → is_whitespace c ≡ false
    → (elim t [ [] ↦ if is_whitespace c then [] else c ∷ [] | d ∷ ds ↦ c ∷ d ∷ ds ]) ≡ c ∷ t
keep_char c [] h = rw h refl
keep_char c (d ∷ ds) h = refl

trim_end-hex :
    (sum rest : Text) → All IsLowerHex sum → trim_end (sum ++ rest) ≡ sum ++ trim_end rest
unfolding trim_end
trim_end-hex [] rest h = refl
trim_end-hex (c ∷ cs) rest h =
    rw (trim_end-hex cs rest h.1) (keep_char c (cs ++ trim_end rest) (is_whitespace-hex c h.0))

first_word-hex :
    (sum rest : Text) → All IsLowerHex sum → first_word (sum ++ rest) ≡ sum ++ first_word rest
unfolding first_word
first_word-hex [] rest h = refl
first_word-hex (c ∷ cs) rest h = rw (is_whitespace-hex c h.0, first_word-hex cs rest h.1) refl

first_word-space :
    (t : Text)
    → first_word (elim t [ [] ↦ if is_whitespace 32 then [] else 32 ∷ [] | d ∷ ds ↦ 32 ∷ d ∷ ds ])
      ≡ []
unfolding first_word
first_word-space [] = refl
first_word-space (d ∷ ds) = refl

first_word-trim_end : (rest : Text) → first_word (trim_end (32 ∷ rest)) ≡ []
unfolding first_word trim_end
first_word-trim_end rest = first_word-space (trim_end rest)

trim-hex :
    (c : ℕ) (cs rest : Text)
    → All IsLowerHex (c ∷ cs)
    → trim (c ∷ (cs ++ rest)) ≡ c ∷ (cs ++ trim_end rest)
unfolding trim trim_start
trim-hex c cs rest h = rw (is_whitespace-hex c h.0) (trim_end-hex (c ∷ cs) rest h)

first_non_empty-hex :
    (c : ℕ) (cs rest : Text) (ls : List Text)
    → All IsLowerHex (c ∷ cs)
    → first_non_empty ((c ∷ (cs ++ rest)) ∷ ls) ≡ some (c ∷ (cs ++ trim_end rest))
unfolding first_non_empty
first_non_empty-hex c cs rest ls h = rw (trim-hex c cs rest h) (ground arith)

map-lower-hex : (sum : Text) → All IsLowerHex sum → map lower sum ≡ sum
map-lower-hex [] h = refl
map-lower-hex (c ∷ cs) h = rw (lower-hex c h.0, map-lower-hex cs h.1) refl

all_hex-hex : (sum : Text) → All IsLowerHex sum → all_hex sum ≡ true
unfolding all_hex
all_hex-hex [] h = refl
all_hex-hex (c ∷ cs) h = rw (is_hex-hex c h.0, all_hex-hex cs h.1) refl

normalize_b3_hex-hex :
    (sum : Text) → All IsLowerHex sum → length sum ≡ 64 → normalize_b3_hex sum ≡ ok sum
unfolding normalize_b3_hex
normalize_b3_hex-hex sum h k = rw (k, map-lower-hex sum h, all_hex-hex sum h) refl

word_of_hex :
    (c : ℕ) (cs l : Text)
    → All IsLowerHex (c ∷ cs)
    → first_word (c ∷ (cs ++ trim_end (32 ∷ l))) ≡ c ∷ cs
word_of_hex c cs l h =
    first_word-hex (c ∷ cs) (trim_end (32 ∷ l)) h
    ∙ ap (λ (t : Text). c ∷ (cs ++ t)) (first_word-trim_end l)
    ∙ ap (λ (t : Text). c ∷ t) (append-nil cs)

parse_sidecar-hex :
    (sum rest : Text)
    → All IsLowerHex sum
    → length sum ≡ 64
    → parse_sidecar (sum ++ 32 ∷ rest) ≡ ok sum
unfolding parse_sidecar hash_of_line
parse_sidecar-hex [] rest h k = absurd (omega arith)
parse_sidecar-hex (c ∷ cs) rest h k =
    let l = head_line (lines rest) in
    ap (λ (ls : List Text). hash_of_line (first_non_empty ls)) (lines-hex (c ∷ cs) rest h)
    ∙ ap hash_of_line (first_non_empty-hex c cs (32 ∷ l) (later_lines (lines rest)) h)
    ∙ ap normalize_b3_hex (word_of_hex c cs l h)
    ∙ normalize_b3_hex-hex (c ∷ cs) h k

line_fits :
    (sum name : Text)
    → length sum ≡ 64
    → length name ≤ 4029
    → ltb max_sidecar_bytes (length (sidecar_line sum name)) ≡ false
line_fits sum name sized short =
    ground (arith, length-append sum (32 ∷ 32 ∷ (name ++ 10 ∷ [])), length-append name (10 ∷ []))

content_held :
    (fs : Fs) (p : FilePath) (mode : ℕ) (b : Bytes)
    → fs.node p ≡ some (file mode b)
    → content fs p ≡ b
content_held fs p mode b h = rw h refl

fits_held :
    (fs : Fs) (p : FilePath) (sum name : Text)
    → content fs p ≡ sidecar_line sum name
    → length sum ≡ 64
    → length name ≤ 4029
    → ltb max_sidecar_bytes (length (content fs p)) ≡ false
fits_held fs p sum name h sized short =
    ap (λ (b : Bytes). ltb max_sidecar_bytes (length b)) h ∙ line_fits sum name sized short

reads_whole :
    (fs : Fs) (p : FilePath) (mode : ℕ) (b : Bytes)
    → fs.node p ≡ some (file mode b)
    → fs.read_error p ≡ none
    → read_fails fs p ≡ false
reads_whole fs p mode b held whole = rw (held, whole) refl

module _ (decode : Bytes → Option Text) where
  -- Where the sidecar of a file can be read and holds the line that sync_queue.rs writes for a
  -- hash of 64 lowercase hexadecimal digits and a file name of at most 4029 bytes, and the line is
  -- UTF-8, so that its ASCII beginning decodes to itself, reading the sidecar yields the hash.
  pub read_b3_sidecar-sidecar_line :
      (path sidecar sum name rest : Text) (mode : ℕ) (fs : Fs)
      → All IsLowerHex sum
      → length sum ≡ 64
      → length name ≤ 4029
      → sidecar_path_for path ≡ some sidecar
      → fs.node sidecar ≡ some (file mode (sidecar_line sum name))
      → fs.can_read sidecar ≡ true
      → fs.read_error sidecar ≡ none
      → decode (sidecar_line sum name) ≡ some (sum ++ 32 ∷ rest)
      → read_b3_sidecar decode path fs ≡ (ok (some sum), fs)
  unfolding read_b3_sidecar open_file read_to_end
  read_b3_sidecar-sidecar_line path sidecar sum name rest mode fs hex sized short at held allowed
        whole utf8 =
      let bytes = content_held fs sidecar mode (sidecar_line sum name) held in
      rw (at, held, fits_held fs sidecar sum name bytes sized short)
        (rw (held, allowed)
          (rw (reads_whole fs sidecar mode (sidecar_line sum name) held whole)
            (rw (bytes, utf8) (rw (parse_sidecar-hex sum rest hex sized) refl))))
