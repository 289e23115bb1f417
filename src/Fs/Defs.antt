-- ===== src/Fs/Defs.antt =====
-- The operations of std::fs that the program calls.
use bitprotector.Base.{
  ℕ, ◌+◌, Bool, true, false, not, ◌&&◌, Option, none, some, List, [], ◌∷◌, ◌++◌, Text, text,
  text_eq, ◌==◌, if◌then◌else◌, is_some, length, ok, err, Exec, pure, gets, ◌>>=◌, ◌>>◌,
  open_failed, read_failed, create_failed, raise_if, take, ◌||◌, write_failed, create_dir_failed,
  remove_failed,
}

abbrev pub FilePath : Type 0
FilePath = Text

abbrev pub Bytes : Type 0
Bytes = List ℕ

-- A file with its permission bits and content, or a directory that can be listed or not.
pub data Node : Type 0 where
  file : ℕ → Bytes → Node
  directory : Bool → Node

pub record Fs : Type 0 where
  pub node : FilePath → Option Node
  -- The system lets the program create, change and remove the path.
  pub can_write : FilePath → Bool
  -- The system lets the program open the path for reading.
  pub can_read : FilePath → Bool
  -- Where the disk cannot be read further: the bytes that can be read before that.
  pub read_error : FilePath → Option ℕ
  -- The disk has room for the file at this length.
  pub has_room : FilePath → ℕ → Bool

abbrev pub set_node : FilePath → Option Node → Fs → Fs
set_node p n fs = record fs { node = λ q. if text_eq p q then n else fs.node q }

-- Path::exists
abbrev pub exists : Fs → FilePath → Bool
exists fs p = is_some (fs.node p)

abbrev pub node_is_dir : Option Node → Bool
node_is_dir none = false
node_is_dir (some (file m b)) = false
node_is_dir (some (directory l)) = true

-- Path::is_dir
abbrev pub is_dir : Fs → FilePath → Bool
is_dir fs p = node_is_dir (fs.node p)

abbrev pub node_is_file : Option Node → Bool
node_is_file none = false
node_is_file (some (file m b)) = true
node_is_file (some (directory l)) = false

-- Path::is_file
abbrev pub is_file : Fs → FilePath → Bool
is_file fs p = node_is_file (fs.node p)

-- The bytes that an open file yields; nothing where there is no file.
abbrev pub node_content : Option Node → Bytes
node_content none = []
node_content (some (file m b)) = b
node_content (some (directory l)) = []

abbrev pub content : Fs → FilePath → Bytes
content fs p = node_content (fs.node p)

abbrev pub node_mode : Option Node → ℕ
node_mode none = 420
node_mode (some (file m b)) = m
node_mode (some (directory l)) = 493

abbrev pub ends_with_slash : Text → Bool
ends_with_slash [] = true
ends_with_slash (c ∷ []) = c == b'/'
ends_with_slash (c ∷ d ∷ cs) = ends_with_slash (d ∷ cs)

-- Path::join: an absolute path replaces the base, a separator is added where one is missing.
abbrev pub join : FilePath → FilePath → FilePath
join base [] = if ends_with_slash base then base else base ++ b'/' ∷ []
join base (c ∷ cs) =
    if c == b'/'
    then c ∷ cs
    else if ends_with_slash base
    then base ++ c ∷ cs
    else base ++ b'/' ∷ c ∷ cs

-- File::open for reading, which a directory does not refuse.
unfoldable pub open_file : FilePath → Exec Fs (Unit {0})
open_file p fs = (if exists fs p && fs.can_read p then ok tt else err open_failed, fs)

-- A read of the open path fails before its end, as it does at once for a directory.
abbrev pub read_fails : Fs → FilePath → Bool
read_fails fs p = is_dir fs p || is_some (fs.read_error p)

-- What the reads yield before the end or the failure.
abbrev pub clip : Option ℕ → Bytes → Bytes
clip none b = b
clip (some n) b = take n b

abbrev pub readable : Fs → FilePath → Bytes
readable fs p = clip (fs.read_error p) (content fs p)

-- The reads of an open path up to its end.
unfoldable pub read_to_end : FilePath → Exec Fs (Unit {0})
read_to_end p fs = (if read_fails fs p then err read_failed else ok tt, fs)

-- File::create: an old file is truncated and keeps its permissions.
unfoldable pub create_file : FilePath → Exec Fs (Unit {0})
create_file p fs =
    if fs.can_write p && not (is_dir fs p)
    then (ok tt, set_node p (some (file (node_mode (fs.node p)) [])) fs)
    else (err create_failed, fs)

-- Write::write_all at the end of an open file.
unfoldable pub write_all : FilePath → Bytes → Exec Fs (Unit {0})
write_all p b fs =
    if fs.has_room p (length (content fs p) + length b)
    then (ok tt, set_node p (some (file (node_mode (fs.node p)) (content fs p ++ b))) fs)
    else (err write_failed, fs)

-- fs::write
unfoldable pub write : FilePath → Bytes → Exec Fs (Unit {0})
write p b = create_file p >> write_all p b

-- fs::remove_file
unfoldable pub remove_file : FilePath → Exec Fs (Unit {0})
remove_file p fs =
    if is_file fs p && fs.can_write p then (ok tt, set_node p none fs) else (err remove_failed, fs)

-- fs::set_permissions with the permissions of another file.
unfoldable pub set_permissions : FilePath → ℕ → Exec Fs (Unit {0})
set_permissions p m fs =
    if is_file fs p && fs.can_write p
    then (ok tt, set_node p (some (file m (content fs p))) fs)
    else (err write_failed, fs)

-- One step of fs::create_dir_all.
unfoldable pub make_dir : FilePath → Exec Fs (Unit {0})
make_dir p fs = elim (fs.node p) [
  | some (directory l) ↦ (ok tt, fs)
  | some (file m b) ↦ (err create_dir_failed, fs)
  | none ↦
      if fs.can_write p
      then (ok tt, set_node p (some (directory true)) fs)
      else (err create_dir_failed, fs)
]

unfoldable pub make_dirs : List FilePath → Exec Fs (Unit {0})
make_dirs [] = pure tt
make_dirs (p ∷ ps) = make_dir p >> make_dirs ps

-- The directories on the way to a path and the path itself, the outermost first. The empty
-- prefix of an absolute path is the root, which always exists.
unfoldable pub dirs_of : Text → Text → List FilePath
dirs_of acc [] = acc ∷ []
dirs_of acc (c ∷ cs) =
    let rest = dirs_of (acc ++ c ∷ []) cs in
    if c == b'/' then (if length acc == 0 then rest else acc ∷ rest) else rest

-- fs::create_dir_all
unfoldable pub create_dir_all : FilePath → Exec Fs (Unit {0})
create_dir_all p = make_dirs (dirs_of [] p)

-- The path up to its last separator, if it has one.
unfoldable pub before_slash : Text → Option Text
before_slash [] = none
before_slash (c ∷ cs) = elim (before_slash cs) [
  | some r ↦ some (c ∷ r)
  | none ↦ if c == b'/' then some [] else none
]

-- Path::parent of a path that does not end in a separator; the parent `/` is left out, as it
-- needs no creation.
unfoldable pub parent : FilePath → Option FilePath
parent p = elim (before_slash p) [ none ↦ none | some [] ↦ none | some (c ∷ r) ↦ some (c ∷ r) ]

-- `if let Some(parent) = dst.parent() { fs::create_dir_all(parent)? }`
unfoldable pub create_parent : FilePath → Exec Fs (Unit {0})
create_parent p = elim (parent p) [ none ↦ pure tt | some q ↦ create_dir_all q ]

-- fs::copy: the content and the permissions, of a regular file only.
unfoldable pub copy : FilePath → FilePath → Exec Fs (Unit {0})
copy src dst = do
  open_file src
  regular ← gets (λ fs. is_file fs src)
  raise_if (not regular) open_failed
  fails ← gets (λ fs. read_fails fs src)
  create_file dst
  b ← gets (λ fs. readable fs src)
  write_all dst b
  raise_if fails read_failed
  mode ← gets (λ fs. node_mode (fs.node src))
  set_permissions dst mode

abbrev after_from : Text → Text → Text
after_from best [] = best
after_from best (c ∷ cs) = after_from (if c == b'/' then cs else best) cs

unfoldable pub after_slash : Text → Text
after_slash s = after_from s s

-- Path::file_name of a path that does not end in a separator.
unfoldable pub file_name : FilePath → Option Text
file_name p = elim (after_slash p) [
  | [] ↦ none
  | c ∷ cs ↦ if text_eq (c ∷ cs) (text "..") then none else some (c ∷ cs)
]
