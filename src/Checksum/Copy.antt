-- ===== src/Checksum/Copy.antt =====
-- What the two copying functions leave behind, on success and on failure.
use bitprotector.Fs.{
  exists, read_fails, readable, FilePath, Bytes, Fs, Node, set_node, file, content, is_file, is_dir,
  node_mode, open_file, create_file, remove_file, set_permissions,
}
use bitprotector.Base.{
  Option-cases, raise_if, read_failed, ℕ, suc, ◌≡◌, ◌≢◌, refl, sym, ap, ◌∙◌, Bool, true, false, not,
  ◌&&◌, inl, inr, Bool-cases, Option, none, some, [], arith, Text, text_eq, text_eq_iff,
  text_eq_refl, text_eq_ne, length, Result, ok, err, Exec, pure, raise, ignore, ◌>>◌, continue,
  checksum_mismatch, if◌then◌else◌,
}
use mathlib.Core.Path.{subst}
use bitprotector.Fs.Dirs.{node-set_self, set_node-set_node, set_node_same}
use bitprotector.Checksum.Hasher.{Blake3}
use bitprotector.Checksum.Defs.{
  copy_loop, copy_permissions, copy_with_checksum, copy_and_verify_checksum, buf_size,
  checksum_bytes,
}
use bitprotector.Checksum.Loop.{
  LoopPost, copy_loop-LoopPost, copy_loop_lem, first_hasher, verify_loop-eq-copy_loop,
}

-- Nothing but the node at `dst` differs.
abbrev pub OnlyAt : FilePath → Fs → Fs → Type 0
OnlyAt dst fs fs' = (n : Option Node) × (fs' ≡ set_node dst n fs)

untouched : (dst : FilePath) (fs : Fs) → OnlyAt dst fs fs
untouched dst fs = (fs.node dst, sym (set_node_same dst (fs.node dst) fs refl))

-- `dst` is a copy of `src`, with its permissions, and nothing else has changed.
abbrev pub copied : FilePath → FilePath → Fs → Fs
copied src dst fs = set_node dst (some (file (node_mode (fs.node src)) (content fs src))) fs

-- The system lets `src` be copied to `dst`.
pub record IsCopyable (src dst : FilePath) (fs : Fs) : Type 0 where
  pub source_there : exists fs src ≡ true
  pub source_readable : fs.can_read src ≡ true
  pub source_sound : read_fails fs src ≡ false
  pub target_writable : fs.can_write dst ≡ true
  pub target_no_dir : is_dir fs dst ≡ false
  pub target_room : (n : ℕ) → fs.has_room dst n ≡ true

copy_permissions_lem :
    (src dst : FilePath) (m : ℕ) (b : Bytes) (fs : Fs)
    → src ≢ dst
    → fs.can_write dst ≡ true
    → copy_permissions src dst (set_node dst (some (file m b)) fs)
      ≡ (ok tt, set_node dst (some (file (node_mode (fs.node src)) b)) fs)
unfolding copy_permissions set_permissions
copy_permissions_lem src dst m b fs ne w =
    rw (text_eq_refl dst, text_eq_ne dst src (λ e. ne (sym e)), w)
      (ap (λ (g : Fs). (ok tt, g)) (set_node-set_node dst _ _ fs))

readable-content :
    (src : FilePath) (fs : Fs) → read_fails fs src ≡ false → readable fs src ≡ content fs src
readable-content src fs h = elim (Option-cases (fs.read_error src)) [
  | inl whole ↦ rw whole refl
  | inr (n, broken) ↦ absurd (ground (arith, h, broken))
]

writable : (a b : Bool) → a && b ≡ true → a ≡ true
writable true b h = refl
writable false b h = cc

module _ (b3 : Blake3) where
  open b3 use {Hasher, new, update, finalize, hash, finalize-update}

  -- What copy_with_checksum has done, by how it ended.
  abbrev pub CopyPost : FilePath → FilePath → Fs → Result (Text × Text) × Fs → Type 0
  CopyPost src dst fs (ok sums, fs') =
      (sums.0 ≡ checksum_bytes b3 (content fs src))
      × (sums.1 ≡ checksum_bytes b3 (content fs src))
      × (fs' ≡ copied src dst fs)
  CopyPost src dst fs (err e, fs') = OnlyAt dst fs fs'

  after_loop :
      (src dst : FilePath) (m : ℕ) (fs : Fs) (r : Result (Hasher × Hasher) × Fs)
      → src ≢ dst
      → fs.can_write dst ≡ true
      → LoopPost b3 dst m [] (content fs src) new new (set_node dst (some (file m [])) fs) r
      → CopyPost src dst fs
          (continue r.0 (λ hs. copy_permissions src dst >> pure (finalize hs.0, finalize hs.1)) r.1)
  unfolding checksum_bytes
  after_loop src dst m fs (ok hs, fs') ne w (hs0, hs1, hfs) =
      rw
        (
          hfs ∙ set_node-set_node dst _ _ fs,
          copy_permissions_lem src dst m (content fs src) fs ne w,
        )
        (
          ap finalize hs0 ∙ finalize-update (content fs src),
          ap finalize hs1 ∙ finalize-update (content fs src),
          refl,
        )
  after_loop src dst m fs (err e, fs') ne w (b', hfs) =
      (some (file m b'), hfs ∙ set_node-set_node dst _ _ fs)

  after_read :
      (src dst : FilePath) (m : ℕ) (fs : Fs) (fails : Bool) (b : Bytes)
      (r : Result (Hasher × Hasher) × Fs)
      → src ≢ dst
      → fs.can_write dst ≡ true
      → (fails ≡ false → b ≡ content fs src)
      → LoopPost b3 dst m [] b new new (set_node dst (some (file m [])) fs) r
      → CopyPost src dst fs (
          continue r.0
            (λ hs. do
              raise_if fails read_failed
              copy_permissions src dst
              pure (finalize hs.0, finalize hs.1))
            r.1)
  after_read src dst m fs false b r ne w whole post = after_loop src dst m fs r ne w (
      subst (λ c. LoopPost b3 dst m [] c new new (set_node dst (some (file m [])) fs) r)
        (whole refl) post)
  after_read src dst m fs true b (ok hs, fs') ne w whole (hs0, hs1, hfs) =
      (some (file m b), hfs ∙ set_node-set_node dst _ _ fs)
  after_read src dst m fs true b (err e, fs') ne w whole (b', hfs) =
      (some (file m b'), hfs ∙ set_node-set_node dst _ _ fs)

  -- For two different paths: a copy that reports success has left exactly a copy of the source at
  -- the destination, and both checksums that it returns are the BLAKE3 hash of the source's
  -- content, so they are equal; one that fails has changed no path but the destination.
  pub copy_with_checksum_lem :
      (src dst : FilePath) (fs : Fs)
      → src ≢ dst
      → CopyPost src dst fs (copy_with_checksum b3 src dst fs)
  unfolding copy_with_checksum open_file create_file
  copy_with_checksum_lem src dst fs ne = elim (Bool-cases (exists fs src && fs.can_read src)) [
    | inr closed ↦ rw closed (untouched dst fs)
    | inl opened ↦ rw opened (elim (Bool-cases (fs.can_write dst && not (is_dir fs dst))) [
      | inr refused ↦ rw refused (untouched dst fs)
      | inl created ↦
          rw (created, text_eq_ne dst src (λ e. ne (sym e)))
            (after_read src dst (node_mode (fs.node dst)) fs (read_fails fs src) (readable fs src)
              (copy_loop b3 buf_size (suc (length (readable fs src))) dst (readable fs src) new new
                (set_node dst (some (file (node_mode (fs.node dst)) [])) fs))
              ne (writable (fs.can_write dst) (not (is_dir fs dst)) created)
              (readable-content src fs)
              (copy_loop-LoopPost b3 65535 (suc (length (readable fs src))) dst (readable fs src)
                new new (node_mode (fs.node dst)) []
                (set_node dst (some (file (node_mode (fs.node dst)) [])) fs) (omega arith)
                (node-set_self dst _ fs)))
    ])
  ]

  -- What copy_and_verify_checksum has done, by how it ended.
  abbrev pub VerifyPost : FilePath → FilePath → Text → Fs → Result (Unit {0}) × Fs → Type 0
  VerifyPost src dst expected fs (ok u, fs') =
      (checksum_bytes b3 (content fs src) ≡ expected) × (fs' ≡ copied src dst fs)
  VerifyPost src dst expected fs (err e, fs') = OnlyAt dst fs fs'

  -- The part of copy_and_verify_checksum behind the loop.
  abbrev check : FilePath → FilePath → Text → Hasher → Exec Fs (Unit {0})
  check src dst expected h =
      if text_eq (finalize h) expected
      then copy_permissions src dst
      else do ignore (remove_file dst); raise checksum_mismatch

  remove_file-OnlyAt : (p : FilePath) (fs : Fs) → OnlyAt p fs (remove_file p fs).1
  unfolding remove_file
  remove_file-OnlyAt p fs = elim (Bool-cases (is_file fs p && fs.can_write p)) [
    | inl removed ↦ rw removed (none, refl)
    | inr kept ↦ rw kept (untouched p fs)
  ]

  OnlyAt-set_node :
      (p : FilePath) (n : Option Node) (fs g : Fs) → OnlyAt p (set_node p n fs) g → OnlyAt p fs g
  OnlyAt-set_node p n fs g (m, h) = (m, h ∙ set_node-set_node p n m fs)

  after_verify :
      (src dst : FilePath) (m : ℕ) (expected : Text) (fs : Fs) (r : Result (Hasher × Hasher) × Fs)
      → src ≢ dst
      → fs.can_write dst ≡ true
      → LoopPost b3 dst m [] (content fs src) new new (set_node dst (some (file m [])) fs) r
      → VerifyPost src dst expected fs
          (continue (first_hasher b3 r).0 (check src dst expected) (first_hasher b3 r).1)
  unfolding checksum_bytes
  after_verify src dst m expected fs (ok hs, fs') ne w (hs0, hs1, hfs) =
      elim (Bool-cases (text_eq (finalize hs.0) expected)) [
        | inl same ↦
            rw
              (
                same,
                hfs ∙ set_node-set_node dst _ _ fs,
                copy_permissions_lem src dst m (content fs src) fs ne w,
              )
              (
                sym (ap finalize hs0 ∙ finalize-update (content fs src)) ∙ (text_eq_iff _ _).0 same,
                refl,
              )
        | inr differ ↦
            rw (differ, hfs ∙ set_node-set_node dst _ _ fs)
              (OnlyAt-set_node dst (some (file m (content fs src))) fs _ (remove_file-OnlyAt dst _))
      ]
  after_verify src dst m expected fs (err e, fs') ne w (b', hfs) =
      (some (file m b'), hfs ∙ set_node-set_node dst _ _ fs)

  after_verified_read :
      (src dst : FilePath) (m : ℕ) (expected : Text) (fs : Fs) (fails : Bool) (b : Bytes)
      (r : Result (Hasher × Hasher) × Fs)
      → src ≢ dst
      → fs.can_write dst ≡ true
      → (fails ≡ false → b ≡ content fs src)
      → LoopPost b3 dst m [] b new new (set_node dst (some (file m [])) fs) r
      → VerifyPost src dst expected fs (
          continue
            (first_hasher b3 r).0
            (λ h. raise_if fails read_failed >> check src dst expected h)
            (first_hasher b3 r).1)
  after_verified_read src dst m expected fs false b r ne w whole post =
      after_verify src dst m expected fs r ne w (
        subst (λ c. LoopPost b3 dst m [] c new new (set_node dst (some (file m [])) fs) r)
          (whole refl) post)
  after_verified_read src dst m expected fs true b (ok hs, fs') ne w whole (hs0, hs1, hfs) =
      (some (file m b), hfs ∙ set_node-set_node dst _ _ fs)
  after_verified_read src dst m expected fs true b (err e, fs') ne w whole (b', hfs) =
      (some (file m b'), hfs ∙ set_node-set_node dst _ _ fs)

  -- For two different paths: a verified copy that reports success has left exactly a copy of the
  -- source at the destination, and the BLAKE3 hash of the source is the expected one; one that
  -- fails has changed no path but the destination.
  pub copy_and_verify_checksum_lem :
      (src dst : FilePath) (expected : Text) (fs : Fs)
      → src ≢ dst
      → VerifyPost src dst expected fs (copy_and_verify_checksum b3 src dst expected fs)
  unfolding copy_and_verify_checksum open_file create_file
  copy_and_verify_checksum_lem src dst expected fs ne =
      elim (Bool-cases (exists fs src && fs.can_read src)) [
        | inr closed ↦ rw closed (untouched dst fs)
        | inl opened ↦ rw opened (elim (Bool-cases (fs.can_write dst && not (is_dir fs dst))) [
          | inr refused ↦ rw refused (untouched dst fs)
          | inl created ↦
              rw
                (
                  created,
                  text_eq_ne dst src (λ e. ne (sym e)),
                  verify_loop-eq-copy_loop b3 65535 _ _ _ _ _,
                )
                (after_verified_read src dst (node_mode (fs.node dst)) expected fs
                  (read_fails fs src) (readable fs src)
                  (copy_loop b3 buf_size (suc (length (readable fs src))) dst (readable fs src) new
                    new (set_node dst (some (file (node_mode (fs.node dst)) [])) fs))
                  ne (writable (fs.can_write dst) (not (is_dir fs dst)) created)
                  (readable-content src fs)
                  (copy_loop-LoopPost b3 65535 (suc (length (readable fs src))) dst
                    (readable fs src) new new (node_mode (fs.node dst)) []
                    (set_node dst (some (file (node_mode (fs.node dst)) [])) fs) (omega arith)
                    (node-set_self dst _ fs)))
        ])
      ]

  -- Where the system permits the copy, its outcome is decided by the hash of the source alone:
  -- an exact copy if it is the expected one, and otherwise an error with the destination removed.
  pub copy_and_verify_checksum_total :
      (src dst : FilePath) (expected : Text) (fs : Fs)
      → src ≢ dst
      → IsCopyable src dst fs
      → copy_and_verify_checksum b3 src dst expected fs ≡ (
          if text_eq (checksum_bytes b3 (content fs src)) expected
          then (ok tt, copied src dst fs)
          else (err checksum_mismatch, set_node dst none fs))
  unfolding copy_and_verify_checksum open_file create_file checksum_bytes remove_file
  copy_and_verify_checksum_total src dst expected fs ne can =
      rw
        (
          can.source_there,
          can.source_readable,
          can.source_sound,
          can.target_writable,
          can.target_no_dir,
          text_eq_ne dst src (λ e. ne (sym e)),
          readable-content src fs can.source_sound,
          verify_loop-eq-copy_loop b3 65535 _ _ _ _ _,
        )
        (rw
          (
            copy_loop_lem b3 65535 (suc (length (content fs src))) dst (content fs src) new new
                (node_mode (fs.node dst)) []
                (set_node dst (some (file (node_mode (fs.node dst)) [])) fs) (omega arith)
                (node-set_self dst _ fs) can.target_room,
            finalize-update (content fs src),
          )
          (elim (Bool-cases (text_eq (hash (content fs src)) expected)) [
            | inl same ↦ rw same (
                ap (copy_permissions src dst) (set_node-set_node dst _ _ fs)
                ∙ copy_permissions_lem src dst (node_mode (fs.node dst)) (content fs src) fs ne
                    can.target_writable)
            | inr differ ↦
                rw (differ, text_eq_refl dst, can.target_writable)
                  (ap (λ (g : Fs). (err checksum_mismatch, g))
                    (set_node-set_node dst _ _ _ ∙ set_node-set_node dst _ _ fs))
          ]))
