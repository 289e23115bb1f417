-- ===== src/Checksum/Loop.antt =====
-- The chunked loops against one pass over the whole content, for every buffer of at least a byte.
use bitprotector.Base.{
  ℕ, suc, zero, ◌+◌, ◌<◌, ◌≡◌, refl, sym, ap, ◌∙◌, true, inl, inr, Bool-cases, some, [], ◌∷◌, ◌++◌,
  arith, length, take, drop, take-append-drop, length-drop, Result, ok, err, write_failed, Exec,
  ◌>>=◌, continue, if◌then◌else◌,
}
use mathlib.Core.Path.{subst, fun_ext}
use mathlib.Core.List.{append-nil, append_assoc}
use bitprotector.Fs.{FilePath, Bytes, Fs, set_node, file, write_all, content, node_mode}
use bitprotector.Fs.Dirs.{node-set_self, set_node-set_node, set_node_same}
use bitprotector.Checksum.Hasher.{Blake3}
use bitprotector.Checksum.Defs.{
  ChecksumStrategy, streaming, mmap_rayon, hash_loop, hash_content, checksum_bytes, copy_loop,
  verify_loop,
}

module _ (b3 : Blake3) where
  open b3 use {Hasher, new, update, finalize, hash, update-nil, update-append, finalize-update}

  -- Two updates with the two parts of a chunked input are one update with the whole input.
  update-chunks :
      (j : ℕ) (x : ℕ) (xs : Bytes) (h : Hasher)
      → update (update h (x ∷ take j xs)) (drop j xs) ≡ update h (x ∷ xs)
  update-chunks j x xs h =
      update-append h (x ∷ take j xs) (drop j xs)
      ∙ ap (λ (r : Bytes). update h (x ∷ r)) (take-append-drop j xs)

  pub hash_loop-eq-update :
      (j fuel : ℕ) (rest : Bytes) (h : Hasher)
      → length rest < fuel
      → hash_loop b3 (suc j) fuel rest h ≡ update h rest
  unfolding hash_loop
  hash_loop-eq-update j zero rest h lt = elim lt [ ]
  hash_loop-eq-update j (suc fuel) [] h lt = sym (update-nil h)
  hash_loop-eq-update j (suc fuel) (x ∷ xs) h lt =
      hash_loop-eq-update j fuel (drop j xs) (update h (x ∷ take j xs))
        (omega (arith, length-drop j xs))
      ∙ update-chunks j x xs h

  -- Both strategies, the chunked reads and the mapped file, yield the BLAKE3 hash of the whole
  -- content.
  pub hash_content-eq-hash :
      (strategy : ChecksumStrategy) (b : Bytes) → hash_content b3 strategy b ≡ checksum_bytes b3 b
  unfolding hash_content checksum_bytes
  hash_content-eq-hash mmap_rayon b = finalize-update b
  hash_content-eq-hash streaming b =
      ap finalize (hash_loop-eq-update 65535 (suc (length b)) b new (omega arith))
      ∙ finalize-update b

  -- What a copy loop that began at `fs`, where `dst` held `b`, has done.
  abbrev pub LoopPost :
      FilePath → ℕ → Bytes → Bytes → Hasher → Hasher → Fs → Result (Hasher × Hasher) × Fs → Type 0
  LoopPost dst m b rest sh dh fs (ok hs, fs') =
      (hs.0 ≡ update sh rest)
      × (hs.1 ≡ update dh rest)
      × (fs' ≡ set_node dst (some (file m (b ++ rest))) fs)
  LoopPost dst m b rest sh dh fs (err e, fs') =
      (b' : Bytes) × (fs' ≡ set_node dst (some (file m b')) fs)

  LoopPost-step :
      (dst : FilePath) (m : ℕ) (b c rest : Bytes) (sh dh : Hasher) (fs : Fs)
      (r : Result (Hasher × Hasher) × Fs)
      → LoopPost dst m
          (b ++ c)
          rest
          (update sh c)
          (update dh c)
          (set_node dst (some (file m (b ++ c))) fs)
          r
      → LoopPost dst m b (c ++ rest) sh dh fs r
  LoopPost-step dst m b c rest sh dh fs (ok hs, fs') (hsh, hdh, hfs) = (
    hsh ∙ update-append sh c rest,
    hdh ∙ update-append dh c rest,
    hfs
        ∙ set_node-set_node dst _ _ fs
        ∙ ap (λ (t : Bytes). set_node dst (some (file m t)) fs) (append_assoc b c rest),
  )
  LoopPost-step dst m b c rest sh dh fs (err e, fs') (b', hfs) =
      (b', hfs ∙ set_node-set_node dst _ _ fs)

  write_all_lem :
      (dst : FilePath) (c : Bytes) (m : ℕ) (b : Bytes) (fs : Fs)
      → fs.node dst ≡ some (file m b)
      → write_all dst c fs ≡ (
          if fs.has_room dst (length b + length c)
          then (ok tt, set_node dst (some (file m (b ++ c))) fs)
          else (err write_failed, fs))
  unfolding write_all
  write_all_lem dst c m b fs h = ground arith

  pub copy_loop-LoopPost :
      (j fuel : ℕ) (dst : FilePath) (rest : Bytes) (sh dh : Hasher) (m : ℕ) (b : Bytes) (fs : Fs)
      → length rest < fuel
      → fs.node dst ≡ some (file m b)
      → LoopPost dst m b rest sh dh fs (copy_loop b3 (suc j) fuel dst rest sh dh fs)
  unfolding copy_loop
  copy_loop-LoopPost j zero dst rest sh dh m b fs lt h = elim lt [ ]
  copy_loop-LoopPost j (suc fuel) dst [] sh dh m b fs lt h =
      (sym (update-nil sh), sym (update-nil dh), sym (set_node_same dst _ fs (rw (append-nil b) h)))
  copy_loop-LoopPost j (suc fuel) dst (x ∷ xs) sh dh m b fs lt h =
      elim (Bool-cases (fs.has_room dst (length b + length (x ∷ take j xs)))) [
        | inl room ↦
            rw (write_all_lem dst (x ∷ take j xs) m b fs h, room)
              (subst
                (λ (t : Bytes). LoopPost dst m b (x ∷ t) sh dh fs (rest_of_loop (x ∷ take j xs)))
                (take-append-drop j xs)
                (LoopPost-step dst m b (x ∷ take j xs) (drop j xs) sh dh fs
                  (rest_of_loop (x ∷ take j xs))
                  (copy_loop-LoopPost j fuel dst (drop j xs) (update sh (x ∷ take j xs))
                    (update dh (x ∷ take j xs)) m (b ++ x ∷ take j xs)
                    (set_node dst (some (file m (b ++ x ∷ take j xs))) fs)
                    (omega (arith, length-drop j xs)) (node-set_self dst _ fs))))
        | inr full ↦
            rw (write_all_lem dst (x ∷ take j xs) m b fs h, full)
              (b, sym (set_node_same dst _ fs h))
      ]
    where
      rest_of_loop : Bytes → Result (Hasher × Hasher) × Fs
      rest_of_loop c =
          copy_loop b3 (suc j) fuel dst (drop j xs) (update sh c) (update dh c)
            (set_node dst (some (file m (b ++ c))) fs)

  -- With room on the disk the loop ends and reports no error.
  pub copy_loop_total :
      (j fuel : ℕ) (dst : FilePath) (rest : Bytes) (sh dh : Hasher) (fs : Fs)
      → ((n : ℕ) → fs.has_room dst n ≡ true)
      → (hs : Hasher × Hasher) × ((copy_loop b3 (suc j) fuel dst rest sh dh fs).0 ≡ ok hs)
  unfolding copy_loop write_all
  copy_loop_total j zero dst rest sh dh fs room = ((sh, dh), refl)
  copy_loop_total j (suc fuel) dst [] sh dh fs room = ((sh, dh), refl)
  copy_loop_total j (suc fuel) dst (x ∷ xs) sh dh fs room = rw (room _) (
      copy_loop_total j fuel dst (drop j xs) (update sh (x ∷ take j xs)) (update dh (x ∷ take j xs))
        (set_node dst (some (file (node_mode (fs.node dst)) (content fs dst ++ x ∷ take j xs))) fs)
        room)

  abbrev pub first_hasher : Result (Hasher × Hasher) × Fs → Result Hasher × Fs
  first_hasher (ok hs, fs) = (ok hs.0, fs)
  first_hasher (err e, fs) = (err e, fs)

  first_hasher-continue :
      (r : Result (Unit {0}) × Fs) (f : Unit {0} → Fs → Result (Hasher × Hasher) × Fs)
      → first_hasher (continue r.0 f r.1) ≡ continue r.0 (λ u s. first_hasher (f u s)) r.1
  first_hasher-continue (ok u, fs) f = refl
  first_hasher-continue (err e, fs) f = refl

  -- The loop of copy_and_verify_checksum is the other loop with one of the two hashers.
  pub verify_loop-eq-copy_loop :
      (j fuel : ℕ) (dst : FilePath) (rest : Bytes) (h : Hasher) (fs : Fs)
      → verify_loop b3 (suc j) fuel dst rest h fs
        ≡ first_hasher (copy_loop b3 (suc j) fuel dst rest h h fs)
  unfolding verify_loop copy_loop
  verify_loop-eq-copy_loop j zero dst rest h fs = refl
  verify_loop-eq-copy_loop j (suc fuel) dst [] h fs = refl
  verify_loop-eq-copy_loop j (suc fuel) dst (x ∷ xs) h fs =
      let c = x ∷ take j xs in
      ap (λ (f : Unit {0} → Exec Fs Hasher). (write_all dst c >>= f) fs)
        (fun_ext
          (λ u. fun_ext (λ s. verify_loop-eq-copy_loop j fuel dst (drop j xs) (update h c) s)))
      ∙ sym (
          first_hasher-continue (write_all dst c fs)
            (λ u. copy_loop b3 (suc j) fuel dst (drop j xs) (update h c) (update h c)))

  loop_outcome :
      (dst : FilePath) (m : ℕ) (b rest : Bytes) (sh dh : Hasher) (fs : Fs)
      (r : Result (Hasher × Hasher) × Fs) (hs : Hasher × Hasher)
      → r.0 ≡ ok hs
      → LoopPost dst m b rest sh dh fs r
      → r ≡ (ok (update sh rest, update dh rest), set_node dst (some (file m (b ++ rest))) fs)
  loop_outcome dst m b rest sh dh fs (ok hs', fs') hs e (h0, h1, hfs) =
      λ i. (ok (h0 i, h1 i), hfs i)
  loop_outcome dst m b rest sh dh fs (err e', fs') hs e p = cc

  -- With room on the disk the loop's outcome is known exactly.
  pub copy_loop_lem :
      (j fuel : ℕ) (dst : FilePath) (rest : Bytes) (sh dh : Hasher) (m : ℕ) (b : Bytes) (fs : Fs)
      → length rest < fuel
      → fs.node dst ≡ some (file m b)
      → ((n : ℕ) → fs.has_room dst n ≡ true)
      → copy_loop b3 (suc j) fuel dst rest sh dh fs
        ≡ (ok (update sh rest, update dh rest), set_node dst (some (file m (b ++ rest))) fs)
  copy_loop_lem j fuel dst rest sh dh m b fs lt h room =
      let (hs, e) = copy_loop_total j fuel dst rest sh dh fs room in
      loop_outcome dst m b rest sh dh fs (copy_loop b3 (suc j) fuel dst rest sh dh fs) hs e
        (copy_loop-LoopPost j fuel dst rest sh dh m b fs lt h)
