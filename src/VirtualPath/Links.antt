-- ===== src/VirtualPath/Links.antt =====
-- What creating and removing a link leaves behind.
use bitprotector.Base.{
  arith, create_failed, Option, false, is_some, true, ◌⊎◌, ◌≡◌, refl, Bool, not, inl, inr,
  Bool-cases, Option-cases, none, some, Text, text_eq, text_eq_refl, if◌then◌else◌, Result, ok, err,
  Exec, pure, raise, raise_if, modify, gets, ◌>>=◌, ◌>>◌, continue, not_a_symlink,
  virtual_path_taken, remove_failed,
}
use bitprotector.VirtualPath.Refresh.{
  place_link, not_found, symlink, other, link_metadata, set_link, create_symlink,
}
use bitprotector.Fs.{FilePath, Fs, create_parent}
use bitprotector.Db.World.{World}

-- The links at other paths are the same in both worlds.
abbrev pub SameElsewhere : Text → World → World → Type 0
SameElsewhere virtual w w' =
    (q : Text)
    → (if text_eq virtual q then none else w'.links q)
      ≡ (if text_eq virtual q then none else w.links q)

-- Why no link can be placed, where the parent directories leave this file system.
abbrev pub IsBarred : Text → Bool → Fs → World → Type 0
IsBarred virtual allow_replace fs w =
    (is_some (fs.node virtual) ≡ true)
    ⊎ (fs.can_write virtual ≡ false)
    ⊎ ((is_some (w.links virtual) ≡ true) × (allow_replace ≡ false))

-- How a creation ends whose parent directories leave this result and file system.
abbrev pub LinkPost :
    Text → FilePath → Bool → World → Result (Unit {0}) × Fs → Result (Unit {0}) × World → Type 0
LinkPost virtual real allow_replace w (parents, fs) (ok u, w') =
    (w'.links virtual ≡ some real)
    × (w'.fs ≡ fs)
    × (is_some (fs.node virtual) ≡ false)
    × ((is_some (w.links virtual) ≡ false) ⊎ (allow_replace ≡ true))
    × SameElsewhere virtual w w'
LinkPost virtual real allow_replace w (parents, fs) (err e, w') =
    ((parents ≡ err e) ⊎ IsBarred virtual allow_replace fs w)
    × (w'.fs ≡ fs)
    × ((w'.links virtual ≡ w.links virtual) ⊎ (allow_replace ≡ true))
    × SameElsewhere virtual w w'

module _ (virtual : Text) (real : FilePath) (w : World) where
  relinked :
      (fs : Fs) (target : Option FilePath)
      → SameElsewhere virtual w (set_link virtual target (record w { fs = fs }))
  relinked fs target q = elim (Bool-cases (text_eq virtual q)) [
    | inl hit ↦ rw hit refl
    | inr miss ↦ rw miss refl
  ]

  relinked_twice :
      (fs : Fs) (a b : Option FilePath)
      → SameElsewhere virtual w (set_link virtual b (set_link virtual a (record w { fs = fs })))
  relinked_twice fs a b q = elim (Bool-cases (text_eq virtual q)) [
    | inl hit ↦ rw hit refl
    | inr miss ↦ rw miss refl
  ]

  place_link-barred :
      (v : World)
      → v.links virtual ≡ none
      → is_some (v.fs.node virtual) ≡ true
      → place_link virtual real v ≡ (err create_failed, v)
  place_link-barred v absent there = ground arith

  place_link-shut :
      (v : World)
      → v.links virtual ≡ none
      → v.fs.node virtual ≡ none
      → v.fs.can_write virtual ≡ false
      → place_link virtual real v ≡ (err create_failed, v)
  place_link-shut v absent free shut = ground arith

  place_link-placed :
      (v : World)
      → v.links virtual ≡ none
      → v.fs.node virtual ≡ none
      → v.fs.can_write virtual ≡ true
      → place_link virtual real v ≡ (ok tt, set_link virtual (some real) v)
  place_link-placed v absent free allowed = ground arith

  gone_link : (fs : Fs) → (set_link virtual none (record w { fs = fs })).links virtual ≡ none
  gone_link fs = rw (text_eq_refl virtual) refl

  -- The steps of create_symlink behind the creation of the parent directories.
  abbrev link_steps : Bool → Exec World (Unit {0})
  link_steps allow_replace = do
    meta ← gets (λ v. link_metadata v virtual)
    elim meta [
      | not_found ↦ pure tt
      | other ↦ raise not_a_symlink
      | symlink ↦ if not allow_replace then raise virtual_path_taken else do
        writable ← gets (λ v. v.fs.can_write virtual)
        raise_if (not writable) remove_failed
        modify (set_link virtual none)
    ]
    place_link virtual real

  link_steps_lem :
      (allow_replace : Bool) (parents : Result (Unit {0})) (fs : Fs)
      → LinkPost virtual real allow_replace w
          (parents, fs)
          (link_steps allow_replace (record w { fs = fs }))
  link_steps_lem allow_replace parents fs = elim (Option-cases (w.links virtual)) [
    | inl absent ↦ elim (Option-cases (fs.node virtual)) [
      | inr (n, there) ↦ rw (absent, there) (inr (inl (rw there refl)), refl, inl refl, λ q. refl)
      | inl free ↦ elim (Bool-cases (fs.can_write virtual)) [
        | inr shut ↦
            rw (absent, free, place_link-shut (record w { fs = fs }) absent free shut)
              (inr (inr (inl shut)), refl, inl refl, λ q. refl)
        | inl allowed ↦
            rw
              (
                absent,
                free,
                place_link-placed (record w { fs = fs }) absent free allowed,
                text_eq_refl virtual,
              )
              (refl, refl, rw free refl, inl (rw absent refl), relinked fs (some real))
      ]
    ]
    | inr (t, linked) ↦ elim (Bool-cases allow_replace) [
      | inr kept ↦
          rw (linked, kept) (inr (inr (inr (rw linked refl, refl))), refl, inl refl, λ q. refl)
      | inl allowing ↦ elim (Bool-cases (fs.can_write virtual)) [
        | inr shut ↦ rw (linked, allowing, shut) (inr (inr (inl shut)), refl, inr refl, λ q. refl)
        | inl allowed ↦ elim (Option-cases (fs.node virtual)) [
          | inr (n, there) ↦
              rw
                (
                  linked,
                  allowing,
                  allowed,
                  place_link-barred (set_link virtual none (record w { fs = fs })) (gone_link fs)
                      (rw there refl),
                )
                (inr (inl (rw there refl)), refl, inr refl, relinked fs none)
          | inl free ↦
              rw
                (
                  linked,
                  allowing,
                  allowed,
                  place_link-placed (set_link virtual none (record w { fs = fs })) (gone_link fs)
                      free allowed,
                  text_eq_refl virtual,
                )
                (refl, refl, rw free refl, inr refl, relinked_twice fs none (some real))
        ]
      ]
    ]
  ]

  after_parent :
      (allow_replace : Bool) (r : Result (Unit {0}) × Fs)
      → LinkPost virtual real allow_replace w r
          (continue r.0 (λ u. link_steps allow_replace) (record w { fs = r.1 }))
  after_parent allow_replace (ok u, fs) = link_steps_lem allow_replace (ok u) fs
  after_parent allow_replace (err e, fs) = (inl refl, refl, inl refl, λ q. refl)

  -- A creation of a link that succeeds has left a link to the target at a path where nothing but a
  -- link was, and none was where links must not be replaced. It fails only where the parent
  -- directories cannot be made, something that is no link is at the path, the system does not let
  -- the path be written, or a link is there that must not be replaced; a link that must not be
  -- replaced stays. In all cases the links at other paths are as they were, and no file is changed
  -- but for the parent directories.
  pub create_symlink_lem :
      (allow_replace : Bool)
      → LinkPost virtual real allow_replace w
          (create_parent virtual w.fs)
          (create_symlink virtual real allow_replace w)
  unfolding create_symlink
  create_symlink_lem allow_replace = after_parent allow_replace (create_parent virtual w.fs)
