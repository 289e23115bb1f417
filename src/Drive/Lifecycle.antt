-- ===== src/Drive/Lifecycle.antt =====
-- The states that a drive goes through: only along the edges of the lifecycle.
use bitprotector.Base.{
  ℕ, ◌≡◌, refl, ap, Bool, true, false, not, ◌&&◌, inl, inr, Option, none, some, arith, Bool-cases,
  Option-cases, Result, ok, err, List,
}
use bitprotector.Base.Table.{find, update_where}
use bitprotector.Base.Table.Laws.{option_map}
use bitprotector.Fs.{FilePath}
use bitprotector.Db.Rows.{
  DrivePair, DriveRole, primary, secondary, role_eq, DriveState, active, quiescing, rebuilding,
  state_eq,
}
use bitprotector.Db.World.{World, log_event}
use bitprotector.Db.Files.{mark_drive_pair_unmirrored}
use bitprotector.Db.Queue.{fail_pending_sync_queue_for_drive_pair}
use bitprotector.Db.Pairs.{pair_is, set_runtime}
use bitprotector.Drive.Pair.{opposite, role_state, path_for_role, path_is_available}
use bitprotector.Drive.Ops.{
  mark_drive_quiescing, cancel_drive_quiescing, confirm_drive_failure, on_primary, on_secondary,
  next_active,
}
use bitprotector.Drive.Runtime.{
  get_drive_pair_found, get_drive_pair_missing, update_drive_pair_runtime_lem, pairs-refresh,
}

-- The edges: a drive is quiesced and released, or confirmed failed; it fails at once in an
-- emergency; a failed drive is replaced and rebuilt, and comes back only then.
abbrev pub may_move : DriveState → DriveState → Bool
may_move active quiescing = true
may_move active DriveState.failed = true
may_move quiescing active = true
may_move quiescing DriveState.failed = true
may_move DriveState.failed rebuilding = true
may_move rebuilding active = true
may_move _ _ = false

-- What an operation on one drive of a pair has done to the table of pairs: the row that it
-- returns is the stored row with that drive moved along an edge and the other drive as it was;
-- where it fails the table is as it was.
abbrev pub MovedRows : ℕ → DriveRole → List DrivePair → Result DrivePair → List DrivePair → Type 0
MovedRows id role rows (ok p') rows' =
    (pair : DrivePair) × (f : DrivePair → DrivePair) × (find (pair_is id) rows ≡ some pair)
    × (p' ≡ f pair)
    × (rows' ≡ update_where (pair_is id) f rows)
    × (may_move (role_state pair role) (role_state p' role) ≡ true)
    × (role_state p' (opposite role) ≡ role_state pair (opposite role))
MovedRows id role rows (err e) rows' = rows' ≡ rows

-- The same for an operation that takes a drive from one state to another.
abbrev pub SteppedRows :
    ℕ
    → DriveRole
    → DriveState
    → DriveState
    → List DrivePair
    → Result DrivePair
    → List DrivePair
    → Type 0
SteppedRows id role s t rows (ok p') rows' =
    (MovedRows id role rows (ok p') rows')
    × (option_map (λ (p : DrivePair). role_state p role) (find (pair_is id) rows) ≡ some s)
    × (role_state p' role ≡ t)
SteppedRows id role s t rows (err e) rows' = rows' ≡ rows

abbrev pub MovesOne :
    ℕ → DriveRole → DriveState → DriveState → World → Result DrivePair × World → Type 0
MovesOne id role s t w (r, w') = SteppedRows id role s t w.pairs r w'.pairs

role_state-set :
    (role : DriveRole) (s : DriveState) (pp sp : Option FilePath) (next : Option DriveRole)
    (pair : DrivePair)
    → let p' = set_runtime pp sp (on_primary role s) (on_secondary role s) next pair in
      (role_state p' role ≡ s) × (role_state p' (opposite role) ≡ role_state pair (opposite role))
role_state-set primary s pp sp next pair = (refl, refl)
role_state-set secondary s pp sp next pair = (refl, refl)

state_eq→eq : (s t : DriveState) → state_eq s t ≡ true → s ≡ t
state_eq→eq s t h = ground arith

module _ (id : ℕ) (role : DriveRole) (w : World) where
  -- The common end of the operations.
  pub moved :
      (s : DriveState) (pp sp : Option FilePath) (next : Option DriveRole) (pair : DrivePair)
      (rows : List DrivePair)
      → find (pair_is id) w.pairs ≡ some pair
      → may_move (role_state pair role) s ≡ true
      → rows
        ≡ update_where
            (pair_is id)
            (set_runtime pp sp (on_primary role s) (on_secondary role s) next)
            w.pairs
      → MovedRows id role w.pairs
          (ok (set_runtime pp sp (on_primary role s) (on_secondary role s) next pair))
          rows
  moved s pp sp next pair rows found edge h =
      let (side, other) = role_state-set role s pp sp next pair in
      (
        pair,
        set_runtime pp sp (on_primary role s) (on_secondary role s) next,
        found,
        refl,
        h,
        rw side edge,
        other,
      )

  pub edge_from :
      (s t : DriveState) (u : DriveState)
      → state_eq s t ≡ true
      → may_move t u ≡ true
      → may_move s u ≡ true
  edge_from s t u h e = rw (state_eq→eq s t h) e

  stepped :
      (s t : DriveState) (next : Option DriveRole) (pair : DrivePair) (rows : List DrivePair)
      → find (pair_is id) w.pairs ≡ some pair
      → state_eq (role_state pair role) s ≡ true
      → may_move s t ≡ true
      → rows
        ≡ update_where
            (pair_is id)
            (set_runtime none none (on_primary role t) (on_secondary role t) next)
            w.pairs
      → SteppedRows id role s t w.pairs
          (ok (set_runtime none none (on_primary role t) (on_secondary role t) next pair))
          rows
  stepped s t next pair rows found state edge h = (
    moved t none none next pair rows found (edge_from (role_state pair role) s t state edge) h,
    rw found (ap some (state_eq→eq (role_state pair role) s state)),
    (role_state-set role t none none next pair).0,
  )

  -- Where quiescing a drive succeeds, the drive was active in the stored row of the pair and is
  -- quiescing in the row returned, the state of the other drive is kept and the rows of that pair
  -- alone are changed; where it fails, the table of pairs is as it was.
  pub mark_drive_quiescing-MovesOne :
      MovesOne id role active quiescing w (mark_drive_quiescing id role w)
  unfolding mark_drive_quiescing log_event
  mark_drive_quiescing-MovesOne = elim (Option-cases (find (pair_is id) w.pairs)) [
    | inl missing ↦ rw (get_drive_pair_missing id w missing) refl
    | inr (pair, found) ↦
        rw (get_drive_pair_found id w pair found)
          (elim (Bool-cases (state_eq (role_state pair role) active)) [
            | inr other ↦ rw other refl
            | inl state ↦
                rw
                  (
                    state,
                    update_drive_pair_runtime_lem id none none (on_primary role quiescing)
                        (on_secondary role quiescing) none w pair found,
                  )
                  (stepped active quiescing none pair _ found state refl refl)
          ])
  ]

  -- Where cancelling the quiescing of a drive succeeds, the drive was quiescing in the stored row
  -- of the pair and is active in the row returned, the state of the other drive is kept and the rows
  -- of that pair alone are changed; where it fails, the table of pairs is as it was.
  pub cancel_drive_quiescing-MovesOne :
      MovesOne id role quiescing active w (cancel_drive_quiescing id role w)
  unfolding cancel_drive_quiescing log_event
  cancel_drive_quiescing-MovesOne = elim (Option-cases (find (pair_is id) w.pairs)) [
    | inl missing ↦ rw (get_drive_pair_missing id w missing) refl
    | inr (pair, found) ↦
        rw (get_drive_pair_found id w pair found)
          (elim (Bool-cases (state_eq (role_state pair role) quiescing)) [
            | inr other ↦ rw other refl
            | inl state ↦
                rw
                  (
                    state,
                    update_drive_pair_runtime_lem id none none (on_primary role active)
                        (on_secondary role active) none w pair found,
                  )
                  (stepped quiescing active none pair _ found state refl refl)
          ])
  ]

  -- Where confirming the failure of a drive succeeds, the drive was quiescing in the stored row of
  -- the pair and is failed in the row returned, the state of the other drive is kept and the rows of
  -- that pair alone are changed; where it fails, the table of pairs is as it was.
  pub confirm_drive_failure-MovesOne :
      MovesOne id role quiescing DriveState.failed w (confirm_drive_failure id role w)
  unfolding confirm_drive_failure log_event mark_drive_pair_unmirrored
      fail_pending_sync_queue_for_drive_pair
  confirm_drive_failure-MovesOne = elim (Option-cases (find (pair_is id) w.pairs)) [
    | inl missing ↦ rw (get_drive_pair_missing id w missing) refl
    | inr (pair, found) ↦
        rw (get_drive_pair_found id w pair found)
          (elim (Bool-cases (state_eq (role_state pair role) quiescing)) [
            | inr other ↦ rw other refl
            | inl state ↦
                rw state
                  (elim (Bool-cases (
                    role_eq role pair.active_role
                    && not (path_is_available w.fs (path_for_role pair (next_active pair role))))) [
                      | inl cut_off ↦ rw cut_off refl
                      | inr reachable ↦
                          rw
                            (
                              reachable,
                              update_drive_pair_runtime_lem id none none
                                  (on_primary role DriveState.failed)
                                  (on_secondary role DriveState.failed)
                                  (some (next_active pair role)) w pair found,
                            )
                            (stepped quiescing DriveState.failed (some (next_active pair role)) pair
                              _ found state refl (pairs-refresh _ _))
                    ])
          ])
  ]
