-- ===== src/Active/SessionLaws.antt =====
-- .trellis/scripts/common/active_task.py: what setting, clearing and moving the active task do to the
-- sessions.
use taihu.Base.{
  ◌+◌, ◌≡◌, ◌⊎◌, true, some, refl, arith, inl, inr, false, ◌&&◌, ◌||◌, Bool-cases, [], ◌∷◌,
  if◌then◌else◌, Text, lit, ◌==◌, ==_refl, ==_iff, is_empty, All, length,
}
use taihu.Json.{Json, null, str, obj, get, Fields, assign, get-assign}
use taihu.Files.Tree.{FilePath}
use taihu.Active.Keys.{string_value}
use taihu.Active.Sessions.{
  Sessions, Io, find_session, or_empty, write_session, remove_session, current_of,
  relative_task_ref,
}
use taihu.Active.Pointer.{
  points_at, clear_pointing, clear_task_from_sessions, ref_or_normal, moved_from, repoint,
  repoint_task_in_sessions,
}

pub find-write :
    (k l : Text) (v : Json) (ss : Sessions)
    → find_session l (write_session k v ss) ≡ (if k == l then v else find_session l ss)
unfolding find_session write_session
find-write k l v [] = refl
find-write k l v ((m, w) ∷ ss) =
    ground (arith, find-write k l v ss, ==_iff m k, ==_iff k l, ==_iff m l)

pub find-remove : (k : Text) (ss : Sessions) → find_session k (remove_session k ss) ≡ null
unfolding find_session remove_session
find-remove k [] = refl
find-remove k ((m, w) ∷ ss) = ground (arith, find-remove k ss)

pub current_of-assign :
    (ref : Text) (d : Fields)
    → current_of (assign (lit "current_task") (str ref) d) ≡ string_value (str ref)
current_of-assign ref d =
    rw
      (
        get-assign (lit "current_task") (lit "current_task") (str ref) d,
        ==_refl (lit "current_task"),
      )
      refl

module _ (io : Io) (repo : FilePath) where
  clear_pointing-count :
      (target : Text) (ss : Sessions)
      → (clear_pointing io repo target ss).0 + length (clear_pointing io repo target ss).1
        ≡ length ss
  unfolding clear_pointing
  clear_pointing-count target [] = omega arith
  clear_pointing-count target ((k, v) ∷ ss) =
      elim (Bool-cases (points_at io repo target (current_of (or_empty v)) && io.can_remove k)) [
        | inl e ↦ rw (e, clear_pointing) (omega (arith, clear_pointing-count target ss))
        | inr e ↦ rw (e, clear_pointing) (omega (arith, clear_pointing-count target ss))
      ]

  abbrev pub Kept : Text → Text × Json → Type 0
  Kept target (k, v) =
      (points_at io repo target (current_of (or_empty v)) && io.can_remove k) ≡ false

  clear_pointing-Kept :
      (target : Text) (ss : Sessions) → All (Kept target) (clear_pointing io repo target ss).1
  unfolding clear_pointing
  clear_pointing-Kept target [] = tt
  clear_pointing-Kept target ((k, v) ∷ ss) =
      elim (Bool-cases (points_at io repo target (current_of (or_empty v)) && io.can_remove k)) [
        | inl e ↦ rw (e, clear_pointing) (clear_pointing-Kept target ss)
        | inr e ↦ rw (e, clear_pointing) (e, clear_pointing-Kept target ss)
      ]

  -- The sessions that are left, in their order: one is gone exactly if it points at the task and its
  -- file can be removed.
  abbrev pub Cleared : Text → Sessions → Sessions → Type 0
  Cleared target [] us = us ≡ []
  Cleared target ((k, v) ∷ ss) us =
      (((points_at io repo target (current_of (or_empty v)) && io.can_remove k) ≡ true)
        × Cleared target ss us)
      ⊎ (Kept target (k, v) × (rest : Sessions) × (us ≡ (k, v) ∷ rest) × Cleared target ss rest)

  clear_pointing-Cleared :
      (target : Text) (ss : Sessions) → Cleared target ss (clear_pointing io repo target ss).1
  unfolding clear_pointing
  clear_pointing-Cleared target [] = refl
  clear_pointing-Cleared target ((k, v) ∷ ss) =
      elim (Bool-cases (points_at io repo target (current_of (or_empty v)) && io.can_remove k)) [
        | inl e ↦ rw (e, clear_pointing) (inl (refl, clear_pointing-Cleared target ss))
        | inr e ↦
            rw (e, clear_pointing)
              (inr (
                refl,
                (clear_pointing io repo target ss).1,
                refl,
                clear_pointing-Cleared target ss,
              ))
      ]

  -- Clearing a task removes exactly the sessions that point at it and whose file can be removed, leaves
  -- the others as they are in their order, and counts those that are gone.
  pub clear_task_from_sessions-Kept :
      (path : Text) (ss : Sessions)
      → is_empty (ref_or_normal io repo path) ≡ false
      → Cleared (ref_or_normal io repo path) ss (clear_task_from_sessions io repo path ss).1
        × All (Kept (ref_or_normal io repo path)) (clear_task_from_sessions io repo path ss).1
        × ((clear_task_from_sessions io repo path ss).0
              + length (clear_task_from_sessions io repo path ss).1
            ≡ length ss)
  unfolding clear_task_from_sessions
  clear_task_from_sessions-Kept path ss h = rw h (
    clear_pointing-Cleared (ref_or_normal io repo path) ss,
    clear_pointing-Kept (ref_or_normal io repo path) ss,
    clear_pointing-count (ref_or_normal io repo path) ss,
  )

  abbrev pub Moved : Text → Text × Json → Type 0
  Moved target (k, v) =
      (moved_from io repo target (current_of (or_empty v)) && io.can_write k) ≡ false

  -- A session whose task is renamed has the new name, and every other key as before.
  abbrev pub Turned : Text → Fields → Json → Type 0
  Turned r d w =
      (e : Fields) × (w ≡ obj e)
      × (get (lit "current_task") e ≡ some (str r))
      × ((k : Text) → (lit "current_task" == k) ≡ false → get k e ≡ get k d)

  -- The sessions in their order, each under its key: one that points at the old name and can be written
  -- gets the new one, and every other is the same.
  abbrev pub Repointed : Text → Text → Sessions → Sessions → Type 0
  Repointed t r [] us = us ≡ []
  Repointed t r ((k, v) ∷ ss) us =
      (w : Json) × (rest : Sessions) × (us ≡ (k, w) ∷ rest)
      × Repointed t r ss rest
      × (((moved_from io repo t (current_of (or_empty v)) && io.can_write k) ≡ true)
            × Turned r (or_empty v) w
          ⊎ (Moved t (k, v) × (w ≡ v)))

  assign-Turned : (r : Text) (d : Fields) → Turned r d (obj (assign (lit "current_task") (str r) d))
  assign-Turned r d = (
    assign (lit "current_task") (str r) d,
    refl,
    rw
        (
          get-assign (lit "current_task") (lit "current_task") (str r) d,
          ==_refl (lit "current_task"),
        )
        refl,
    λ k n. rw (get-assign (lit "current_task") k (str r) d, n) refl,
  )

  repoint-Repointed : (t r : Text) (ss : Sessions) → Repointed t r ss (repoint io repo t r ss).1
  unfolding repoint
  repoint-Repointed t r [] = refl
  repoint-Repointed t r ((k, v) ∷ ss) =
      elim (Bool-cases (moved_from io repo t (current_of (or_empty v)) && io.can_write k)) [
        | inl e ↦
            rw (e, repoint)
              (
                obj (assign (lit "current_task") (str r) (or_empty v)),
                (repoint io repo t r ss).1,
                refl,
                repoint-Repointed t r ss,
                inl (refl, assign-Turned r (or_empty v)),
              )
        | inr e ↦
            rw (e, repoint)
              (v, (repoint io repo t r ss).1, refl, repoint-Repointed t r ss, inr (refl, refl))
      ]

  repoint-Moved :
      (t r : Text) (ss : Sessions)
      → moved_from io repo t (string_value (str r)) ≡ false
      → All (Moved t) (repoint io repo t r ss).1
  unfolding repoint
  repoint-Moved t r [] h = tt
  repoint-Moved t r ((k, v) ∷ ss) h =
      elim (Bool-cases (moved_from io repo t (current_of (or_empty v)) && io.can_write k)) [
        | inl e ↦
            rw (e, repoint) (rw (current_of-assign r (or_empty v), h) refl, repoint-Moved t r ss h)
        | inr e ↦ rw (e, repoint) (e, repoint-Moved t r ss h)
      ]

  -- Renaming a task gives the new name to exactly the sessions that point at the old one and can be
  -- written, and keeps their other keys and every other session; afterwards none that can be written
  -- points at the old name, if the new name does not stand for the old one.
  pub repoint_task_in_sessions-Moved :
      (old new target replacement : Text) (ss : Sessions)
      → relative_task_ref io.proc.disk repo old ≡ target
      → relative_task_ref io.proc.disk repo new ≡ replacement
      → (is_empty target || is_empty replacement) ≡ false
      → moved_from io repo target (string_value (str replacement)) ≡ false
      → All (Moved target) (repoint_task_in_sessions io repo old new ss).1
        × Repointed target replacement ss (repoint_task_in_sessions io repo old new ss).1
  unfolding repoint_task_in_sessions
  repoint_task_in_sessions-Moved old new t r ss o n given other =
      rw (o, n, given) (repoint-Moved t r ss other, repoint-Repointed t r ss)
