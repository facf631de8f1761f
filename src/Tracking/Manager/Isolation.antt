-- ===== src/Tracking/Manager/Isolation.antt =====
-- The manager's trackers stay apart: what an update of one camera does to them all.
use mathlib.Core.Path.{subst}
use computer_vision.Common.{
  ℕ, ◌≡◌, refl, sym, ◌∙◌, ◌⊎◌, inl, inr, String, Option, none, some, List, [], ◌∷◌, Dict, lookup,
  insert, lookup-insert, AllEntries, AllEntries-lookup, AllEntries-insert, ◌==◌, text_key, Numbers,
  if◌then◌else◌, length, Bool-cases, Option-cases,
}
use computer_vision.Vision.{Detection, TrackedDetection}
use computer_vision.Tracking.Kalman.{Arrays}
use computer_vision.Tracking.Tracker.{ByteTracker, Track, update, costs}
use computer_vision.Tracking.Tracker.Assigned.{AllWithin}
use computer_vision.Tracking.Tracker.Lifecycle.{IsValid}
use computer_vision.Tracking.Tracker.Update.{make_tracker-IsValid, update-IsValid}
use computer_vision.Tracking.Manager.{
  TrackerManager, TrackerOptions, tracker_of, make_trackers, make_manager, add_tracker, manager_of,
  has_repeat, Updated, unknown_camera, updated, update_camera,
}

module _ (n : Numbers) (a : Arrays n) where
  -- The tracker is the one of its camera, and valid.
  abbrev IsOwn : String → ByteTracker n a → Type 0
  IsOwn c s = (s.camera_id ≡ c) × IsValid n a s

  abbrev pub AllValid : TrackerManager n a → Type 0
  AllValid m = AllEntries IsOwn m.trackers

  abbrev Holds {ℓ} : {A : Type ℓ} → (A → Type 0) → Option A → Type 0
  Holds P none = Unit
  Holds P (some x) = P x

  Holds-add_tracker :
      (c : String) (s : Option (ByteTracker n a)) (rest : Option (Dict String (ByteTracker n a)))
      → Holds (IsOwn c) s
      → Holds (AllEntries IsOwn) rest
      → Holds (AllEntries IsOwn) (add_tracker n a c s rest)
  Holds-add_tracker c none rest h k = tt
  Holds-add_tracker c (some s) none h k = tt
  Holds-add_tracker c (some s) (some rest) h k = (h, k)

  Holds-make_trackers :
      (o : TrackerOptions n a) (cs : List String)
      → Holds (AllEntries IsOwn) (make_trackers n a o cs)
  unfolding make_trackers
  Holds-make_trackers o [] = tt
  Holds-make_trackers o (c ∷ cs) =
      Holds-add_tracker c (tracker_of n a o c) (make_trackers n a o cs)
        (elim (make_tracker-IsValid n a c o.track_threshold o.low_threshold o.match_iou_threshold
          o.track_buffer) [
            | inl bad ↦ subst (Holds (IsOwn c)) (sym bad) tt
            | inr (s, made, valid, own) ↦ subst (Holds (IsOwn c)) (sym made) (own, valid)
          ])
        (Holds-make_trackers o cs)

  Holds-manager_of :
      (d : Option (Dict String (ByteTracker n a)))
      → Holds (AllEntries IsOwn) d
      → Holds AllValid (manager_of n a d)
  Holds-manager_of none h = tt
  Holds-manager_of (some d) h = h

  -- A manager that the constructor makes holds a valid tracker of its own for each camera.
  pub make_manager-AllValid :
      (o : TrackerOptions n a) (cs : List String) → Holds AllValid (make_manager n a o cs)
  unfolding make_manager
  make_manager-AllValid o cs = elim (Bool-cases (has_repeat cs)) [
    | inl e ↦ rw e tt
    | inr e ↦ rw e (Holds-manager_of _ (Holds-make_trackers o cs))
  ]

  -- One camera is updated by its own tracker, and the others keep theirs.
  pub record Isolated (assign : List (List n.Number) → List (ℕ × ℕ)) (c : String)
      (ds : List (Detection n)) (m : TrackerManager n a) (o : Updated n a) : Type 0 where
    pub tracker : ByteTracker n a
    pub next : TrackerManager n a
    pub detections : List (TrackedDetection n)
    pub known : lookup c m.trackers ≡ some tracker
    pub returned : o ≡ updated next detections
    pub after : ByteTracker n a
    pub own : update n a assign tracker ds ≡ some (after, detections)
    pub valid : AllValid next
    pub trackers :
        (other : String)
        → lookup other next.trackers ≡ (if c == other then some after else lookup other m.trackers)

  module _ (assign : List (List n.Number) → List (ℕ × ℕ))
      (within : (ts : List (Track n a)) (ds : List (Detection n))
        → AllWithin n a (length ts) (length ds) (assign (costs n a ts ds))) where
    -- Where the assignment answers rows and columns of its costs, and in a manager of valid trackers,
    -- `update` of an unknown camera is a `KeyError`. Of a known camera it
    -- is the update of that camera's tracker alone, without an `IndexError`: every other tracker is the
    -- one before, and all are valid again.
    pub update_camera-Isolated :
        (c : String) (ds : List (Detection n)) (m : TrackerManager n a)
        → AllValid m
        → ((lookup c m.trackers ≡ none) × (update_camera n a assign c ds m ≡ unknown_camera))
          ⊎ Isolated assign c ds m (update_camera n a assign c ds m)
    unfolding update_camera
    update_camera-Isolated c ds m v = elim (Option-cases (lookup c m.trackers)) [
      | inl missing ↦ inl (missing, rw missing refl)
      | inr (s, known) ↦
          let own = AllEntries-lookup IsOwn c s m.trackers v known in
          let u = update-IsValid n a assign within s ds own.1 in
          inr (record {
            tracker = s;
            next = record { trackers = insert c u.result.0 m.trackers };
            detections = u.result.1;
            known = known;
            returned = rw (known, u.returned) refl;
            after = u.result.0;
            own = u.returned;
            valid =
                AllEntries-insert IsOwn c u.result.0 m.trackers v (u.same_camera ∙ own.0, u.valid);
            trackers = λ other. lookup-insert c other u.result.0 m.trackers;
          })
    ]
