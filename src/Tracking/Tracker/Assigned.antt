-- ===== src/Tracking/Tracker/Assigned.antt =====
-- An association as a whole: `_associate` with its assignment.
use computer_vision.Common.{
  ℕ, suc, ◌<◌, ◌≡◌, refl, ap, ◌∙◌, inl, inr, Option, some, List, [], ◌∷◌, ◌++◌, length, get_elem?,
  get_elem?-lt, eqb, Numbers, whole, Bool-cases,
}
use computer_vision.Vision.{Detection}
use computer_vision.Tracking.Kalman.{Arrays}
use computer_vision.Tracking.Tracker.{
  member, Track, ids, modify, update_track, Match, add_match, cost, matches, write_matches,
  unmatched, rows, costs, Association, associate,
}
use computer_vision.Tracking.Tracker.Matching.{
  All, All-map, IsPending, IsPending-left, match_ids, All-write_matches, AllRead, spread,
}

module _ (n : Numbers) (a : Arrays n) where
  -- The assignment answers rows and columns of the costs.
  abbrev pub AllWithin : ℕ → ℕ → List (ℕ × ℕ) → Type 0
  AllWithin r k [] = Unit
  AllWithin r k (p ∷ pairs) = (p.0 < r) × (p.1 < k) × AllWithin r k pairs

  record Matched (full : List (Track n a)) (o : Option (List (Match n a))) : Type 0 where
    found : List (Match n a)
    returned : o ≡ some found
    read : AllRead n a full found

  add_match-Matched :
      (threshold : n.Number) (full : List (Track n a)) (p : ℕ × ℕ) (t : Track n a) (d : Detection n)
      (rest : Option (List (Match n a)))
      → get_elem? full p.0 ≡ some t
      → Matched full rest
      → Matched full (add_match n a threshold p (some t) (some d) rest)
  add_match-Matched threshold full p t d rest e h =
      elim (Bool-cases (n.lt (n.sub (whole n 1) (cost n a t d)) threshold)) [
        | inl small ↦
            rw h.returned (record { found = h.found; returned = rw small refl; read = h.read })
        | inr enough ↦ rw h.returned (record {
          found = record { row = p.0; column = p.1; track = t; detection = d } ∷ h.found;
          returned = rw enough refl;
          read = (e, h.read);
        })
      ]

  matches-Matched :
      (threshold : n.Number) (ts : List (Track n a)) (ds : List (Detection n))
      (pairs : List (ℕ × ℕ))
      → AllWithin (length ts) (length ds) pairs
      → Matched ts (matches n a threshold ts ds pairs)
  unfolding matches
  matches-Matched threshold ts ds [] h = record { found = []; returned = refl; read = tt }
  matches-Matched threshold ts ds (p ∷ pairs) h =
      let (t, row_read) = get_elem?-lt ts p.0 h.0 in
      let (d, column_read) = get_elem?-lt ds p.1 h.1 in
      rw (row_read, column_read)
        (add_match-Matched threshold ts p t d (matches n a threshold ts ds pairs) row_read
          (matches-Matched threshold ts ds pairs h.2))

  pub ids-modify :
      (i : ℕ) (f : Track n a → Track n a) (store : List (Track n a))
      → ((t : Track n a) → (f t).track_id ≡ t.track_id)
      → ids n a (modify n a i f store) ≡ ids n a store
  unfolding modify
  ids-modify i f [] h = refl
  ids-modify i f (t ∷ ts) h = elim (Bool-cases (eqb t.track_id i)) [
    | inl same ↦ rw same (
        ap (λ j. j ∷ ids n a (modify n a i f ts)) (h t) ∙ ap (◌∷◌ t.track_id) (ids-modify i f ts h))
    | inr other ↦ rw other (ap (◌∷◌ t.track_id) (ids-modify i f ts h))
  ]

  ids-write_matches :
      (frame_id : ℕ) (ms : List (Match n a)) (store : List (Track n a))
      → ids n a (write_matches n a frame_id ms store) ≡ ids n a store
  unfolding write_matches update_track
  ids-write_matches frame_id [] store = refl
  ids-write_matches frame_id (m ∷ ms) store =
      ids-write_matches frame_id ms _
      ∙ ids-modify m.track.track_id (update_track n a frame_id m.detection) store (λ t. refl)

  All-unmatched {ℓ} :
      (P : Track n a → Type ℓ) (k : ℕ) (taken : List ℕ) (ts : List (Track n a))
      → All n a P ts
      → All n a P (unmatched n a k taken ts)
  All-unmatched P k taken [] h = tt
  All-unmatched P k taken (t ∷ ts) h = elim (Bool-cases (member k taken)) [
    | inl e ↦ rw e (All-unmatched P (suc k) taken ts h.1)
    | inr e ↦ rw e (h.0, All-unmatched P (suc k) taken ts h.1)
  ]

  -- After an association nothing but the tracks left over, and those that were pending besides, is
  -- still to be dealt with.
  pub record Associated (frame_id : ℕ) (others : List ℕ) (store ts : List (Track n a))
      (o : Option (Association n a)) : Type 1 where
    pub result : Association n a
    pub returned : o ≡ some result
    pub pending :
        All n a (IsPending n a frame_id (ids n a result.left_tracks ++ others)) result.store
    pub same_ids : ids n a result.store ≡ ids n a store
    pub from_tracks : (P : Track n a → Type 0) → All n a P ts → All n a P result.left_tracks

  pub associate-Associated :
      (assign : List (List n.Number) → List (ℕ × ℕ)) (threshold : n.Number) (frame_id : ℕ)
      (store ts : List (Track n a)) (ds : List (Detection n)) (others : List ℕ)
      → AllWithin (length ts) (length ds) (assign (costs n a ts ds))
      → All n a (IsPending n a frame_id (ids n a ts ++ others)) store
      → Associated frame_id others store ts (associate n a assign threshold frame_id store ts ds)
  unfolding associate
  associate-Associated assign threshold frame_id store [] ds others within h = record {
    result = record { store = store; left_tracks = []; left_detections = ds };
    returned = refl;
    pending = h;
    same_ids = refl;
    from_tracks = λ P p. p;
  }
  associate-Associated assign threshold frame_id store (t ∷ ts) [] others within h = record {
    result = record { store = store; left_tracks = t ∷ ts; left_detections = [] };
    returned = refl;
    pending = h;
    same_ids = refl;
    from_tracks = λ P p. p;
  }
  associate-Associated assign threshold frame_id store (t ∷ ts) (d ∷ ds) others within h =
      let full = t ∷ ts in
      let m = matches-Matched threshold full (d ∷ ds) (assign (costs n a full (d ∷ ds))) within in
      let left = unmatched n a 0 (rows n a m.found) full in
      rw m.returned (record {
        result = _;
        returned = refl;
        pending = All-write_matches n a frame_id m.found (ids n a left ++ others) store (
            All-map n a _ _ store
              (λ x.
                IsPending-left n a frame_id (ids n a full ++ others)
                  (match_ids n a m.found ++ (ids n a left ++ others)) x
                  (spread n a m.found full left others m.read x.track_id refl))
              h);
        same_ids = ids-write_matches frame_id m.found store;
        from_tracks = λ P p. All-unmatched P 0 (rows n a m.found) full p;
      })
