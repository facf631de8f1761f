-- ===== src/Tracking/Tracker/Lifecycle.antt =====
-- The states that `ByteTracker.update` leaves its tracks in.
use mathlib.Core.Path.{subst}
use computer_vision.Common.{
  ℕ, suc, ◌+◌, ◌≤◌, ◌≡◌, refl, ◌⊎◌, inl, inr, Bool, true, not, List, [], ◌∷◌, ◌++◌, arith, keep,
  ltb, Numbers, if◌then◌else◌, Bool-cases,
}
use computer_vision.Vision.{Detection}
use computer_vision.Tracking.Kalman.{Arrays}
use computer_vision.Tracking.Tracker.{
  tracked, lost, removed, is_lost, is_removed, member, Track, ByteTracker, ids, modify, Association,
  lose_track, lose_all, new_track, new_tracks, finish,
}
use computer_vision.Tracking.Tracker.Matching.{member-append, All, All-map, All-modify, IsPending}
use computer_vision.Tracking.Tracker.Ids.{
  Increasing, Increasing-append, Increasing-keep, Increasing-new_tracks, ids-append, ids-lose_all,
}

module _ (n : Numbers) (a : Arrays n) where
  -- A track that a detection matched in this frame, or one lost for at most `buffer` frames.
  abbrev pub Fits : ℕ → ℕ → Track n a → Type 0
  Fits buffer frame_id t =
      ((t.state ≡ tracked) × (t.last_frame ≡ frame_id))
      ⊎ ((t.state ≡ lost) × (frame_id ≤ t.last_frame + buffer))

  pub record IsCurrent (buffer frame_id : ℕ) (t : Track n a) : Type 0 where
    pub past : t.last_frame ≤ frame_id
    pub either : Fits buffer frame_id t

  pub record IsValid (s : ByteTracker n a) : Type 0 where
    pub ids_increasing : Increasing 1 (ids n a s.tracks) s.next_track_id
    pub current : All n a (IsCurrent s.track_buffer s.frame_id) s.tracks

  -- In the course of the loop over the tracks that remain.
  record IsSettling (buffer frame_id : ℕ) (left : List ℕ) (t : Track n a) : Type 0 where
    before : t.last_frame ≤ frame_id
    settled : (Fits buffer frame_id t ⊎ (t.state ≡ removed)) ⊎ (member t.track_id left ≡ true)

  IsSettling-lose_track :
      (buffer frame_id : ℕ) (left : List ℕ) (t : Track n a)
      → t.last_frame ≤ frame_id
      → IsSettling buffer frame_id left (lose_track n a buffer frame_id t)
  unfolding lose_track
  IsSettling-lose_track buffer frame_id left t h =
      elim (Bool-cases (ltb (t.last_frame + buffer) frame_id)) [
        | inl late ↦ record { before = h; settled = inl (inr (rw late refl)) }
        | inr soon ↦ record { before = h; settled = inl (inl (inr (rw soon refl, ground arith))) }
      ]

  All-lose_all :
      (buffer frame_id : ℕ) (left : List ℕ) (store : List (Track n a))
      → All n a (IsSettling buffer frame_id left) store
      → All n a (IsSettling buffer frame_id []) (lose_all n a buffer frame_id left store)
  unfolding lose_all
  All-lose_all buffer frame_id [] store h = h
  All-lose_all buffer frame_id (i ∷ left) store h =
      All-lose_all buffer frame_id left (modify n a i (lose_track n a buffer frame_id) store) (
        All-modify n a (IsSettling buffer frame_id (i ∷ left)) (IsSettling buffer frame_id left) i
          (lose_track n a buffer frame_id) store
          (λ t e p. IsSettling-lose_track buffer frame_id left t p.before)
          (λ t e p. record {
            before = p.before;
            settled = elim p.settled [ inl done ↦ inl done | inr m ↦ inr (ground arith) ];
          })
          h)

  All-keep_cons :
      (P : Track n a → Type 0) (test : Track n a → Bool) (t : Track n a) (ts : List (Track n a))
      → (test t ≡ true → P t)
      → All n a P (keep test ts)
      → All n a P (keep test (t ∷ ts))
  All-keep_cons P test t ts f h = elim (Bool-cases (test t)) [
    | inl e ↦ rw e (f e, h)
    | inr e ↦ rw e h
  ]

  -- Nothing is left to settle: what is not removed is current.
  All-keep-IsCurrent :
      (buffer frame_id : ℕ) (store : List (Track n a))
      → All n a (IsSettling buffer frame_id []) store
      → All n a (IsCurrent buffer frame_id) (keep (λ t. not (is_removed t.state)) store)
  All-keep-IsCurrent buffer frame_id [] h = tt
  All-keep-IsCurrent buffer frame_id (t ∷ ts) h =
      All-keep_cons (IsCurrent buffer frame_id) _ t ts
        (λ kept. elim h.0.settled [
          | inl (inl fit) ↦ record { past = h.0.before; either = fit }
          | inl (inr e) ↦ absurd (ground arith)
          | inr m ↦ absurd (ground arith)
        ])
        (All-keep-IsCurrent buffer frame_id ts h.1)

  All-keep_append :
      (P : Track n a → Type 0) (test : Track n a → Bool) (xs ys : List (Track n a))
      → All n a P (keep test xs)
      → All n a P (keep test ys)
      → All n a P (keep test (xs ++ ys))
  All-keep_append P test [] ys h k = k
  All-keep_append P test (x ∷ xs) ys h k = elim (Bool-cases (test x)) [
    | inl e ↦
        let h' : P x × All n a P (keep test xs) =
          subst (λ b. All n a P (if b then x ∷ keep test xs else keep test xs)) e h in
        rw e (h'.0, All-keep_append P test xs ys h'.1 k)
    | inr e ↦
        let h' : All n a P (keep test xs) =
          subst (λ b. All n a P (if b then x ∷ keep test xs else keep test xs)) e h in
        rw e (All-keep_append P test xs ys h' k)
  ]

  All-keep-new_tracks :
      (buffer i frame_id : ℕ) (ds : List (Detection n))
      → All n a
          (IsCurrent buffer frame_id)
          (keep (λ t. not (is_removed t.state)) (new_tracks n a i frame_id ds))
  unfolding new_tracks new_track
  All-keep-new_tracks buffer i frame_id [] = tt
  All-keep-new_tracks buffer i frame_id (d ∷ ds) = (
    record { past = omega arith; either = inl (refl, refl) },
    All-keep-new_tracks buffer (suc i) frame_id ds,
  )

  pub finish-IsValid :
      (s : ByteTracker n a) (candidates : List (Track n a)) (first second : Association n a)
      → Increasing 1 (ids n a second.store) s.next_track_id
      → All n a
          (IsPending n a s.frame_id
            (ids n a second.left_tracks ++ ids n a (keep (λ t. is_lost t.state) first.left_tracks)))
          second.store
      → IsValid (finish n a s candidates first second).0
  unfolding finish
  finish-IsValid s candidates first second order pending =
      let waiting = keep (λ t. is_lost t.state) first.left_tracks in
      let remaining = waiting ++ second.left_tracks in
      let created = new_tracks n a s.next_track_id s.frame_id first.left_detections in
      let after = lose_all n a s.track_buffer s.frame_id (ids n a remaining) second.store in
      let settled = All-lose_all s.track_buffer s.frame_id (ids n a remaining) second.store (
        All-map n a _ _ second.store
          (λ t p. record {
            before = p.past;
            settled = elim p.seen_or_left [
              | inl seen ↦ inl (inl (inl seen))
              | inr m ↦ inr (
                  rw (ids-append n a waiting second.left_tracks) (
                    ground (
                      arith,
                      member-append t.track_id (ids n a second.left_tracks) (ids n a waiting),
                      member-append t.track_id (ids n a waiting) (ids n a second.left_tracks),
                    )))
            ];
          })
          pending) in
      record {
        ids_increasing = Increasing-keep n a _ 1 _ (after ++ created) (
            rw
              (
                ids-append n a after created,
                ids-lose_all n a s.track_buffer s.frame_id (ids n a remaining) second.store,
              )
              (Increasing-append 1 _ _ s.next_track_id _ order
                (Increasing-new_tracks n a s.next_track_id s.frame_id first.left_detections)));
        current =
            All-keep_append _ _ after created
              (All-keep-IsCurrent s.track_buffer s.frame_id after settled)
              (All-keep-new_tracks s.track_buffer s.next_track_id s.frame_id first.left_detections);
      }
