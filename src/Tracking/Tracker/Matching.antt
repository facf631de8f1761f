-- ===== src/Tracking/Tracker/Matching.antt =====
-- What the association of tracks with detections leaves of the tracks it was given.
use mathlib.Core.Bool.{◌||◌}
use mathlib.Core.Path.{subst}
use computer_vision.Common.{
  ℕ, suc, ◌+◌, ◌≤◌, ◌≡◌, refl, sym, ap, ◌∙◌, ◌⊎◌, inl, inr, Bool, true, false, Option, none, some,
  List, [], ◌∷◌, ◌++◌, map, arith, get_elem?, eqb, eqb_iff, Numbers, Bool-cases,
}
use computer_vision.Tracking.Kalman.{Arrays}
use computer_vision.Tracking.Tracker.{
  tracked, member, Track, ids, modify, update_track, Match, write_matches, unmatched, rows,
}

pub member-append : (i : ℕ) (xs ys : List ℕ) → member i (xs ++ ys) ≡ (member i xs || member i ys)
member-append i [] ys = refl
member-append i (x ∷ xs) ys = ground (arith, member-append i xs ys)

shift : (k j : ℕ) → k + suc j ≡ suc k + j
shift k j = omega arith

zero_add : (j : ℕ) → j ≡ 0 + j
zero_add j = omega arith

shift_zero : (k : ℕ) → k + 0 ≡ k
shift_zero k = omega arith

or_left : (b c : Bool) → b ≡ true → (b || c) ≡ true
or_left b c h = rw h refl

module _ (n : Numbers) (a : Arrays n) where
  abbrev pub All {ℓ} : (Track n a → Type ℓ) → List (Track n a) → Type ℓ
  All P [] = Unit
  All P (t ∷ ts) = P t × All P ts

  pub All-map {ℓ κ} :
      (P : Track n a → Type ℓ) (Q : Track n a → Type κ) (ts : List (Track n a))
      → ((t : Track n a) → P t → Q t)
      → All P ts
      → All Q ts
  All-map P Q [] f h = tt
  All-map P Q (t ∷ ts) f h = (f t h.0, All-map P Q ts f h.1)

  pub All-modify {ℓ κ} :
      (P : Track n a → Type ℓ) (Q : Track n a → Type κ) (i : ℕ) (f : Track n a → Track n a)
      (ts : List (Track n a))
      → ((t : Track n a) → t.track_id ≡ i → P t → Q (f t))
      → ((t : Track n a) → eqb t.track_id i ≡ false → P t → Q t)
      → All P ts
      → All Q (modify n a i f ts)
  unfolding modify
  All-modify P Q i f [] hit miss h = tt
  All-modify P Q i f (t ∷ ts) hit miss h = elim (Bool-cases (eqb t.track_id i)) [
    | inl same ↦
        rw same (hit t ((eqb_iff t.track_id i).0 same) h.0, All-modify P Q i f ts hit miss h.1)
    | inr other ↦ rw other (miss t other h.0, All-modify P Q i f ts hit miss h.1)
  ]

  -- Seen in this frame, or still to be dealt with.
  pub record IsPending (frame_id : ℕ) (left : List ℕ) (t : Track n a) : Type 0 where
    pub past : t.last_frame ≤ frame_id
    pub seen_or_left :
        ((t.state ≡ tracked) × (t.last_frame ≡ frame_id)) ⊎ (member t.track_id left ≡ true)

  pub IsPending-left :
      (frame_id : ℕ) (left later : List ℕ) (t : Track n a)
      → (member t.track_id left ≡ true → member t.track_id later ≡ true)
      → IsPending frame_id left t
      → IsPending frame_id later t
  IsPending-left frame_id left later t f h = record {
    past = h.past;
    seen_or_left = elim h.seen_or_left [ inl seen ↦ inl seen | inr m ↦ inr (f m) ];
  }

  abbrev pub match_ids : List (Match n a) → List ℕ
  match_ids = map (λ m. m.track.track_id)

  pub All-write_matches :
      (frame_id : ℕ) (ms : List (Match n a)) (left : List ℕ) (store : List (Track n a))
      → All (IsPending frame_id (match_ids ms ++ left)) store
      → All (IsPending frame_id left) (write_matches n a frame_id ms store)
  unfolding write_matches update_track
  All-write_matches frame_id [] left store h = h
  All-write_matches frame_id (m ∷ ms) left store h =
      All-write_matches frame_id ms left
        (modify n a m.track.track_id (update_track n a frame_id m.detection) store)
        (All-modify (IsPending frame_id (match_ids (m ∷ ms) ++ left))
          (IsPending frame_id (match_ids ms ++ left)) m.track.track_id
          (update_track n a frame_id m.detection) store
          (λ t e p. record { past = omega arith; seen_or_left = inl (refl, refl) })
          (λ t e p.
            IsPending-left frame_id (match_ids (m ∷ ms) ++ left) (match_ids ms ++ left) t
              (λ h. ground arith) p)
          h)

  -- Each match holds the track of its row.
  abbrev pub AllRead : List (Track n a) → List (Match n a) → Type 0
  AllRead full [] = Unit
  AllRead full (m ∷ ms) = (get_elem? full m.row ≡ some m.track) × AllRead full ms

  abbrev id_or_zero : Option (Track n a) → ℕ
  id_or_zero none = 0
  id_or_zero (some t) = t.track_id

  match_ids-row :
      (full : List (Track n a)) (ms : List (Match n a)) (k : ℕ) (x : Track n a)
      → AllRead full ms
      → get_elem? full k ≡ some x
      → member k (rows n a ms) ≡ true
      → member x.track_id (match_ids ms) ≡ true
  match_ids-row full [] k x h e m = cc
  match_ids-row full (r ∷ ms) k x h e m = elim (Bool-cases (eqb r.row k)) [
    | inl same ↦
        let there : some r.track ≡ some x =
          sym h.0 ∙ ap (get_elem? full) ((eqb_iff r.row k).0 same) ∙ e in
        let named : r.track.track_id ≡ x.track_id = ap id_or_zero there in ground arith
    | inr other ↦
        let rest : member x.track_id (match_ids ms) ≡ true =
          match_ids-row full ms k x h.1 e (ground arith) in
        ground arith
  ]

  -- Every track of the list is matched or left over.
  match_ids-unmatched :
      (full : List (Track n a)) (ms : List (Match n a)) (k : ℕ) (ts : List (Track n a)) (i : ℕ)
      → AllRead full ms
      → ((j : ℕ) (x : Track n a) → get_elem? ts j ≡ some x → get_elem? full (k + j) ≡ some x)
      → member i (ids n a ts) ≡ true
      → member i (match_ids ms ++ ids n a (unmatched n a k (rows n a ms) ts)) ≡ true
  match_ids-unmatched full ms k [] i h at m = cc
  match_ids-unmatched full ms k (x ∷ ts) i h at m =
      let rest = λ (m' : member i (ids n a ts) ≡ true).
        match_ids-unmatched full ms (suc k) ts i h
          (λ j y e. subst (λ q. get_elem? full q ≡ some y) (shift k j) (at (suc j) y e)) m' in
      elim (Bool-cases (member k (rows n a ms))) [
        | inl taken ↦ rw taken (elim (Bool-cases (eqb x.track_id i)) [
          | inl same ↦
              let here =
                match_ids-row full ms k x h
                  (subst (λ q. get_elem? full q ≡ some x) (shift_zero k) (at 0 x refl)) taken in
              let e : x.track_id ≡ i = (eqb_iff x.track_id i).0 same in
              rw (member-append i (match_ids ms) (ids n a (unmatched n a (suc k) (rows n a ms) ts)))
                (or_left _ _ (subst (λ q. member q (match_ids ms) ≡ true) e here))
          | inr other ↦ rest (ground arith)
        ])
        | inr left ↦ rw left (elim (Bool-cases (eqb x.track_id i)) [
          | inl same ↦ ground (
            arith,
            member-append i (match_ids ms)
                (x.track_id ∷ ids n a (unmatched n a (suc k) (rows n a ms) ts)),
          )
          | inr other ↦
              let later = rest (ground arith) in
              ground (
                arith,
                member-append i (match_ids ms)
                    (x.track_id ∷ ids n a (unmatched n a (suc k) (rows n a ms) ts)),
                member-append i (match_ids ms) (ids n a (unmatched n a (suc k) (rows n a ms) ts)),
              )
        ])
      ]

  pub spread :
      (ms : List (Match n a)) (full left : List (Track n a)) (others : List ℕ)
      → AllRead full ms
      → (i : ℕ) → left ≡ unmatched n a 0 (rows n a ms) full
      → member i (ids n a full ++ others) ≡ true
      → member i (match_ids ms ++ (ids n a left ++ others)) ≡ true
  spread ms full left others h i e m = elim (Bool-cases (member i (ids n a full))) [
    | inl old ↦
        let found =
          match_ids-unmatched full ms 0 full i h
            (λ j x q. subst (λ k. get_elem? full k ≡ some x) (zero_add j) q) old in
        let found' : member i (match_ids ms ++ ids n a left) ≡ true = rw e found in
        ground (
          arith,
          member-append i (match_ids ms) (ids n a left),
          member-append i (match_ids ms) (ids n a left ++ others),
          member-append i (ids n a left) others,
        )
    | inr other ↦ ground (
      arith,
      member-append i (ids n a full) others,
      member-append i (match_ids ms) (ids n a left ++ others),
      member-append i (ids n a left) others,
    )
  ]
