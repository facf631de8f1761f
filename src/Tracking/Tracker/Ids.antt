-- ===== src/Tracking/Tracker/Ids.antt =====
-- The ids that the tracks of a tracker carry: increasing, and below the next one to give.
use computer_vision.Common.{
  ℕ, suc, ◌+◌, ◌≤◌, ◌≡◌, refl, ap, ◌∙◌, inl, inr, Bool, List, [], ◌∷◌, ◌++◌, arith, length, keep,
  Numbers, Bool-cases,
}
use computer_vision.Vision.{Detection}
use computer_vision.Tracking.Kalman.{Arrays}
use computer_vision.Tracking.Tracker.{
  Track, ids, is_removed, predict_all, predict_track, lose_track, lose_all, new_tracks, new_track,
}
use computer_vision.Tracking.Tracker.Assigned.{ids-modify}

-- From `lo` up, each greater than the one before, and below `hi`.
abbrev pub Increasing : ℕ → List ℕ → ℕ → Type 0
Increasing lo [] hi = lo ≤ hi
Increasing lo (i ∷ is) hi = (lo ≤ i) × Increasing (suc i) is hi

pub Increasing-append :
    (lo : ℕ) (is js : List ℕ) (mid hi : ℕ)
    → Increasing lo is mid
    → Increasing mid js hi
    → Increasing lo (is ++ js) hi
Increasing-append lo [] [] mid hi h k = omega arith
Increasing-append lo [] (j ∷ js) mid hi h k = (omega arith, k.1)
Increasing-append lo (i ∷ is) js mid hi h k = (h.0, Increasing-append (suc i) is js mid hi h.1 k)

Increasing-lower :
    (lo lo' : ℕ) (is : List ℕ) (hi : ℕ) → lo ≤ lo' → Increasing lo' is hi → Increasing lo is hi
Increasing-lower lo lo' [] hi e h = omega arith
Increasing-lower lo lo' (i ∷ is) hi e h = (omega arith, h.1)

module _ (n : Numbers) (a : Arrays n) where
  pub Increasing-keep :
      (test : Track n a → Bool) (lo hi : ℕ) (ts : List (Track n a))
      → Increasing lo (ids n a ts) hi
      → Increasing lo (ids n a (keep test ts)) hi
  Increasing-keep test lo hi [] h = h
  Increasing-keep test lo hi (t ∷ ts) h =
      let rest = Increasing-keep test (suc t.track_id) hi ts h.1 in
      elim (Bool-cases (test t)) [
        | inl e ↦ rw e (h.0, rest)
        | inr e ↦ rw e (Increasing-lower lo (suc t.track_id) _ hi (omega (arith, h.0)) rest)
      ]

  pub Increasing-new_tracks :
      (i frame_id : ℕ) (ds : List (Detection n))
      → Increasing i (ids n a (new_tracks n a i frame_id ds)) (i + length ds)
  unfolding new_tracks new_track
  Increasing-new_tracks i frame_id [] = omega arith
  Increasing-new_tracks i frame_id (d ∷ ds) =
      (omega arith, rw (shift i (length ds)) (Increasing-new_tracks (suc i) frame_id ds))
    where
      shift : (k j : ℕ) → k + suc j ≡ suc k + j
      shift k j = omega arith

  pub ids-append : (xs ys : List (Track n a)) → ids n a (xs ++ ys) ≡ ids n a xs ++ ids n a ys
  ids-append [] ys = refl
  ids-append (x ∷ xs) ys = ap (◌∷◌ x.track_id) (ids-append xs ys)

  pub ids-predict_all : (ts : List (Track n a)) → ids n a (predict_all n a ts) ≡ ids n a ts
  unfolding predict_all predict_track
  ids-predict_all [] = refl
  ids-predict_all (t ∷ ts) = elim (Bool-cases (is_removed t.state)) [
    | inl e ↦ rw e (ap (◌∷◌ t.track_id) (ids-predict_all ts))
    | inr e ↦ rw e (ap (◌∷◌ t.track_id) (ids-predict_all ts))
  ]

  pub ids-lose_all :
      (buffer frame_id : ℕ) (is : List ℕ) (store : List (Track n a))
      → ids n a (lose_all n a buffer frame_id is store) ≡ ids n a store
  unfolding lose_all lose_track
  ids-lose_all buffer frame_id [] store = refl
  ids-lose_all buffer frame_id (i ∷ is) store =
      ids-lose_all buffer frame_id is _
      ∙ ids-modify n a i (lose_track n a buffer frame_id) store (λ t. refl)
