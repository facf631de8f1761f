-- ===== src/Alert/Roi/Cache.antt =====
-- How long a camera's polygon is kept, and when the database is asked again.
use computer_vision.Common.{
  ◌≡◌, ◌≢◌, refl, sym, ap, ◌∙◌, inl, inr, String, Option, none, some, arith, lookup,
  lookup-insert_self, lookup-remove, remove, same_self, text_key, Option-cases,
}
use computer_vision.Errors.{Result, ok}
use computer_vision.Alert.Roi.{
  BBox, Geometry, RoiMatcher, load_polygon, store, get_polygon, judge, is_in_roi, invalidate,
}

module _ (g : Geometry) where
  lookup-store :
      (s : RoiMatcher g) (c : String) (r : Result (Option g.Polygon)) (p : Option g.Polygon)
      → r ≡ ok p
      → lookup c (store g s c r).cache ≡ some p
  lookup-store s c r p e = rw e (lookup-insert_self c p s.cache)

  get_polygon-missing :
      (get_roi : String → Option String) (s : RoiMatcher g) (c : String)
      → lookup c s.cache ≡ none
      → get_polygon g get_roi s c
        ≡ (store g s c (load_polygon g get_roi c), load_polygon g get_roi c)
  unfolding get_polygon
  get_polygon-missing get_roi s c e = ground arith

  get_polygon-found :
      (get_roi : String → Option String) (s : RoiMatcher g) (c : String) (p : Option g.Polygon)
      → lookup c s.cache ≡ some p
      → get_polygon g get_roi s c ≡ (s, ok p)
  unfolding get_polygon
  get_polygon-found get_roi s c p e = ground arith

  ok_injective :
      (p q : Option g.Polygon) → ◌≡◌ {A = Result (Option g.Polygon)} (ok p) (ok q) → p ≡ q
  ok_injective p q e = cc

  get_polygon-kept :
      (get_roi : String → Option String) (s : RoiMatcher g) (c : String) (p : Option g.Polygon)
      → (get_polygon g get_roi s c).1 ≡ ok p
      → lookup c (get_polygon g get_roi s c).0.cache ≡ some p
  get_polygon-kept get_roi s c p e = elim (Option-cases (lookup c s.cache)) [
    | inl missing ↦
        let here = get_polygon-missing get_roi s c missing in
        rw here (lookup-store s c (load_polygon g get_roi c) p (sym (ap (λ r. r.1) here) ∙ e))
    | inr (q, found) ↦
        let here = get_polygon-found get_roi s c q found in
        rw here (found ∙ ap some (ok_injective q p (sym (ap (λ r. r.1) here) ∙ e)))
  ]

  -- Once a camera's polygon, or that it has none, was found, every later box of that camera is judged
  -- by it and the cache stays as it is, whatever the database answers by then.
  pub is_in_roi_cached :
      (before after : String → Option String) (s : RoiMatcher g) (c : String)
      (first later : BBox g.Coordinate) (p : Option g.Polygon)
      → (get_polygon g before s c).1 ≡ ok p
      → is_in_roi g after (is_in_roi g before s c first).0 c later
        ≡ ((is_in_roi g before s c first).0, judge g (ok p) later)
  unfolding is_in_roi
  is_in_roi_cached before after s c first later p e =
      let here =
        get_polygon-found after (get_polygon g before s c).0 c p
          (get_polygon-kept before s c p e) in
      rw here refl

  -- After a camera is invalidated, its next box is judged by what the database answers then, and what
  -- is kept of every other camera is unchanged.
  pub is_in_roi-invalidate :
      (after : String → Option String) (s : RoiMatcher g) (c d : String) (b : BBox g.Coordinate)
      → c ≢ d
      → ((is_in_roi g after (invalidate g s c) c b).1 ≡ judge g (load_polygon g after c) b)
        × (lookup d (invalidate g s c).cache ≡ lookup d s.cache)
  unfolding is_in_roi invalidate
  is_in_roi-invalidate after s c d b apart =
      let gone : lookup c (remove c s.cache) ≡ none =
        ground (arith, lookup-remove c c s.cache, same_self c) in
      (
        rw (get_polygon-missing after (invalidate g s c) c gone) refl,
        ground (arith, lookup-remove c d s.cache, text_key.same_iff c d),
      )
