-- ===== src/Desktop/Zones/Rotated.antt =====
-- `point_in_polygon` as a statement about the edges of the polygon.
use mathlib.Core.Bool.{◌||◌}
use computer_vision.Common.{
  ◌≡◌, refl, sym, ap, ◌∙◌, inl, inr, Bool, true, false, not, List, [], ◌∷◌, ◌++◌, map, Bool-cases,
  Numbers, if◌then◌else◌,
}
use computer_vision.Errors.{ok}
use computer_vision.Desktop.Zones.{
  Point, Maths, lies_on, differ, crosses, last_of, edge_loop, point_in_polygon,
}

module _ (n : Numbers) (m : Maths n) where
  -- A polygon as `json.loads` answers it.
  abbrev pub lists : List (Point n) → List (List n.Number)
  lists = map (λ p. p.0 ∷ p.1 ∷ [])

  -- The edges from each point to the next, after the point `previous`.
  abbrev pub edges_after : Point n → List (Point n) → List (Point n × Point n)
  edges_after previous [] = []
  edges_after previous (q ∷ qs) = (previous, q) ∷ edges_after q qs

  -- The edges of a polygon, of which the first is from its last point.
  abbrev pub edges : List (Point n) → List (Point n × Point n)
  edges [] = []
  edges (q ∷ qs) = edges_after (last_of q qs) (q ∷ qs)

  abbrev pub on_some : Point n → List (Point n × Point n) → Bool
  on_some p [] = false
  on_some p (e ∷ es) = lies_on n m p e.0 e.1 || on_some p es

  -- Whether the ray crosses an odd number of the edges.
  abbrev pub crosses_odd : Point n → List (Point n × Point n) → Bool
  crosses_odd p [] = false
  crosses_odd p (e ∷ es) = differ (crosses n m p e.0 e.1) (crosses_odd p es)

  abbrev pub is_inside : Point n → List (Point n × Point n) → Bool
  is_inside p es = on_some p es || crosses_odd p es

  differ_swap : (a b c : Bool) → differ a (differ b c) ≡ differ b (differ a c)
  differ_swap true true c = refl
  differ_swap true false c = refl
  differ_swap false true c = refl
  differ_swap false false c = refl

  toggled :
      (crossing inside rest : Bool)
      → differ (if crossing then not inside else inside) rest ≡ differ inside (differ crossing rest)
  toggled true true true = refl
  toggled true true false = refl
  toggled true false true = refl
  toggled true false false = refl
  toggled false inside rest = refl

  edge_loop-edges_after :
      (p previous : Point n) (inside : Bool) (qs : List (Point n))
      → edge_loop n m p previous inside (lists qs)
        ≡ ok (
            on_some p (edges_after previous qs)
            || differ inside (crosses_odd p (edges_after previous qs)))
  unfolding edge_loop
  edge_loop-edges_after p previous true [] = refl
  edge_loop-edges_after p previous false [] = refl
  edge_loop-edges_after p previous inside (q ∷ qs) = elim (Bool-cases (lies_on n m p previous q)) [
    | inl on ↦ rw on refl
    | inr off ↦ rw off (
        edge_loop-edges_after p q (if crosses n m p previous q then not inside else inside) qs
        ∙ ap (λ b. ok (on_some p (edges_after q qs) || b))
            (toggled (crosses n m p previous q) inside (crosses_odd p (edges_after q qs))))
  ]

  last_of-lists :
      (q : Point n) (qs : List (Point n))
      → last_of (q.0 ∷ q.1 ∷ []) (lists qs) ≡ (last_of q qs).0 ∷ (last_of q qs).1 ∷ []
  last_of-lists q [] = refl
  last_of-lists q (r ∷ rs) = last_of-lists r rs

  point_in_polygon-is_inside :
      (p : Point n) (qs : List (Point n))
      → point_in_polygon n m p (lists qs) ≡ ok (is_inside p (edges qs))
  unfolding point_in_polygon
  point_in_polygon-is_inside p [] = refl
  point_in_polygon-is_inside p (q ∷ qs) =
      rw (last_of-lists q qs) (edge_loop-edges_after p (last_of q qs) false (q ∷ qs))

  last_of-append : (r q : Point n) (rs : List (Point n)) → last_of r (rs ++ q ∷ []) ≡ q
  last_of-append r q [] = refl
  last_of-append r q (s ∷ rs) = last_of-append s q rs

  edges_after-append :
      (previous r q : Point n) (rs : List (Point n))
      → edges_after previous (r ∷ rs ++ q ∷ [])
        ≡ edges_after previous (r ∷ rs) ++ (last_of r rs, q) ∷ []
  edges_after-append previous r q [] = refl
  edges_after-append previous r q (s ∷ rs) =
      ap (λ es. (previous, r) ∷ es) (edges_after-append r s q rs)

  is_inside-rotate :
      (p : Point n) (e : Point n × Point n) (es : List (Point n × Point n))
      → is_inside p (es ++ e ∷ []) ≡ is_inside p (e ∷ es)
  is_inside-rotate p e es = rw (on_rotate es, odd_rotate es) refl
    where
      on_rotate :
          (es : List (Point n × Point n))
          → on_some p (es ++ e ∷ []) ≡ (lies_on n m p e.0 e.1 || on_some p es)
      on_rotate [] = refl
      on_rotate (f ∷ es) =
          ap (λ b. lies_on n m p f.0 f.1 || b) (on_rotate es)
          ∙ or_swap (lies_on n m p f.0 f.1) (lies_on n m p e.0 e.1) (on_some p es)
        where
          or_swap : (a b c : Bool) → (a || (b || c)) ≡ (b || (a || c))
          or_swap true true c = refl
          or_swap true false c = refl
          or_swap false true c = refl
          or_swap false false c = refl

      odd_rotate :
          (es : List (Point n × Point n))
          → crosses_odd p (es ++ e ∷ []) ≡ differ (crosses n m p e.0 e.1) (crosses_odd p es)
      odd_rotate [] = refl
      odd_rotate (f ∷ es) =
          ap (differ (crosses n m p f.0 f.1)) (odd_rotate es)
          ∙ differ_swap (crosses n m p f.0 f.1) (crosses n m p e.0 e.1) (crosses_odd p es)

  -- On a polygon of points with two coordinates: the answer is that the point lies on one of its edges or
  -- that the ray from the point crosses an odd number of them, and it is the same wherever the list of
  -- the polygon's points starts.
  pub point_in_polygon-rotate :
      (p q : Point n) (qs : List (Point n))
      → (point_in_polygon n m p (lists (q ∷ qs)) ≡ ok (is_inside p (edges (q ∷ qs))))
        × (point_in_polygon n m p (lists (qs ++ q ∷ [])) ≡ point_in_polygon n m p (lists (q ∷ qs)))
  point_in_polygon-rotate p q [] = (point_in_polygon-is_inside p (q ∷ []), refl)
  point_in_polygon-rotate p q (r ∷ rs) = (
    point_in_polygon-is_inside p (q ∷ r ∷ rs),
    point_in_polygon-is_inside p (r ∷ rs ++ q ∷ [])
        ∙ ap (λ es. ok (is_inside p es))
            (ap (λ previous. edges_after previous (r ∷ rs ++ q ∷ [])) (last_of-append r q rs)
              ∙ edges_after-append q r q rs)
        ∙ ap ok (is_inside-rotate p (last_of r rs, q) (edges_after q (r ∷ rs)))
        ∙ sym (point_in_polygon-is_inside p (q ∷ r ∷ rs)),
  )
