-- ===== src/Inference/PoseQueue/Kept.antt =====
-- The functions of `heapq` on a heap: which items they keep, counted by any test on their requests.
pub mod Calls
use mathlib.Core.Bool.{◌&&◌}
use computer_vision.Common.{
  ℕ, zero, suc, ◌+◌, ◌-◌, ◌*◌, ◌/◌, ◌≡◌, refl, sym, ap, ◌∙◌, inl, inr, Bool, Option, none, some,
  List, [], ◌∷◌, ◌++◌, length, get_elem?, ltb, arith, Bool-cases, Option-cases, if◌then◌else◌,
}
use computer_vision.Inference.PoseQueue.{
  PoseRequest, Item, is_less, set_at, sift_down, child_of, sift_up, heappush, pop_last, after_pop,
  sift_all, heapify, is_worse, worst_from,
}

module _ (Content : Type 0) (f : PoseRequest Content → Bool) where
  abbrev pub one : PoseRequest Content → ℕ
  one r = if f r then 1 else 0

  -- How many requests pass the test.
  abbrev pub count : List (PoseRequest Content) → ℕ
  count [] = 0
  count (r ∷ rs) = one r + count rs

  abbrev pub count_items : List (Item Content) → ℕ
  count_items [] = 0
  count_items (x ∷ heap) = one x.request + count_items heap

  count-set_at :
      (heap : List (Item Content)) (i : ℕ) (x y : Item Content)
      → get_elem? heap i ≡ some y
      → count_items (set_at Content heap i x) + one y.request ≡ count_items heap + one x.request
  count-set_at [] i x y e = absurd (ground arith)
  count-set_at (z ∷ heap) zero x y e =
      let same : z ≡ y = cc in omega (arith, ap (λ k. one k.request) same)
  count-set_at (z ∷ heap) (suc i) x y e = omega (arith, count-set_at heap i x y e)

  -- An item that is copied to another place still stands at its own.
  get_elem-set_at :
      (heap : List (Item Content)) (i j : ℕ) (y z : Item Content)
      → get_elem? heap i ≡ some y
      → get_elem? heap j ≡ some z
      → get_elem? (set_at Content heap i z) j ≡ some z
  get_elem-set_at [] i j y z e h = absurd (ground arith)
  get_elem-set_at (k ∷ heap) zero zero y z e h = refl
  get_elem-set_at (k ∷ heap) zero (suc j) y z e h = h
  get_elem-set_at (k ∷ heap) (suc i) zero y z e h = h
  get_elem-set_at (k ∷ heap) (suc i) (suc j) y z e h = get_elem-set_at heap i j y z e h

  -- The item `x` is put in, and the item `y` that stood at the position is out.
  count-sift_down :
      (fuel : ℕ) (heap : List (Item Content)) (start position : ℕ) (x y : Item Content)
      → get_elem? heap position ≡ some y
      → count_items (sift_down Content fuel heap start position x) + one y.request
        ≡ count_items heap + one x.request
  unfolding sift_down
  count-sift_down zero heap start position x y h = count-set_at heap position x y h
  count-sift_down (suc fuel) heap start position x y h =
      elim (Option-cases (get_elem? heap ((position - 1) / 2))) [
        | inl e ↦ rw (count_items, e) (count-set_at heap position x y h)
        | inr (parent, e) ↦
            rw (count_items, e)
              (elim (Bool-cases (ltb start position && is_less Content x parent)) [
                | inl up ↦
                    let moved = set_at Content heap position parent in
                    let rest =
                      count-sift_down fuel moved start ((position - 1) / 2) x parent
                        (get_elem-set_at heap position ((position - 1) / 2) y parent h e) in
                    rw (count_items, up)
                      (omega (arith, rest, count-set_at heap position parent y h))
                | inr here ↦ rw (count_items, here) (count-set_at heap position x y h)
              ])
      ]

  count-settled :
      (heap : List (Item Content)) (start position : ℕ) (x y : Item Content)
      → get_elem? heap position ≡ some y
      → count_items
            (sift_down Content (length heap) (set_at Content heap position x) start position x)
          + one y.request
        ≡ count_items heap + one x.request
  count-settled heap start position x y h =
      let there = set_self heap position h in
      omega (
        arith,
        count-sift_down (length heap) (set_at Content heap position x) start position x x there,
        count-set_at heap position x y h,
      )
    where
      set_self :
          (heap : List (Item Content)) (i : ℕ)
          → get_elem? heap i ≡ some y
          → get_elem? (set_at Content heap i x) i ≡ some x
      set_self [] i e = absurd (ground arith)
      set_self (k ∷ heap) zero e = refl
      set_self (k ∷ heap) (suc i) e = set_self heap i e

  get_elem-child_of :
      (heap : List (Item Content)) (child : ℕ) (left : Item Content) (right : Option (Item Content))
      → get_elem? heap child ≡ some left
      → get_elem? heap (suc child) ≡ right
      → get_elem? heap (child_of Content child left right).0
        ≡ some (child_of Content child left right).1
  get_elem-child_of heap child left none h k = h
  get_elem-child_of heap child left (some right) h k =
      elim (Bool-cases (is_less Content left right)) [ inl e ↦ rw e h | inr e ↦ rw e k ]

  count-sift_up :
      (fuel : ℕ) (heap : List (Item Content)) (start position : ℕ) (x y : Item Content)
      → get_elem? heap position ≡ some y
      → count_items (sift_up Content fuel heap start position x) + one y.request
        ≡ count_items heap + one x.request
  unfolding sift_up
  count-sift_up zero heap start position x y h = count-settled heap start position x y h
  count-sift_up (suc fuel) heap start position x y h =
      let child = 2 * position + 1 in
      elim (Option-cases (get_elem? heap child)) [
        | inl e ↦ rw (count_items, e) (count-settled heap start position x y h)
        | inr (left, e) ↦
            let next = child_of Content child left (get_elem? heap (suc child)) in
            let there = get_elem-child_of heap child left (get_elem? heap (suc child)) e refl in
            let rest =
              count-sift_up fuel (set_at Content heap position next.1) start next.0 x next.1
                (get_elem-set_at heap position next.0 y next.1 h there) in
            rw (count_items, e) (omega (arith, rest, count-set_at heap position next.1 y h))
      ]

  count-sift_all :
      (i : ℕ) (heap : List (Item Content))
      → count_items (sift_all Content i heap) ≡ count_items heap
  unfolding sift_all
  count-sift_all zero heap = refl
  count-sift_all (suc i) heap = elim (Option-cases (get_elem? heap i)) [
    | inl e ↦ rw (count_items, e) (count-sift_all i heap)
    | inr (x, e) ↦
        let sifted = sift_up Content (length heap) heap i i x in
        rw (count_items, e)
          (omega (arith, count-sift_all i sifted, count-sift_up (length heap) heap i i x x e))
  ]

  pub count-heapify :
      (heap : List (Item Content)) → count_items (heapify Content heap) ≡ count_items heap
  unfolding heapify
  count-heapify heap = count-sift_all (length heap / 2) heap

  pub count-replaced :
      (heap : List (Item Content)) (i : ℕ) (x y : Item Content)
      → get_elem? heap i ≡ some y
      → count_items (heapify Content (set_at Content heap i x)) + one y.request
        ≡ count_items heap + one x.request
  count-replaced heap i x y h =
      omega (arith, count-heapify (set_at Content heap i x), count-set_at heap i x y h)

  pub count-heappush :
      (heap : List (Item Content)) (x : Item Content)
      → count_items (heappush Content heap x) ≡ count_items heap + one x.request
  unfolding heappush
  count-heappush heap x = omega (
    arith,
    count-sift_down (suc (length heap)) (heap ++ x ∷ []) 0 (length heap) x x (last heap),
    count-append heap,
  )
    where
      last : (heap : List (Item Content)) → get_elem? (heap ++ x ∷ []) (length heap) ≡ some x
      last [] = refl
      last (y ∷ heap) = last heap

      count-append :
          (heap : List (Item Content))
          → count_items (heap ++ x ∷ []) ≡ count_items heap + one x.request
      count-append [] = omega arith
      count-append (y ∷ heap) = omega (arith, count-append heap)

  pub count-pop_last :
      (x : Item Content) (heap : List (Item Content))
      → count_items (pop_last Content x heap).0 + one (pop_last Content x heap).1.request
        ≡ count_items (x ∷ heap)
  count-pop_last x [] = omega arith
  count-pop_last x (y ∷ heap) = omega (arith, count-pop_last y heap)

  pub count-after_pop :
      (p : List (Item Content) × Item Content)
      → count_items (after_pop Content p).0 + one (after_pop Content p).1.request
        ≡ count_items p.0 + one p.1.request
  count-after_pop ([], last) = refl
  count-after_pop (first ∷ heap, last) =
      omega (arith, count-sift_up (suc (length heap)) (last ∷ heap) 0 0 last last refl)

module _ (Content : Type 0) where
  -- The worst item stands at its index.
  pub worst_from-get_elem :
      (heap : List (Item Content)) (i : ℕ) (best : ℕ × Item Content) (rest : List (Item Content))
      → get_elem? heap best.0 ≡ some best.1
      → ((k : ℕ) → get_elem? heap (i + k) ≡ get_elem? rest k)
      → get_elem? heap (worst_from Content i best rest).0 ≡ some (worst_from Content i best rest).1
  unfolding worst_from
  worst_from-get_elem heap i best [] h same = h
  worst_from-get_elem heap i best (x ∷ rest) h same =
      let zero_more : i ≡ i + 0 = omega arith in
      let there : get_elem? heap i ≡ some x = ap (get_elem? heap) zero_more ∙ same 0 in
      let later : (k : ℕ) → get_elem? heap (suc i + k) ≡ get_elem? rest k =
        λ k. ap (get_elem? heap) (omega arith) ∙ same (suc k) in
      elim (Bool-cases (is_worse Content x best.1)) [
        | inl worse ↦
            rw (worst_from, worse) (worst_from-get_elem heap (suc i) (i, x) rest there later)
        | inr fine ↦ rw (worst_from, fine) (worst_from-get_elem heap (suc i) best rest h later)
      ]
