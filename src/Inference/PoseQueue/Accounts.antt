-- ===== src/Inference/PoseQueue/Accounts.antt =====
-- How many requests of a queue wait, and how many are dropped.
use mathlib.Core.Bool.{◌&&◌}
use computer_vision.Common.{
  ℕ, zero, suc, ◌+◌, ◌-◌, ◌*◌, ◌/◌, ◌≤◌, ◌<◌, ◌≡◌, refl, ap, ◌∙◌, ◌⊎◌, inl, inr, Bool, true, false,
  Option, none, some, List, [], ◌∷◌, ◌++◌, length, length-append, get_elem?, ltb, arith, Bool-cases,
  Option-cases,
}
use computer_vision.Errors.{Result, ok, err}
use computer_vision.Inference.PoseQueue.{
  PoseRequest, Item, item_of, is_less, BoundedPoseQueue, set_at, sift_down, child_of, sift_up,
  heappush, pop_last, after_pop, heappop, sift_all, heapify, worst_from, put_full, put_on, put, got,
  get_request,
}

module _ (Content : Type 0) where
  length-set_at :
      (heap : List (Item Content)) (i : ℕ) (x : Item Content)
      → length (set_at Content heap i x) ≡ length heap
  length-set_at [] i x = refl
  length-set_at (y ∷ heap) zero x = refl
  length-set_at (y ∷ heap) (suc i) x = ap suc (length-set_at heap i x)

  length-sift_down :
      (fuel : ℕ) (heap : List (Item Content)) (start position : ℕ) (x : Item Content)
      → length (sift_down Content fuel heap start position x) ≡ length heap
  unfolding sift_down
  length-sift_down zero heap start position x = length-set_at heap position x
  length-sift_down (suc fuel) heap start position x =
      elim (Option-cases (get_elem? heap ((position - 1) / 2))) [
        | inl e ↦ rw (length, e) (length-set_at heap position x)
        | inr (parent, e) ↦
            rw (length, e)
              (elim (Bool-cases (ltb start position && is_less Content x parent)) [
                | inl up ↦
                    rw (length, up)
                      (length-sift_down fuel (set_at Content heap position parent) start
                          ((position - 1) / 2) x
                        ∙ length-set_at heap position parent)
                | inr here ↦ rw (length, here) (length-set_at heap position x)
              ])
      ]

  length-settled :
      (heap : List (Item Content)) (start position : ℕ) (x : Item Content)
      → length (sift_down Content (length heap) (set_at Content heap position x) start position x)
        ≡ length heap
  length-settled heap start position x =
      length-sift_down (length heap) (set_at Content heap position x) start position x
      ∙ length-set_at heap position x

  length-sift_up :
      (fuel : ℕ) (heap : List (Item Content)) (start position : ℕ) (x : Item Content)
      → length (sift_up Content fuel heap start position x) ≡ length heap
  unfolding sift_up
  length-sift_up zero heap start position x = length-settled heap start position x
  length-sift_up (suc fuel) heap start position x =
      elim (Option-cases (get_elem? heap (2 * position + 1))) [
        | inl e ↦ rw (length, e) (length-settled heap start position x)
        | inr (left, e) ↦
            let next =
              child_of Content (2 * position + 1) left (get_elem? heap (suc (2 * position + 1))) in
            rw (length, e)
              (length-sift_up fuel (set_at Content heap position next.1) start next.0 x
                ∙ length-set_at heap position next.1)
      ]

  length-sift_all :
      (i : ℕ) (heap : List (Item Content)) → length (sift_all Content i heap) ≡ length heap
  unfolding sift_all
  length-sift_all zero heap = refl
  length-sift_all (suc i) heap = elim (Option-cases (get_elem? heap i)) [
    | inl e ↦ rw (length, e) (length-sift_all i heap)
    | inr (x, e) ↦
        rw (length, e)
          (length-sift_all i (sift_up Content (length heap) heap i i x)
            ∙ length-sift_up (length heap) heap i i x)
  ]

  length-heappush :
      (heap : List (Item Content)) (x : Item Content)
      → length (heappush Content heap x) ≡ suc (length heap)
  unfolding heappush
  length-heappush heap x =
      length-sift_down (suc (length heap)) (heap ++ x ∷ []) 0 (length heap) x
      ∙ omega (arith, length-append heap (x ∷ []))

  length-pop_last :
      (x : Item Content) (heap : List (Item Content))
      → length (pop_last Content x heap).0 ≡ length heap
  length-pop_last x [] = refl
  length-pop_last x (y ∷ heap) = ap suc (length-pop_last y heap)

  length-after_pop :
      (p : List (Item Content) × Item Content) → length (after_pop Content p).0 ≡ length p.0
  length-after_pop ([], last) = refl
  length-after_pop (first ∷ heap, last) = length-sift_up (suc (length heap)) (last ∷ heap) 0 0 last

  -- Of so many puts and of so many requests handed out, the rest waits or was dropped.
  pub record IsAccounted (s : BoundedPoseQueue Content) (puts gets : ℕ) : Type 0 where
    pub positive : 0 < s.maxsize
    pub bounded : length s.heap ≤ s.maxsize
    pub balanced : puts ≡ length s.heap + gets + s.dropped

  put_full-IsAccounted :
      (s : BoundedPoseQueue Content) (puts gets : ℕ) (x : Item Content) (w : ℕ × Item Content)
      → IsAccounted s puts gets
      → IsAccounted (put_full Content s x w).0 (suc puts) gets
  unfolding heapify
  put_full-IsAccounted s puts gets x w h = elim (Bool-cases (ltb w.1.rank x.rank)) [
    | inl worse ↦ rw worse (record {
      positive = h.positive;
      bounded = h.bounded;
      balanced = omega (arith, h.balanced);
    })
    | inr fine ↦
        let same =
          length-sift_all (length (set_at Content s.heap w.0 x) / 2) (set_at Content s.heap w.0 x)
          ∙ length-set_at s.heap w.0 x in
        rw fine (record {
          positive = h.positive;
          bounded = omega (arith, same, h.bounded);
          balanced = omega (arith, same, h.balanced);
        })
  ]

  -- A put that answers, and what it leaves.
  pub record Puts (puts gets : ℕ) (o : BoundedPoseQueue Content × Result Bool) : Type 0 where
    pub accepted : Bool
    pub answer : o.1 ≡ ok accepted
    pub accounted : IsAccounted o.0 (suc puts) gets

  put_on-Puts :
      (s : BoundedPoseQueue Content) (puts gets : ℕ) (x : Item Content) (heap : List (Item Content))
      → IsAccounted s puts gets
      → 0 < length heap
      → Puts puts gets (put_on Content s x heap)
  put_on-Puts s puts gets x [] h e = absurd (omega (arith, e))
  put_on-Puts s puts gets x (first ∷ heap) h e =
      let w = worst_from Content 1 (0, first) heap in
      record {
        accepted = (put_full Content s x w).1;
        answer = refl;
        accounted = put_full-IsAccounted s puts gets x w h;
      }

  pub put-Puts :
      (s : BoundedPoseQueue Content) (puts gets : ℕ) (r : PoseRequest Content)
      → IsAccounted s puts gets
      → Puts puts gets (put Content s r)
  unfolding put
  put-Puts s puts gets r h = elim (Bool-cases (ltb (length s.heap) s.maxsize)) [
    | inl room ↦
        let longer = length-heappush s.heap (item_of Content r) in
        rw room (record {
          accepted = true;
          answer = refl;
          accounted = record {
            positive = h.positive;
            bounded = ground (arith, longer);
            balanced = omega (arith, longer, h.balanced);
          };
        })
    | inr full ↦
        rw full (put_on-Puts s puts gets (item_of Content r) s.heap h (ground (arith, h.positive)))
  ]

  abbrev one_if_some : Option (PoseRequest Content) → ℕ
  one_if_some none = 0
  one_if_some (some r) = 1

  pub get_request-IsAccounted :
      (s : BoundedPoseQueue Content) (puts gets : ℕ)
      → IsAccounted s puts gets
      → IsAccounted (get_request Content s).0 puts (gets + one_if_some (get_request Content s).1)
  unfolding get_request heappop
  get_request-IsAccounted s puts gets h = go s.heap refl
    where
      go :
          (heap : List (Item Content))
          → s.heap ≡ heap
          → IsAccounted
              (got Content s (heappop Content heap)).0
              puts
              (gets + one_if_some (got Content s (heappop Content heap)).1)
      go [] e = record {
        positive = h.positive;
        bounded = h.bounded;
        balanced = omega (arith, h.balanced);
      }
      go (x ∷ heap) e =
          let shorter : length (after_pop Content (pop_last Content x heap)).0 ≡ length heap =
            length-after_pop (pop_last Content x heap) ∙ length-pop_last x heap in
          let before : length s.heap ≡ suc (length heap) = ap length e in
          record {
            positive = h.positive;
            bounded = omega (arith, shorter, before, h.bounded);
            balanced = omega (arith, shorter, before, h.balanced);
          }

  -- Either the queue is empty and stays as it is, or one request leaves it.
  pub get_request-Taken :
      (s : BoundedPoseQueue Content)
      → ((s.heap ≡ []) × ((get_request Content s).1 ≡ none) × ((get_request Content s).0 ≡ s))
        ⊎ ((r : PoseRequest Content) × ((get_request Content s).1 ≡ some r)
            × (suc (length (get_request Content s).0.heap) ≡ length s.heap)
            × ((get_request Content s).0.maxsize ≡ s.maxsize))
  unfolding get_request heappop
  get_request-Taken s = go s.heap refl
    where
      go :
          (heap : List (Item Content))
          → s.heap ≡ heap
          → ((heap ≡ [])
              × ((got Content s (heappop Content heap)).1 ≡ none)
              × ((got Content s (heappop Content heap)).0 ≡ s))
            ⊎ ((r : PoseRequest Content) × ((got Content s (heappop Content heap)).1 ≡ some r)
                × (suc (length (got Content s (heappop Content heap)).0.heap) ≡ length heap)
                × ((got Content s (heappop Content heap)).0.maxsize ≡ s.maxsize))
      go [] e = inl (refl, refl, refl)
      go (x ∷ heap) e = inr (
        (after_pop Content (pop_last Content x heap)).1.request,
        refl,
        ap suc (length-after_pop (pop_last Content x heap) ∙ length-pop_last x heap),
        refl,
      )

  pub data QueueCall : Type 0 where
    put_call : PoseRequest Content → QueueCall
    get_call : QueueCall

  abbrev pub is_error : Result Bool → Bool
  is_error (ok b) = false
  is_error (err e) = true
