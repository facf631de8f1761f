-- ===== src/Inference/PoseQueue.antt =====
-- `BoundedPoseQueue` of edge_runtime/inference/scheduler.py, on a heap in a list as Python's `heapq`
-- keeps it. A loop of `heapq` runs on fuel, the length of the heap, which the positions stay below. What
-- a request asks for is a parameter.
pub mod Accounts
pub mod Kept
mod Examples
use mathlib.Core.Bool.{◌&&◌, ◌||◌}
use computer_vision.Common.{
  ℕ, zero, suc, ◌+◌, ◌-◌, ◌*◌, ◌/◌, Bool, true, false, not, Option, none, some, List, [], ◌∷◌, ◌++◌,
  length, get_elem?, ltb, eqb, if◌then◌else◌,
}
use computer_vision.Errors.{Error, Result, ok, err}

pub data PosePriority : Type 0 where
  low medium high : PosePriority

abbrev pub priority_rank : PosePriority → ℕ
priority_rank high = 0
priority_rank medium = 1
priority_rank low = 2

module _ (Content : Type 0) where
  pub record PoseRequest : Type 0 where
    pub priority : PosePriority
    pub requested_at_monotonic_ns : ℕ
    pub content : Content

  -- `_PrioritizedPoseRequest`, which compares by rank and then time.
  pub record Item : Type 0 where
    pub rank : ℕ
    pub requested_at : ℕ
    pub request : PoseRequest

  abbrev pub item_of : PoseRequest → Item
  item_of r = record {
    rank = priority_rank r.priority;
    requested_at = r.requested_at_monotonic_ns;
    request = r;
  }

  abbrev pub is_less : Item → Item → Bool
  is_less a b = ltb a.rank b.rank || eqb a.rank b.rank && ltb a.requested_at b.requested_at

  pub record BoundedPoseQueue : Type 0 where
    pub maxsize : ℕ
    pub heap : List Item
    pub dropped : ℕ

  unfoldable pub make_queue : ℕ → Result BoundedPoseQueue
  make_queue maxsize =
      if ltb maxsize 1
      then err Error.value_error
      else ok (record { maxsize = maxsize; heap = []; dropped = 0 })

  -- `heap[i] = x`
  abbrev pub set_at : List Item → ℕ → Item → List Item
  set_at [] i x = []
  set_at (y ∷ heap) zero x = x ∷ heap
  set_at (y ∷ heap) (suc i) x = y ∷ set_at heap i x

  -- `_siftdown`: the item `x` moves from `position` towards `start`.
  unfoldable pub sift_down : ℕ → List Item → ℕ → ℕ → Item → List Item
  sift_down zero heap start position x = set_at heap position x
  sift_down (suc fuel) heap start position x =
      let parent_position = (position - 1) / 2 in
      elim (get_elem? heap parent_position) [
        | none ↦ set_at heap position x
        | some parent ↦
            let higher = sift_down fuel (set_at heap position parent) start parent_position x in
            if ltb start position && is_less x parent then higher else set_at heap position x
      ]

  -- The smaller child, or the right one if neither is smaller.
  abbrev pub child_of : ℕ → Item → Option Item → ℕ × Item
  child_of position left none = (position, left)
  child_of position left (some right) =
      if is_less left right then (position, left) else (suc position, right)

  -- `_siftup`: smaller children move up from `position` to a leaf, and the item `x` back from there.
  unfoldable pub sift_up : ℕ → List Item → ℕ → ℕ → Item → List Item
  sift_up zero heap start position x =
      sift_down (length heap) (set_at heap position x) start position x
  sift_up (suc fuel) heap start position x =
      let child = 2 * position + 1 in
      elim (get_elem? heap child) [
        | none ↦ sift_down (length heap) (set_at heap position x) start position x
        | some left ↦
            let (next, smaller) = child_of child left (get_elem? heap (suc child)) in
            sift_up fuel (set_at heap position smaller) start next x
      ]

  unfoldable pub heappush : List Item → Item → List Item
  heappush heap x = sift_down (suc (length heap)) (heap ++ x ∷ []) 0 (length heap) x

  -- The list without its last item, and that item.
  abbrev pub pop_last : Item → List Item → List Item × Item
  pop_last x [] = ([], x)
  pop_last x (y ∷ heap) = let (rest, last) = pop_last y heap in (x ∷ rest, last)

  abbrev pub after_pop : List Item × Item → List Item × Item
  after_pop ([], last) = ([], last)
  after_pop (first ∷ heap, last) = (sift_up (suc (length heap)) (last ∷ heap) 0 0 last, first)

  unfoldable pub heappop : List Item → Option (List Item × Item)
  heappop [] = none
  heappop (x ∷ heap) = some (after_pop (pop_last x heap))

  -- `for i in reversed(range(n)): _siftup(x, i)`
  unfoldable pub sift_all : ℕ → List Item → List Item
  sift_all zero heap = heap
  sift_all (suc i) heap = elim (get_elem? heap i) [
    | none ↦ sift_all i heap
    | some x ↦ sift_all i (sift_up (length heap) heap i i x)
  ]

  unfoldable pub heapify : List Item → List Item
  heapify heap = sift_all (length heap / 2) heap

  -- The key of `a` is greater than that of `b`: a lower priority, or an earlier time.
  abbrev pub is_worse : Item → Item → Bool
  is_worse a b = ltb b.rank a.rank || eqb a.rank b.rank && ltb a.requested_at b.requested_at

  -- `max` over the indices, from the index `i` on, with the best so far.
  unfoldable pub worst_from : ℕ → ℕ × Item → List Item → ℕ × Item
  worst_from i best [] = best
  worst_from i best (x ∷ heap) =
      worst_from (suc i) (if is_worse x best.1 then (i, x) else best) heap

  abbrev pub put_full : BoundedPoseQueue → Item → ℕ × Item → BoundedPoseQueue × Bool
  put_full s x (worst_index, worst) =
      if ltb worst.rank x.rank then (record s { dropped = s.dropped + 1 }, false) else (
        record s { heap = heapify (set_at s.heap worst_index x); dropped = s.dropped + 1 },
        true,
      )

  -- `max` of an empty heap is a `ValueError`, which a positive `maxsize` rules out.
  abbrev pub put_on : BoundedPoseQueue → Item → List Item → BoundedPoseQueue × Result Bool
  put_on s x [] = (s, err Error.value_error)
  put_on s x (first ∷ heap) =
      let (s', accepted) = put_full s x (worst_from 1 (0, first) heap) in (s', ok accepted)

  unfoldable pub put : BoundedPoseQueue → PoseRequest → BoundedPoseQueue × Result Bool
  put s r =
      if ltb (length s.heap) s.maxsize
      then (record s { heap = heappush s.heap (item_of r) }, ok true)
      else put_on s (item_of r) s.heap

  abbrev pub got :
      BoundedPoseQueue → Option (List Item × Item) → BoundedPoseQueue × Option PoseRequest
  got s none = (s, none)
  got s (some (heap, x)) = (record s { heap = heap }, some x.request)

  unfoldable pub get_request : BoundedPoseQueue → BoundedPoseQueue × Option PoseRequest
  get_request s = got s (heappop s.heap)
