-- ===== src/RoundRobin/Examples.antt =====
-- The scheduler with two cameras: runs, and the theorems of this folder applied.
use computer_vision.Common.{
  ℕ, ◌≡◌, refl, inl, String, Option, some, List, [], ◌∷◌, arith, lookup, contains, insert,
}
use computer_vision.RoundRobin.{
  Scheduler, empty, register_camera, add_frame, poll, poll_loop, camera_count, queue_of, push,
}
use computer_vision.RoundRobin.Validity.{IsValid, Operation, apply, apply-IsValid}
use computer_vision.RoundRobin.Fairness.{Call, IsServed, run, run-IsServed}

-- Two frames of the first camera wait, and one of the second.
abbrev busy : Scheduler ℕ
busy = record {
  queues = ("door", 1 ∷ 2 ∷ []) ∷ ("yard", 3 ∷ []) ∷ [];
  order = "door" ∷ "yard" ∷ [];
  index = 0;
}

-- A frame of the first camera arrives between two polls.
abbrev calls : List (Call ℕ)
calls = Call.next ∷ Call.add "door" 4 ∷ Call.next ∷ []

add_frame_twice : add_frame (add_frame (add_frame empty "door" 1) "door" 2) "yard" 3 ≡ busy
unfolding add_frame register_camera queue_of push lookup contains insert
add_frame_twice = refl

camera_count-busy : camera_count busy ≡ 2
unfolding camera_count
camera_count-busy = refl

run-busy : run busy calls ≡ ("door", 1) ∷ ("yard", 3) ∷ []
unfolding run poll poll_loop add_frame register_camera queue_of push lookup contains insert
run-busy = refl

run-IsServed_example : IsServed "yard" (run busy calls)
unfolding queue_of lookup contains
run-IsServed_example =
    run-IsServed busy "yard" 1 calls
      (record {
        index = omega arith;
        place = omega arith;
        at = refl;
        first = 3;
        rest = [];
        waits = refl;
      })
      (refl, tt) (omega arith)

busy-IsValid : IsValid busy
busy-IsValid = record {
  index = inl refl;
  registered = refl;
  short = (omega arith, (omega arith, tt));
}

apply-IsValid_example :
    IsValid (apply busy (Operation.add "door" 5))
    × ((r : Option (String × ℕ)) × ((poll busy).1 ≡ some r))
apply-IsValid_example = apply-IsValid busy (Operation.add "door" 5) busy-IsValid
