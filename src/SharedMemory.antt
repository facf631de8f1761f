-- ===== src/SharedMemory.antt =====
-- shared/memory.py: two frame slots, a result area and a control segment, shared by the capture
-- process (P1) and the inference process (P2). A method returns the segments as it leaves them
-- beside its result: what it wrote before it raised stays written. A `memoryview` assignment of
-- another length than the slice raises `ValueError`.
pub mod Words
pub mod Results
pub mod Torn
pub mod Attach
pub mod Protocol
mod Examples
use mathlib.Core.Bool.{◌||◌}
use computer_vision.Common.{
  ℕ, suc, ◌+◌, ◌-◌, ◌*◌, Bool, true, false, Option, none, some, List, [], ◌∷◌, ◌++◌, length, take,
  min, write_prefix, eqb, ltb, leb, not, if◌then◌else◌,
}
use computer_vision.Errors.{Error, Result, ok, err}
use Words.{Integer, natural, minus_one_minus, Control, set_byte, get_u64, set_u64, get_i32, set_i32}

pub data Slot : Type 0 where
  slot_a slot_b : Slot

abbrev pub number : Slot → ℕ
number slot_a = 0
number slot_b = 1

abbrev pub height_offset : Slot → ℕ
height_offset slot_a = 4
height_offset slot_b = 12

abbrev pub width_offset : Slot → ℕ
width_offset slot_a = 8
width_offset slot_b = 16

-- `BufState`, an `IntEnum`.
abbrev pub free : ℕ
free = 0

abbrev pub filled : ℕ
filled = 1

abbrev pub locked : ℕ
locked = 2

abbrev pub result_size : ℕ
result_size = 8192

-- A frame: `shape[:2]` and `tobytes()`.
pub record Frame : Type 0 where
  pub height : ℕ
  pub width : ℕ
  pub pixels : List ℕ

pub record Segments : Type 0 where
  pub max_width : ℕ
  pub max_height : ℕ
  pub control : Control
  pub frame_a : List ℕ
  pub frame_b : List ℕ
  pub result : List ℕ

abbrev pub state : Segments → Slot → ℕ
state s i = s.control (number i)

abbrev pub pixels_of : Segments → Slot → List ℕ
pixels_of s slot_a = s.frame_a
pixels_of s slot_b = s.frame_b

unfoldable pub set_state : Segments → Slot → ℕ → Segments
unfolding set_byte
set_state s i v = record s { control = set_byte s.control (number i) v }

abbrev pub set_pixels : Segments → Slot → List ℕ → Segments
set_pixels s slot_a bytes = record s { frame_a = write_prefix bytes s.frame_a }
set_pixels s slot_b bytes = record s { frame_b = write_prefix bytes s.frame_b }

-- A write into the control segment that may raise.
abbrev pub with_control :
    Segments
    → Result Control
    → (Segments → Segments × Result (Unit {0}))
    → Segments × Result (Unit {0})
with_control s (ok c) rest = rest (record s { control = c })
with_control s (err e) rest = (s, err e)

-- `__init__`, on segments that exist already or are fresh (zero): the set-up is skipped only if the
-- frame counter at offset 32 is not 0.
unfoldable pub attach : Segments → Segments × Result (Unit {0})
unfolding set_state
attach s =
    if eqb (get_u64 s.control 32) 0
    then (let cleared = set_state (set_state s slot_a free) slot_b free in
        with_control cleared (set_i32 cleared.control 20 (minus_one_minus 0)) λ s1.
          with_control s1 (set_u64 s1.control 24 0)
            λ s2. with_control s2 (set_u64 s2.control 32 0) λ s3. (s3, ok tt))
    else (s, ok tt)

unfoldable pub pick_free : Segments → Option Slot
pick_free s =
    if eqb (state s slot_a) free
    then some slot_a
    else if eqb (state s slot_b) free
    then some slot_b
    else none

unfoldable pub find_filled : Segments → Option Slot
find_filled s =
    if eqb (state s slot_a) filled
    then some slot_a
    else if eqb (state s slot_b) filled
    then some slot_b
    else none

unfoldable pub acquire : Segments → Slot → Segments
unfolding set_state
acquire s i = set_state s i locked

unfoldable pub release : Segments → Slot → Segments
unfolding set_state
release s i = set_state s i free

-- The dimensions, the pixels, and last the state.
unfoldable pub write_frame : Segments → Slot → Frame → Segments × Result (Unit {0})
unfolding set_state
write_frame s i frame =
    if ltb s.max_height frame.height || ltb s.max_width frame.width
    then (s, err Error.value_error)
    else with_control s (set_i32 s.control (height_offset i) (natural frame.height)) λ s1.
      with_control s1 (set_i32 s1.control (width_offset i) (natural frame.width)) λ s2.
        if eqb (length frame.pixels)
          (min (frame.height * frame.width * 3) (length (pixels_of s2 i)))
        then (set_state (set_pixels s2 i frame.pixels) i filled, ok tt)
        else (s2, err Error.value_error)

-- `reshape(h, w, 3)` raises if the slot holds fewer bytes than the dimensions say.
unfoldable pub read_shape : Integer → Integer → List ℕ → Result (Option Frame)
read_shape (natural (suc h)) (natural (suc w)) cells =
    let bytes = take (suc h * suc w * 3) cells in
    if eqb (length bytes) (suc h * suc w * 3)
    then ok (some (record { height = suc h; width = suc w; pixels = bytes }))
    else err Error.value_error
read_shape h w cells = ok none

unfoldable pub read_frame : Segments → Slot → Result (Option Frame)
read_frame s i =
    read_shape (get_i32 s.control (height_offset i)) (get_i32 s.control (width_offset i))
      (pixels_of s i)

-- The text, cut to fit, and a null byte; then the slot, and last the sequence number.
unfoldable pub write_result : Segments → List ℕ → Slot → Segments × Result (Unit {0})
write_result s encoded i =
    let n = min (length encoded) (result_size - 1) in
    let s1 = record s { result = write_prefix (take n encoded ++ 0 ∷ []) s.result } in
    with_control s1 (set_i32 s1.control 20 (natural (number i)))
      λ s2. with_control s2 (set_u64 s2.control 24 (get_u64 s2.control 24 + 1)) λ s3. (s3, ok tt)

-- `has_new_result` for a caller that has read the result `last`, and `result_for_buffer`.
abbrev pub has_new_result : Segments → ℕ → Bool
has_new_result s last = not (eqb (get_u64 s.control 24) last)

abbrev pub result_for_buffer : Segments → Integer
result_for_buffer s = get_i32 s.control 20

-- `b.find(b'\\x00')`
unfoldable pub find_null : List ℕ → Option ℕ
find_null [] = none
find_null (b ∷ bytes) =
    let rest = find_null bytes in
    if eqb b 0 then some 0 else elim rest [ none ↦ none | some i ↦ some (suc i) ]

-- `loads` stands for decoding and `json.loads`, with `none` where either raises.
module _ {J : Type 0} (loads : List ℕ → Option J) where
  unfoldable pub parse_result : List ℕ → Option J
  unfolding find_null
  parse_result bytes = elim (find_null bytes) [
    | none ↦ none
    | some i ↦ if leb i 2 then none else loads (take i bytes)
  ]

  -- The caller's `_last_result_seq` afterwards, and what is returned with `_buffer_index`.
  unfoldable pub read_result : Segments → ℕ → ℕ × Option (J × Integer)
  read_result s last =
      let sequence = get_u64 s.control 24 in
      if eqb sequence last then (last, none) else (
        sequence,
        elim (parse_result (take result_size s.result)) [
          | none ↦ none
          | some data' ↦ some (data', get_i32 s.control 20)
        ],
      )
