-- ===== src/Capture/LatestFrame/Validity.antt =====
-- The invariant of `LatestFrameBuffer`: its stored frame, its words and its sequence numbers.
use mathlib.Core.Bool.{not, ◌||◌}
use computer_vision.Common.{
  ℕ, suc, ◌+◌, ◌*◌, ◌≤◌, ◌<◌, ◌≡◌, String, Bool, Option, List, [], ◌∷◌, arith, inl, inr, Bool-cases,
  eqb, length, length-write_prefix, ltb,
}
use computer_vision.Errors.{ok}
use computer_vision.Capture.LatestFrame.{
  u64, Array, LatestFrameBuffer, Stamps, init, zeros, publish, store_frame, read_latest,
}

abbrev pub size : List ℕ → ℕ
size [] = 1
size (n ∷ shape) = n * size shape

-- NumPy's own invariant: a uint8 array has one byte for each element.
abbrev pub IsArray : Array → Type 0
IsArray a = length a.bytes ≡ size a.shape

pub record IsValid (b : LatestFrameBuffer) : Type 0 where
  pub cells_size : length b.cells ≡ b.max_width * b.max_height * 3
  pub width_fits : b.width ≤ b.max_width
  pub height_fits : b.height ≤ b.max_height
  pub consumed_le : b.consumed_sequence ≤ b.sequence
  pub in_word : b.sequence < u64

length-zeros : (n : ℕ) → length (zeros n) ≡ n
length-zeros ℕ.zero = omega arith
length-zeros (suc n) = omega (arith, length-zeros n)

pub init-IsValid :
    (camera_id : String) (max_width max_height : ℕ) (b : LatestFrameBuffer)
    → init camera_id max_width max_height ≡ ok b
    → IsValid b
unfolding init
init-IsValid camera_id w h b e = ground (arith, length-zeros (w * h * 3))

pub area_mono : (h w mh mw : ℕ) → h ≤ mh → w ≤ mw → h * (w * 3) ≤ mw * mh * 3
area_mono h w mh mw p q = grind arith

store_frame-IsValid :
    (b : LatestFrameBuffer) (bytes : List ℕ) (h w u m : ℕ)
    → IsValid b
    → length bytes ≡ h * (w * 3)
    → h ≤ b.max_height
    → w ≤ b.max_width
    → b.sequence + 1 < u64
    → IsValid (store_frame b bytes h w u m)
unfolding store_frame
store_frame-IsValid b bytes h w u m v size_eq hh hw room =
    let area = area_mono h w b.max_height b.max_width hh hw in
    record {
      cells_size = omega (arith, length-write_prefix bytes b.cells, v.cells_size);
      width_fits = hw;
      height_fits = hh;
      consumed_le = omega arith;
      in_word = omega arith;
    }

publish_shape-IsValid :
    (b : LatestFrameBuffer) (u : Bool) (shape bytes : List ℕ) (t : Stamps)
    → IsValid b
    → length bytes ≡ size shape
    → b.sequence + 1 < u64
    → IsValid (publish b (record { is_uint8 = u; shape = shape; bytes = bytes }) t).0
unfolding publish
publish_shape-IsValid b u (h ∷ w ∷ c ∷ []) bytes t v e room =
    elim (Bool-cases (not u || not (eqb c 3))) [
      | inl bad ↦ rw bad v
      | inr good ↦ elim (Bool-cases (ltb b.max_width w || ltb b.max_height h)) [
        | inl big ↦ rw (good, big) v
        | inr fits ↦
            rw (good, fits)
              (store_frame-IsValid b bytes h w _ _ v (ground arith) (ground arith) (ground arith)
                room)
      ]
    ]
publish_shape-IsValid b u shape bytes t v e room = v

-- Whether it accepts the frame or raises, `publish` keeps a valid buffer valid.
pub publish-IsValid :
    (b : LatestFrameBuffer) (frame : Array) (t : Stamps)
    → IsValid b
    → IsArray frame
    → b.sequence + 1 < u64
    → IsValid (publish b frame t).0
publish-IsValid b frame t v e room =
    publish_shape-IsValid b frame.is_uint8 frame.shape frame.bytes t v e room

pub read_latest-IsValid :
    (b : LatestFrameBuffer) (after : ℕ) (max_age : Option ℕ) (now : ℕ)
    → IsValid b
    → IsValid (read_latest b after max_age now).0
unfolding read_latest
read_latest-IsValid b after max_age now v = ground arith
