-- ===== src/SharedMemory/Torn.antt =====
-- `read_result` of shared/memory.py when P2 writes another result while P1 reads one: neither process
-- takes a lock, and P1 reads the number and the text of a result before the slot that it is about.
use mathlib.Core.Option
use computer_vision.Common.{
  ℕ, ◌+◌, ◌≤◌, ◌<◌, ◌^◌, ◌≡◌, refl, ap, ◌∙◌, Option, none, some, List, length, take, arith,
}
use computer_vision.SharedMemory.Words.{Integer, natural, get_u64, get_i32}
use computer_vision.SharedMemory.{Slot, number, Segments, result_size, write_result, read_result}
use computer_vision.SharedMemory.Protocol.Untouched.{write_result-words}
use computer_vision.SharedMemory.Results.{NoNull, length-write_result, read_result-write_result}

module _ {J : Type 0} (loads : List ℕ → Option J) where
  abbrev pub with_target : Segments → Option (J × Integer) → Option (J × Integer)
  with_target s none = none
  with_target s (some (data', target)) = some (data', get_i32 s.control 20)

  -- The segments are as in `before` until the text is parsed, and as in `after` from then on.
  abbrev pub read_between : Segments → Segments → ℕ → ℕ × Option (J × Integer)
  read_between before after last =
      let (sequence, payload) = read_result loads before last in
      (sequence, with_target after payload)

  -- P2 writes a result for the slot `i` and then, while P1 reads it, one for the slot `i'`: if the first
  -- text can be parsed, P1 takes it for one about the slot `i'`, and the second result is still to be read,
  -- about the slot `i'` again. P1 has read no result later than the ones before both, the texts have no
  -- null bytes and more than two bytes, the result area has its real size, and the sequence word has room.
  pub read_between-write_result :
      (s : Segments) (text text' : List ℕ) (i i' : Slot) (last : ℕ) (data' : J)
      → NoNull text
      → 2 < length text
      → NoNull text'
      → 2 < length text'
      → length s.result ≡ result_size
      → get_u64 s.control 24 + 2 < 2 ^ 64
      → last ≤ get_u64 s.control 24
      → loads (take 8191 text) ≡ some data'
      → (read_between
            (write_result s text i).0
            (write_result (write_result s text i).0 text' i').0
            last
          ≡ (get_u64 s.control 24 + 1, some (data', natural (number i'))))
        × (read_result loads
              (write_result (write_result s text i).0 text' i').0
              (get_u64 s.control 24 + 1)
            ≡ (
              get_u64 s.control 24 + 2,
              Option.map (λ j. (j, natural (number i'))) (loads (take 8191 text')),
            ))
  read_between-write_result s text text' i i' last data' h long h' long' size room seen e =
      let t = (write_result s text i).0 in
      let (_, next, _) = write_result-words s text i (omega arith) in
      let (target, _, _) = write_result-words t text' i' (omega arith) in
      let read = read_result-write_result loads s text i last h long size (omega arith) seen in
      let again =
        read_result-write_result loads t text' i' (get_u64 s.control 24 + 1) h' long'
          (length-write_result s text i size) (omega arith) (omega arith) in
      let two : get_u64 t.control 24 + 1 ≡ get_u64 s.control 24 + 2 = omega arith in
      (
        rw (read.0, e, target) refl,
        again.0
            ∙ ap (λ q. (q, Option.map (λ j. (j, natural (number i'))) (loads (take 8191 text'))))
                two,
      )
