-- ===== src/Inference/Tensors.antt =====
-- NumPy's arrays as the pipelines read them: a row has a number of columns and an element at each. What
-- has more than three dimensions is never read.
use computer_vision.Common.{ℕ, ◌+◌, ◌-◌, min, List, map, length, take, drop, Numbers}

module _ (n : Numbers) where
  abbrev pub Row : Type 0
  Row = ℕ → n.Number

  pub data Tensor : Type 0 where
    vector : ℕ → Row → Tensor
    matrix : ℕ → List Row → Tensor
    cube : ℕ → List (List Row) → Tensor
    other : ℕ → Tensor

  -- `output.shape[0]`
  abbrev pub first_size : Tensor → ℕ
  first_size (vector k row) = k
  first_size (matrix columns rows) = length rows
  first_size (cube columns planes) = length planes
  first_size (other k) = k

  -- `output[i : i + 1]`
  abbrev pub slice : ℕ → Tensor → Tensor
  slice i (vector k row) = vector (min 1 (k - i)) (λ j. row (i + j))
  slice i (matrix columns rows) = matrix columns (take 1 (drop i rows))
  slice i (cube columns planes) = cube columns (take 1 (drop i planes))
  slice i (other k) = other (min 1 (k - i))

  abbrev pub slices : ℕ → List Tensor → List Tensor
  slices i outputs = map (slice i) outputs
