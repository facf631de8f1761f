-- ===== src/Tracking/Kalman.antt =====
-- `KalmanFilterXYAH` of edge_runtime/tracking/byte_tracker.py. NumPy's arrays are a parameter: their
-- products, sums and `linalg.solve`, which does not raise on the matrices that occur here.
use computer_vision.Common.{ℕ, List, [], ◌∷◌, Numbers, whole, max_of}

pub record Arrays (n : Numbers) : Type 1 where
  pub Vector : Type 0
  pub Matrix : Type 0
  pub vector : List n.Number → Vector
  pub item : Vector → ℕ → n.Number
  pub join : Vector → Vector → Vector
  pub vector_add : Vector → Vector → Vector
  pub vector_sub : Vector → Vector → Vector
  pub eye : ℕ → ℕ → Matrix
  pub set_item : Matrix → ℕ → ℕ → n.Number → Matrix
  pub apply : Matrix → Vector → Vector
  pub product : Matrix → Matrix → Matrix
  pub transpose : Matrix → Matrix
  pub matrix_add : Matrix → Matrix → Matrix
  pub matrix_sub : Matrix → Matrix → Matrix
  pub diagonal : Vector → Matrix
  pub square : Vector → Vector
  pub solve : Matrix → Matrix → Matrix

module _ (n : Numbers) (a : Arrays n) where
  abbrev pub motion : a.Matrix
  motion =
      a.set_item
        (a.set_item (a.set_item (a.set_item (a.eye 8 8) 0 4 (whole n 1)) 1 5 (whole n 1)) 2 6
          (whole n 1))
        3 7 (whole n 1)

  abbrev pub update_matrix : a.Matrix
  update_matrix = a.eye 4 8

  -- `max(float(values[3]), 1.0)`
  abbrev height_of : a.Vector → n.Number
  height_of v = max_of n (a.item v 3) (whole n 1)

  unfoldable pub initiate : a.Vector → a.Vector × a.Matrix
  initiate measurement =
      let h = height_of measurement in
      let zero = whole n 0 in
      let position : n.Number = n.div h (whole n 10) in
      let velocity : n.Number = n.div h (whole n 16) in
      (
        a.join measurement (a.vector (zero ∷ zero ∷ zero ∷ zero ∷ [])),
        a.diagonal (
            a.square (
              a.vector (
                position
                ∷ position
                ∷ n.decimal 1 2
                ∷ position
                ∷ velocity
                ∷ velocity
                ∷ n.decimal 1 5
                ∷ velocity
                ∷ []))),
      )

  unfoldable pub predict : a.Vector → a.Matrix → a.Vector × a.Matrix
  predict mean covariance =
      let h = height_of mean in
      let position : n.Number = n.div h (whole n 20) in
      let velocity : n.Number = n.div h (whole n 160) in
      let motion_covariance = a.diagonal (
        a.square (
          a.vector (
            position
            ∷ position
            ∷ n.decimal 1 2
            ∷ position
            ∷ velocity
            ∷ velocity
            ∷ n.decimal 1 5
            ∷ velocity
            ∷ []))) in
      (
        a.apply motion mean,
        a.matrix_add (a.product (a.product motion covariance) (a.transpose motion))
            motion_covariance,
      )

  unfoldable pub correct : a.Vector → a.Matrix → a.Vector → a.Vector × a.Matrix
  correct mean covariance measurement =
      let h = height_of mean in
      let position : n.Number = n.div h (whole n 20) in
      let innovation_covariance =
        a.diagonal (a.square (a.vector (position ∷ position ∷ n.decimal 1 1 ∷ position ∷ []))) in
      let projected_mean = a.apply update_matrix mean in
      let projected =
        a.matrix_add (a.product (a.product update_matrix covariance) (a.transpose update_matrix))
          innovation_covariance in
      let gain = a.transpose (a.solve projected (a.product update_matrix covariance)) in
      let innovation = a.vector_sub measurement projected_mean in
      (
        a.vector_add mean (a.apply gain innovation),
        a.matrix_sub covariance (a.product (a.product gain projected) (a.transpose gain)),
      )
