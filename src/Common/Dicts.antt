-- ===== src/Common/Dicts.antt =====
-- Python's `dict`: an association list in insertion order, one entry to a key.
use mathlib.Core.Path.{◌≡◌, refl, sym, ◌∙◌, subst}
use mathlib.Core.Logic.{inl, inr}
use mathlib.Core.Bool.{Bool, true, false}
use mathlib.Core.Option.{Option, none, some}
use mathlib.Core.List.{List, [], ◌∷◌, map}
use native.Mathlib.Omega.{arith}
use computer_vision.Common.Tests.{if◌then◌else◌, Bool-cases, some_inj}
use computer_vision.Common.Keys.{Key, ◌==◌}

abbrev pub Dict {ℓ κ} : Type ℓ → Type κ → Type (ℓ ⊔ κ)
Dict K V = List (K × V)

module _ {ℓ κ} {K : Type ℓ} {V : Type κ} where
  abbrev pub keys : Dict K V → List K
  keys = map (λ e. e.0)

module _ {ℓ} {K : Type ℓ} ⦃key : Key K⦄ where
  pub same_self : (k : K) → (k == k) ≡ true
  same_self k = (key.same_iff k k).1 refl

module _ {ℓ κ} {K : Type ℓ} {V : Type κ} ⦃key : Key K⦄ where
  -- `d.get(k)`
  unfoldable pub lookup : K → Dict K V → Option V
  lookup k [] = none
  lookup k (entry ∷ d) = if entry.0 == k then some entry.1 else lookup k d

  -- `d[k] = v`: an old key keeps its place, a new one goes to the end.
  unfoldable pub insert : K → V → Dict K V → Dict K V
  insert k v [] = (k, v) ∷ []
  insert k v (entry ∷ d) = if entry.0 == k then (entry.0, v) ∷ d else entry ∷ insert k v d

  -- `d.pop(k, None)`
  unfoldable pub remove : K → Dict K V → Dict K V
  remove k [] = []
  remove k (entry ∷ d) = let rest = remove k d in if entry.0 == k then rest else entry ∷ rest

  -- `k in d`
  unfoldable pub contains : K → Dict K V → Bool
  unfolding lookup
  contains k d = elim (lookup k d) [ none ↦ false | some _ ↦ true ]

  lookup_here :
      (k : K) (entry : K × V) (d : Dict K V)
      → (entry.0 == k) ≡ true
      → lookup k (entry ∷ d) ≡ some entry.1
  unfolding lookup
  lookup_here k entry d e = rw e refl

  lookup_there :
      (k : K) (entry : K × V) (d : Dict K V)
      → (entry.0 == k) ≡ false
      → lookup k (entry ∷ d) ≡ lookup k d
  unfolding lookup
  lookup_there k entry d e = rw e refl

  -- Each entry's value is right for its key.
  abbrev pub AllEntries {μ} : (K → V → Type μ) → Dict K V → Type μ
  AllEntries P [] = Unit
  AllEntries P (entry ∷ d) = P entry.0 entry.1 × AllEntries P d

  pub AllEntries-lookup {μ} :
      (P : K → V → Type μ) (k : K) (v : V) (d : Dict K V)
      → AllEntries P d
      → lookup k d ≡ some v
      → P k v
  unfolding lookup
  AllEntries-lookup P k v [] h e = absurd (ground arith)
  AllEntries-lookup P k v (entry ∷ d) h e = elim (Bool-cases (entry.0 == k)) [
    | inl same ↦
        let value : some entry.1 ≡ some v = sym (lookup_here k entry d same) ∙ e in
        subst (λ w. P k w) (some_inj value)
          (subst (λ j. P j entry.1) ((key.same_iff entry.0 k).0 same) h.0)
    | inr other ↦ AllEntries-lookup P k v d h.1 (sym (lookup_there k entry d other) ∙ e)
  ]

  pub AllEntries-insert {μ} :
      (P : K → V → Type μ) (k : K) (v : V) (d : Dict K V)
      → AllEntries P d
      → P k v
      → AllEntries P (insert k v d)
  unfolding insert
  AllEntries-insert P k v [] h p = (p, tt)
  AllEntries-insert P k v (entry ∷ d) h p = elim (Bool-cases (entry.0 == k)) [
    | inl same ↦ rw same (subst (λ j. P j v) (sym ((key.same_iff entry.0 k).0 same)) p, h.1)
    | inr other ↦ rw other (h.0, AllEntries-insert P k v d h.1 p)
  ]

  pub lookup-insert :
      (k j : K) (v : V) (d : Dict K V)
      → lookup j (insert k v d) ≡ (if k == j then some v else lookup j d)
  unfolding lookup insert
  lookup-insert k j v [] = refl
  lookup-insert k j v (entry ∷ d) =
      let i = entry.0 in
      ground (arith, lookup-insert k j v d, key.same_iff i k, key.same_iff i j, key.same_iff k j)

  pub lookup-insert_self : (k : K) (v : V) (d : Dict K V) → lookup k (insert k v d) ≡ some v
  lookup-insert_self k v d = ground (arith, lookup-insert k k v d, key.same_iff k k)

  pub lookup-remove :
      (k j : K) (d : Dict K V) → lookup j (remove k d) ≡ (if k == j then none else lookup j d)
  unfolding lookup remove
  lookup-remove k j [] = ground arith
  lookup-remove k j (entry ∷ d) =
      let i = entry.0 in
      ground (arith, lookup-remove k j d, key.same_iff i k, key.same_iff i j, key.same_iff k j)
