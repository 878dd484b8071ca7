-- ===== src/Base/Map.antt =====
-- `BTreeMap` with text keys, as an association list. The order of the entries is not observed.
use mathlib.Core.Path.{subst₂}
use mathlib.Core.Option.{some-injective}
use robocpp.Base.{
  Bool-cases, inl, inr, ◌≡◌, refl, Option, none, some, List, [], ◌∷◌, arith, if◌then◌else◌,
}
use robocpp.Base.Text.{Text, eqb, eqb_iff, eqb→eq}

abbrev pub Map {ℓ} : Type ℓ → Type ℓ
Map V = List (Text × V)

module _ {ℓ} {V : Type ℓ} where
  unfoldable pub lookup : Text → Map V → Option V
  lookup k [] = none
  lookup k ((j, v) ∷ m) = if eqb j k then some v else lookup k m

  unfoldable pub insert : Text → V → Map V → Map V
  insert k v [] = (k, v) ∷ []
  insert k v ((j, w) ∷ m) = if eqb j k then (k, v) ∷ m else (j, w) ∷ insert k v m

  pub lookup-insert :
      (k j : Text) (v : V) (m : Map V)
      → lookup j (insert k v m) ≡ (if eqb k j then some v else lookup j m)
  unfolding lookup insert
  lookup-insert k j v [] = refl
  lookup-insert k j v ((i, w) ∷ m) =
      ground (arith, eqb_iff k j, eqb_iff i k, eqb_iff i j, lookup-insert k j v m)

  -- A predicate of every entry holds of what is found.
  abbrev pub All {κ} : (Text → V → Type κ) → Map V → Type κ
  All P [] = Unit
  All P ((j, v) ∷ m) = P j v × All P m

  pub lookup_sound {κ} :
      (P : Text → V → Type κ) (k : Text) (v : V) (m : Map V) → All P m → lookup k m ≡ some v → P k v
  unfolding lookup
  lookup_sound P k v [] a h = cc
  lookup_sound P k v ((j, w) ∷ m) a h = elim (Bool-cases (eqb j k)) [
    | inl e ↦ found (eqb→eq j k e) (rw e at h)
    | inr e ↦ lookup_sound P k v m a.1 (rw e at h)
  ]
    where
      found : j ≡ k → some w ≡ some v → P k v
      found p q = subst₂ P p (some-injective w v q) a.0

  pub insert-All {κ} :
      (P : Text → V → Type κ) (k : Text) (v : V) (m : Map V)
      → P k v
      → All P m
      → All P (insert k v m)
  unfolding insert
  insert-All P k v [] h a = (h, tt)
  insert-All P k v ((j, w) ∷ m) h a = elim (Bool-cases (eqb j k)) [
    | inl e ↦ rw e (h, a.1)
    | inr e ↦ rw e (a.0, insert-All P k v m h a.1)
  ]
