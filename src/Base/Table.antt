-- ===== src/Base/Table.antt =====
-- `BTreeMap` with keys of any type that has a test of equality, as an association list.
use robocpp.Base.{
  ◌≡◌, refl, ◌↔◌, Bool, true, Option, none, some, List, [], ◌∷◌, arith, if◌then◌else◌,
}

module _ {K V : Type 0} (eqb : K → K → Bool) where
  unfoldable pub find : K → List (K × V) → Option V
  find k [] = none
  find k ((j, v) ∷ m) = if eqb j k then some v else find k m

  unfoldable pub put : K → V → List (K × V) → List (K × V)
  put k v [] = (k, v) ∷ []
  put k v ((j, w) ∷ m) = if eqb j k then (k, v) ∷ m else (j, w) ∷ put k v m

  pub find-put :
      ((a b : K) → (eqb a b ≡ true) ↔ (a ≡ b))
      → (k j : K) (v : V) (m : List (K × V))
      → find j (put k v m) ≡ (if eqb k j then some v else find j m)
  unfolding find put
  find-put same k j v [] = refl
  find-put same k j v ((i, w) ∷ m) =
      ground (arith, same k j, same i k, same i j, find-put same k j v m)
