-- ===== src/HashMap.antt =====
-- `std::collections::HashMap` with identifier keys, as the crate uses it: an association list.
-- The order of the list has no meaning; what depends on it is stated of the keys as a set.
use actinium_actor.Prelude.{
  ℕ, Bool, true, false, Option, none, some, List, [], ◌∷◌, ◌==◌, if◌then◌else◌, suc, length,
}
pub mod Laws

module _ {ℓ} where
  abbrev pub HashMap : Type ℓ → Type ℓ
  HashMap V = List (ℕ × V)

module _ {ℓ} {V : Type ℓ} where
  unfoldable pub get : HashMap V → ℕ → Option V
  get [] k = none
  get ((j, v) ∷ m) k = if j == k then some v else get m k

  unfoldable pub remove : ℕ → HashMap V → HashMap V
  remove k [] = []
  remove k ((j, v) ∷ m) = let rest = remove k m in if j == k then rest else (j, v) ∷ rest

  -- An insertion replaces the value that the key had.
  unfoldable pub insert : ℕ → V → HashMap V → HashMap V
  unfolding remove
  insert k v m = (k, v) ∷ remove k m

  unfoldable pub keys : HashMap V → List ℕ
  keys [] = []
  keys ((j, v) ∷ m) = j ∷ keys m

  unfoldable pub contains_key : HashMap V → ℕ → Bool
  contains_key [] k = false
  contains_key ((j, v) ∷ m) k = if j == k then true else contains_key m k
