-- ===== src/HashMap/Laws.antt =====
-- What a map holds after each operation, in terms of `get`.
use actinium_actor.Prelude.{
  ℕ, ◌≡◌, refl, true, false, none, some, [], ◌∷◌, ◌==◌, if◌then◌else◌, arith, contains, Distinct,
  without, without-Distinct, contains-without,
}
use actinium_actor.HashMap.{HashMap, get, remove, insert, keys, contains_key}

module _ {ℓ} {V : Type ℓ} where
  pub get-remove :
      (k : ℕ) (m : HashMap V) (j : ℕ) → get (remove k m) j ≡ (if k == j then none else get m j)
  unfolding get remove
  get-remove k [] j = ground arith
  get-remove k ((i, v) ∷ m) j = ground (arith, get-remove k m j)

  pub get-insert :
      (k : ℕ) (v : V) (m : HashMap V) (j : ℕ)
      → get (insert k v m) j ≡ (if k == j then some v else get m j)
  unfolding get insert
  get-insert k v m j = ground (arith, get-remove k m j)

  pub keys-remove : (k : ℕ) (m : HashMap V) → keys (remove k m) ≡ without k (keys m)
  unfolding keys remove
  keys-remove k [] = refl
  keys-remove k ((i, v) ∷ m) = ground (arith, keys-remove k m)

  pub contains-keys : (m : HashMap V) (k : ℕ) → contains (keys m) k ≡ contains_key m k
  unfolding keys contains_key
  contains-keys [] k = refl
  contains-keys ((i, v) ∷ m) k = ground (arith, contains-keys m k)

  pub contains_key-get :
      (m : HashMap V) (k : ℕ) → contains_key m k ≡ (elim (get m k) [ none ↦ false | some v ↦ true ])
  unfolding get contains_key
  contains_key-get [] k = refl
  contains_key-get ((i, v) ∷ m) k = ground (arith, contains_key-get m k)

  pub remove-Distinct : (k : ℕ) (m : HashMap V) → Distinct (keys m) → Distinct (keys (remove k m))
  remove-Distinct k m d = rw (keys-remove k m) (without-Distinct k (keys m) d)

  pub insert-Distinct :
      (k : ℕ) (v : V) (m : HashMap V) → Distinct (keys m) → Distinct (keys (insert k v m))
  unfolding insert keys
  insert-Distinct k v m d =
      ground (arith, keys-remove k m, contains-without k (keys m) k, remove-Distinct k m d)
