-- ===== src/HashMap.antt =====
-- std::collections::HashMap with string keys, as far as the crates use it: `insert` and `get`. The
-- order of the entries is not part of the type's promise, and nothing here depends on it.
use preconfs_client.Prelude.{
  suc, ◌≤◌, ◌≡◌, refl, Option, none, some, List, [], ◌∷◌, arith, Text, text_eq, text_eq_iff, length,
  if◌then◌else◌,
}

abbrev pub HashMap {ℓ} : Type ℓ → Type ℓ
HashMap V = List (Text × V)

module _ {ℓ} {V : Type ℓ} where
  abbrev pub empty : HashMap V
  empty = []

  unfoldable pub get : Text → HashMap V → Option V
  get k [] = none
  get k ((j, v) ∷ m) = if text_eq j k then some v else get k m

  -- The value of a key that is there is replaced.
  unfoldable pub insert : Text → V → HashMap V → HashMap V
  insert k v [] = (k, v) ∷ []
  insert k v ((j, w) ∷ m) = if text_eq j k then (j, v) ∷ m else (j, w) ∷ insert k v m

  pub get-insert :
      (k j : Text) (v : V) (m : HashMap V)
      → get j (insert k v m) ≡ (if text_eq k j then some v else get j m)
  unfolding get insert
  get-insert k j v [] = refl
  get-insert k j v ((i, w) ∷ m) =
      ground (arith, text_eq_iff k j, text_eq_iff i k, text_eq_iff i j, get-insert k j v m)

  pub length-insert : (k : Text) (v : V) (m : HashMap V) → length (insert k v m) ≤ suc (length m)
  unfolding insert
  length-insert k v [] = omega arith
  length-insert k v ((j, w) ∷ m) = ground (arith, length-insert k v m)
