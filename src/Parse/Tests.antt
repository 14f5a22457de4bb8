-- ===== src/Parse/Tests.antt =====
-- Runs of the two readers on a codec whose bytes are the signatures.
use preconfs_client.Prelude.{ℕ, ◌≡◌, refl, List, [], ◌∷◌, ok, err}
use preconfs_client.Parse.{Codec, no_signature, parse_signature, parse_static_parts}

abbrev pub signatures_only : Codec ℕ ℕ
signatures_only = record {
  VersionedTransaction = List ℕ;
  ReadError = ℕ;
  deserialize_exact = λ bytes. ok bytes;
  signatures = λ t. t;
  static_account_keys = λ t. 9 ∷ [];
}

first_of_two : parse_static_parts signatures_only (4 ∷ 5 ∷ []) ≡ ok (4, 9 ∷ [])
unfolding parse_static_parts
first_of_two = refl

unsigned : parse_signature signatures_only [] ≡ err no_signature
unfolding parse_signature
unsigned = refl
