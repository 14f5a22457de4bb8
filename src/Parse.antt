-- ===== src/Parse.antt =====
-- preconfs-client/src/parse.rs: the first signature and the static account keys of a transaction. The
-- codec (wincode) and the transaction type of the Solana crates are the parameter `Codec`.
pub mod Tests
pub mod Laws
use preconfs_client.Prelude.{
  ℕ, Option, none, some, List, [], ◌∷◌, Result, ok, err, ◌>>=◌, map_err, ok_or,
}

-- wincode::deserialize_exact, and what is read of a VersionedTransaction
pub record Codec (Signature Pubkey : Type 0) : Type 1 where
  pub VersionedTransaction : Type 0
  pub ReadError : Type 0
  pub deserialize_exact : List ℕ → Result ReadError VersionedTransaction
  pub signatures : VersionedTransaction → List Signature
  pub static_account_keys : VersionedTransaction → List Pubkey

pub data ParseError (ReadError : Type 0) : Type 0 where
  malformed : ReadError → ParseError ReadError
  no_signature : ParseError ReadError

-- `[T]::first`
abbrev pub first {ℓ} : {A : Type ℓ} → List A → Option A
first [] = none
first (x ∷ l) = some x

module _ {Signature Pubkey : Type 0} (codec : Codec Signature Pubkey) where
  open codec use {VersionedTransaction, ReadError}

  unfoldable pub parse : List ℕ → Result (ParseError ReadError) VersionedTransaction
  parse bytes = map_err malformed (codec.deserialize_exact bytes)

  unfoldable pub first_signature : VersionedTransaction → Result (ParseError ReadError) Signature
  first_signature transaction = ok_or (first (codec.signatures transaction)) no_signature

  unfoldable pub parse_signature : List ℕ → Result (ParseError ReadError) Signature
  unfolding parse first_signature
  parse_signature bytes = parse bytes >>= first_signature

  unfoldable pub parse_static_parts :
      List ℕ → Result (ParseError ReadError) (Signature × List Pubkey)
  unfolding parse first_signature
  parse_static_parts bytes = do
    transaction ← parse bytes
    signature ← first_signature transaction
    ok (signature, codec.static_account_keys transaction)
