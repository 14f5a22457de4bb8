-- ===== src/Filters/Suite.antt =====
-- preconfs-client/src/filter.rs: the unit tests of the module, each as the product of what it asserts.
-- Public keys, signatures and their texts are third-party code: whatever `new_from_array`,
-- `Signature::from` and the two `to_string` do, the tests pass.
mod Built
mod Rules
mod Limits
mod Selection
use preconfs_client.Prelude.{
  ℕ, ◌+◌, ◌≡◌, refl, Option, none, some, List, [], ◌∷◌, ◌++◌, pos, map, Text, codes, replicate,
  Result, ok, err, Unwrapped, UnwrappedErr, Found, is_ok, range, to_le_bytes, All, true,
}
use preconfs_client.HashMap.{get}
use preconfs_client.Limits.{FilterError, empty}
use preconfs_client.Proto
use preconfs_client.Proto.{
  SubscribeRequest, HarmonicRegion, TransactionFilter, harmonic_region, success,
}
use preconfs_client.Feed.{Region}
use preconfs_client.Region.{into_proto}
use preconfs_client.InstructionFilter.{new as to_program, memcmp, data_size}
use preconfs_client.Filter.{
  Filter, new, accounts, require, exclude_accounts, signers, exclude_signers, instructions,
  execution_results,
}
use preconfs_client.Filters.{Filters, single, with, new as no_filter, into_request}

abbrev pub usize_max : ℕ
usize_max = 18446744073709551615

abbrev pub ams : Region
ams = Region.harmonic HarmonicRegion.ams

abbrev pub default : Text
default = codes "default"

-- The third-party types of the tests, with what the tests call of them.
pub record Solana : Type 1 where
  pub Pubkey : Type 0
  pub Signature : Type 0
  pub new_from_array : List ℕ → Pubkey
  pub signature_from : List ℕ → Signature
  pub pubkey_text : Pubkey → Text
  pub signature_text : Signature → Text

module _ (solana : Solana) where
  open solana use {Pubkey, Signature, new_from_array, pubkey_text, signature_text}

  abbrev pub key : ℕ → Pubkey
  key byte = new_from_array (replicate 32 byte)

  abbrev pub key_text : ℕ → Text
  key_text byte = pubkey_text (key byte)

  abbrev pub in_region : Filters Pubkey Signature → Region → Result FilterError SubscribeRequest
  in_region = into_request usize_max pubkey_text signature_text

  abbrev pub one : Filter Pubkey Signature → Result FilterError SubscribeRequest
  one filter = in_region (single filter) ams

  abbrev pub keys : ℕ → List Pubkey
  keys count = map (λ index. new_from_array (to_le_bytes 8 index ++ replicate 24 0)) (range 0 count)
