-- ===== src/Filters.antt =====
-- preconfs-client/src/filter.rs: `Filters`, the named filters of one stream.
mod Tests
mod Suite
pub mod Request
pub mod Collect
pub mod Verdict
pub mod Meaning
pub mod Order
pub mod Abstract
use preconfs_client.Prelude.{
  ℕ, Bool, some, List, [], ◌∷◌, ◌++◌, map, sum, Text, codes, ltb, length, is_empty as is_empty_list,
  Result, ok, err, ◌>>=◌, ◌>>◌, if◌then◌else◌,
}
use preconfs_client.HashMap
use preconfs_client.HashMap.{HashMap}
use preconfs_client.Limits.{
  FilterError, no_filters, too_many_filters, too_many_instruction_filters, max_filters,
  max_instruction_filters,
}
use preconfs_client.Filter.{Filter, validate as filter_validate, into_proto as filter_into_proto}
use preconfs_client.Feed.{Region}
use preconfs_client.Region.{into_proto}
use preconfs_client.Proto.{TransactionFilter, SubscribeRequest}

pub record Filters (Pubkey Signature : Type 0) : Type 0 where
  pub filters : List (Text × Filter Pubkey Signature)

module _ {Pubkey Signature : Type 0} where
  unfoldable pub new : Filters Pubkey Signature
  new = record { filters = [] }

  unfoldable pub with :
      Filters Pubkey Signature → Text → Filter Pubkey Signature → Filters Pubkey Signature
  with self name filter = record self { filters = self.filters ++ (name, filter) ∷ [] }

  unfoldable pub single : Filter Pubkey Signature → Filters Pubkey Signature
  unfolding new with
  single filter = with new (codes "default") filter

  unfoldable pub len : Filters Pubkey Signature → ℕ
  len self = length self.filters

  unfoldable pub is_empty : Filters Pubkey Signature → Bool
  is_empty self = is_empty_list self.filters

  -- the sum of the instruction filters over the set
  abbrev pub instruction_count : List (Text × Filter Pubkey Signature) → ℕ
  instruction_count filters = sum (map (λ f. length f.1.instructions) filters)

module _ {Pubkey Signature : Type 0} (usize_max : ℕ) (key : Pubkey → Text)
    (sig : Signature → Text) where
  -- the loop that fills `transactions`
  unfoldable pub collect :
      HashMap TransactionFilter
      → List (Text × Filter Pubkey Signature)
      → Result FilterError (HashMap TransactionFilter)
  collect transactions [] = ok transactions
  collect transactions ((name, filter) ∷ rest) =
      filter_validate usize_max filter name
      >> collect (HashMap.insert name (filter_into_proto key sig filter) transactions) rest

  unfoldable pub into_request :
      Filters Pubkey Signature → Region → Result FilterError SubscribeRequest
  into_request self region =
      if is_empty_list self.filters
      then err no_filters
      else if ltb max_filters (length self.filters)
      then err too_many_filters
      else if ltb max_instruction_filters (instruction_count self.filters)
      then err too_many_instruction_filters
      else do
        transactions ← collect HashMap.empty self.filters
        ok (record { transactions = transactions; region = some (into_proto region) })
