-- ===== src/Filter.antt =====
-- preconfs-client/src/filter.rs: `Filter`, its builder methods, `validate` and `into_proto`. Public
-- keys and signatures are values of any two types.
pub mod Tests
pub mod Limits
pub mod Message
pub mod Verdict
pub mod Meaning
pub mod Wire
use preconfs_client.Prelude.{
  ℕ, ◌&&◌, Bool, List, [], ◌∷◌, ◌++◌, map, any, Text, ltb, length, is_empty, Result, ok, err, ◌>>=◌,
  ◌>>◌, if◌then◌else◌,
}
use preconfs_client.Limits.{
  FilterError, name_too_long, too_many_accounts, too_many_signatures, empty, max_filter_name_bytes,
  max_accounts_per_list, max_signatures_per_filter,
}
use preconfs_client.InstructionFilter.{
  InstructionFilter, validate as instruction_validate, into_proto as instruction_into_proto,
}
use preconfs_client.Proto
use preconfs_client.Proto.{ExecutionResult, TransactionFilter, result_discriminant}

pub record Filter (Pubkey Signature : Type 0) : Type 0 where
  pub account_include : List Pubkey
  pub account_exclude : List Pubkey
  pub account_required : List Pubkey
  pub signer_include : List Pubkey
  pub signer_exclude : List Pubkey
  pub instructions : List (InstructionFilter Pubkey)
  pub signatures : List Signature
  pub execution_results : List ExecutionResult

-- the loop over the instruction filters
unfoldable pub check_instructions :
    {Pubkey : Type 0} → ℕ → Text → List (InstructionFilter Pubkey) → Result FilterError (Unit {0})
check_instructions usize_max name [] = ok tt
check_instructions usize_max name (i ∷ is) =
    instruction_validate usize_max i name >> check_instructions usize_max name is

module _ {Pubkey Signature : Type 0} where
  unfoldable pub new : Filter Pubkey Signature
  new = record {
    account_include = [];
    account_exclude = [];
    account_required = [];
    signer_include = [];
    signer_exclude = [];
    instructions = [];
    signatures = [];
    execution_results = [];
  }

  unfoldable pub accounts : Filter Pubkey Signature → List Pubkey → Filter Pubkey Signature
  accounts self added = record self { account_include = self.account_include ++ added }

  unfoldable pub require : Filter Pubkey Signature → List Pubkey → Filter Pubkey Signature
  require self added = record self { account_required = self.account_required ++ added }

  unfoldable pub exclude_accounts : Filter Pubkey Signature → List Pubkey → Filter Pubkey Signature
  exclude_accounts self added = record self { account_exclude = self.account_exclude ++ added }

  unfoldable pub signers : Filter Pubkey Signature → List Pubkey → Filter Pubkey Signature
  signers self added = record self { signer_include = self.signer_include ++ added }

  unfoldable pub exclude_signers : Filter Pubkey Signature → List Pubkey → Filter Pubkey Signature
  exclude_signers self added = record self { signer_exclude = self.signer_exclude ++ added }

  unfoldable pub instructions :
      Filter Pubkey Signature → List (InstructionFilter Pubkey) → Filter Pubkey Signature
  instructions self added = record self { instructions = self.instructions ++ added }

  unfoldable pub signatures : Filter Pubkey Signature → List Signature → Filter Pubkey Signature
  signatures self added = record self { signatures = self.signatures ++ added }

  unfoldable pub execution_results :
      Filter Pubkey Signature → List ExecutionResult → Filter Pubkey Signature
  execution_results self added = record self { execution_results = self.execution_results ++ added }

  -- the five account lists, in the order of the source
  abbrev pub account_lists : Filter Pubkey Signature → List (List Pubkey)
  account_lists self =
      self.account_include ∷ self.account_exclude ∷ self.account_required ∷ self.signer_include
      ∷ self.signer_exclude ∷ []

  -- the last test of `validate`
  unfoldable pub selects_nothing : Filter Pubkey Signature → Bool
  selects_nothing self =
      is_empty self.account_include
      && is_empty self.account_required
      && is_empty self.signer_include
      && is_empty self.instructions
      && is_empty self.signatures

  unfoldable pub validate : ℕ → Filter Pubkey Signature → Text → Result FilterError (Unit {0})
  validate usize_max self name =
      if ltb max_filter_name_bytes (length name)
      then err (name_too_long name)
      else if any (λ list. ltb max_accounts_per_list (length list)) (account_lists self)
      then err (too_many_accounts name)
      else if ltb max_signatures_per_filter (length self.signatures)
      then err (too_many_signatures name)
      else do
        check_instructions usize_max name self.instructions
        if selects_nothing self then err (empty name) else ok tt

  -- `key` is `Pubkey::to_string` and `sig` is `Signature::to_string`.
  unfoldable pub into_proto :
      (Pubkey → Text) → (Signature → Text) → Filter Pubkey Signature → TransactionFilter
  unfolding instruction_into_proto
  into_proto key sig self = record {
    account_include = map key self.account_include;
    account_exclude = map key self.account_exclude;
    account_required = map key self.account_required;
    signature = map sig self.signatures;
    execution_results = map result_discriminant self.execution_results;
    signer_include = map key self.signer_include;
    signer_exclude = map key self.signer_exclude;
    instructions = map (instruction_into_proto key) self.instructions;
  }
