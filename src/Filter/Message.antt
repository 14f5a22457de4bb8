-- ===== src/Filter/Message.antt =====
-- What the message of a filter holds, field by field.
use preconfs_client.Prelude.{◌≡◌, refl, map, Text}
use preconfs_client.Proto
use preconfs_client.Proto.{TransactionFilter, result_discriminant}
use preconfs_client.InstructionFilter.{
  InstructionFilter, Memcmp, into_proto as instruction_into_proto,
}
use preconfs_client.Filter.{Filter, into_proto}

module _ {Pubkey Signature : Type 0} (key : Pubkey → Text) (sig : Signature → Text) where
  -- The keys and signatures as texts, the results as numbers of their enum, and the instruction
  -- filters with their program, memcmps and size, each list in the order of the filter.
  pub record IsMessageOf (f : Filter Pubkey Signature) (m : TransactionFilter) : Type 0 where
    pub account_include_is : m.account_include ≡ map key f.account_include
    pub account_exclude_is : m.account_exclude ≡ map key f.account_exclude
    pub account_required_is : m.account_required ≡ map key f.account_required
    pub signer_include_is : m.signer_include ≡ map key f.signer_include
    pub signer_exclude_is : m.signer_exclude ≡ map key f.signer_exclude
    pub signature_is : m.signature ≡ map sig f.signatures
    pub execution_results_is : m.execution_results ≡ map result_discriminant f.execution_results
    pub instructions_are :
        m.instructions
        ≡ map {B = Proto.InstructionFilter}
            (λ (i : InstructionFilter Pubkey). record {
              program_id = key i.program_id;
              memcmp =
                  map {B = Proto.Memcmp}
                    (λ (c : Memcmp). record { offset = c.offset; bytes = c.bytes })
                    i.memcmp;
              data_size = i.data_size;
            })
            f.instructions

  pub into_proto-IsMessageOf : (f : Filter Pubkey Signature) → IsMessageOf f (into_proto key sig f)
  unfolding into_proto instruction_into_proto
  into_proto-IsMessageOf f = record {
    account_include_is = refl;
    account_exclude_is = refl;
    account_required_is = refl;
    signer_include_is = refl;
    signer_exclude_is = refl;
    signature_is = refl;
    execution_results_is = refl;
    instructions_are = refl;
  }
