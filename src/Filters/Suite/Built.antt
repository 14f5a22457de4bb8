-- ===== src/Filters/Suite/Built.antt =====
-- The first unit test of filter.rs: the request that a set of filters becomes.
use preconfs_client.Prelude.{◌≡◌, refl, some, [], ◌∷◌, pos, codes, Unwrapped, UnwrappedErr, Found}
use preconfs_client.HashMap.{get, insert}
use preconfs_client.Limits.{empty}
use preconfs_client.Prelude.{length}
use preconfs_client.Proto.{harmonic_region, success}
use preconfs_client.Region.{into_proto}
use preconfs_client.InstructionFilter.{
  new as to_program, memcmp, data_size, validate as validate_instruction, data_bytes, check_memcmps,
  check_memcmp, into_proto as instruction_into_proto,
}
use preconfs_client.Filter.{
  new, accounts, require, exclude_accounts, signers, exclude_signers, instructions,
  execution_results, validate, check_instructions, selects_nothing, into_proto as filter_into_proto,
}
use preconfs_client.Filters.{single, with, new as no_filter, into_request, collect}
use preconfs_client.Filters.Suite.{Solana, key, key_text, in_region, ams, default}

module _ (solana : Solana) where
  abbrev pub BuildsTheRequestTheServerExpects : Type 0
  BuildsTheRequestTheServerExpects =
      Unwrapped
        (in_region solana
          (with
            (with no_filter (codes "mine")
              (require (accounts new (key solana 1 ∷ [])) (key solana 2 ∷ [])))
            (codes "landed") (execution_results (accounts new (key solana 3 ∷ [])) (success ∷ [])))
          ams)
        (λ request.
          (length request.transactions ≡ 2)
          × Found (get (codes "mine") request.transactions) (λ mine.
            (mine.account_include ≡ key_text solana 1 ∷ [])
            × (mine.account_required ≡ key_text solana 2 ∷ []))
          × Found (get (codes "landed") request.transactions)
              (λ landed. landed.execution_results ≡ pos 0 ∷ [])
          × (request.region ≡ some (harmonic_region (pos 1))))
      × Unwrapped
          (in_region solana
            (single (exclude_accounts (accounts new (key solana 1 ∷ [])) (key solana 9 ∷ []))) ams)
          (λ narrowed.
            Found (get default narrowed.transactions)
              (λ filter. filter.account_exclude ≡ key_text solana 9 ∷ []))
      × UnwrappedErr (in_region solana (single (exclude_accounts new (key solana 9 ∷ []))) ams)
          (λ error. error ≡ empty default)
      × Unwrapped
          (in_region solana
            (single (
              instructions (exclude_signers (signers new (key solana 4 ∷ [])) (key solana 5 ∷ []))
                (data_size (memcmp (to_program (key solana 6)) 1 (2 ∷ 3 ∷ [])) 9 ∷ [])))
            ams)
          (λ request. Found (get default request.transactions) (λ signed.
            (signed.signer_include ≡ key_text solana 4 ∷ [])
            × (signed.signer_exclude ≡ key_text solana 5 ∷ [])
            × (signed.instructions
                ≡ record {
                  program_id = key_text solana 6;
                  memcmp = record { offset = 1; bytes = 2 ∷ 3 ∷ [] } ∷ [];
                  data_size = some 9;
                }
                  ∷ [])))

  builds_the_request_the_server_expects : BuildsTheRequestTheServerExpects
  unfolding into_request single no_filter with collect insert get validate check_instructions
      selects_nothing accounts require exclude_accounts signers exclude_signers instructions
      execution_results new to_program memcmp data_size validate_instruction data_bytes
      check_memcmps check_memcmp filter_into_proto instruction_into_proto into_proto
  builds_the_request_the_server_expects =
      ((refl, (refl, refl), refl, refl), refl, refl, (refl, refl, refl))
