-- ===== src/Filters/Suite/Selection.antt =====
-- The unit tests of filter.rs on what selects, and on which filter of a set an error names.
use preconfs_client.Prelude.{
  ◌≡◌, ◌+◌, refl, [], ◌∷◌, List, codes, UnwrappedErr, is_ok, true, replicate, All, errors_agree,
  map-eq-All,
}
use preconfs_client.HashMap.{get, insert}
use preconfs_client.Limits.{
  FilterError, max_accounts_per_list, empty, too_many_accounts, memcmp_length,
}
use preconfs_client.Proto.{success}
use preconfs_client.InstructionFilter.{
  new as to_program, memcmp, data_size, validate as validate_instruction, data_bytes, check_memcmps,
  check_memcmp,
}
use preconfs_client.Filter.{
  Filter, new, accounts, require, exclude_accounts, signers, exclude_signers, instructions,
  signatures, execution_results, validate, check_instructions, selects_nothing,
}
use preconfs_client.Filters.{Filters, single, with, new as no_filter, into_request, collect}
use preconfs_client.Filters.Suite.{Solana, key, in_region, ams, default, keys, one}

module _ (solana : Solana) where
  open solana use {Pubkey, Signature, signature_from}

  -- the filters of the loop over what selects on its own
  abbrev lone : List (Filter Pubkey Signature)
  lone =
      accounts new (key solana 1 ∷ [])
      ∷ require new (key solana 1 ∷ [])
      ∷ signers new (key solana 1 ∷ [])
      ∷ instructions new (to_program (key solana 1) ∷ [])
      ∷ signatures new (signature_from (replicate 64 1) ∷ [])
      ∷ []

  -- the filters of the loop over what only narrows
  abbrev narrowing : List (Filter Pubkey Signature)
  narrowing =
      execution_results new (success ∷ [])
      ∷ execution_results
          (exclude_signers (exclude_accounts new (key solana 1 ∷ [])) (key solana 2 ∷ []))
          (success ∷ [])
      ∷ instructions (signers (accounts new []) []) []
      ∷ []

  abbrev AFilterMustSelectSomething : Type 0
  AFilterMustSelectSomething =
      All (λ filter. is_ok (one solana filter) ≡ true) lone
      × All (λ filter. UnwrappedErr (one solana filter) (λ error. error ≡ empty default)) narrowing

  a_filter_must_select_something : AFilterMustSelectSomething
  unfolding into_request single no_filter with collect insert get validate check_instructions
      selects_nothing accounts require exclude_accounts signers exclude_signers instructions
      signatures execution_results new to_program memcmp data_size validate_instruction data_bytes
      check_memcmps check_memcmp
  a_filter_must_select_something = (
    map-eq-All (λ filter. is_ok (one solana filter)) (λ filter. true) lone refl,
    (refl, (refl, (refl, tt))),
  )

  -- the closure `good`
  abbrev good : Filter Pubkey Signature
  good = accounts new (key solana 1 ∷ [])

  -- the pairs of the loop over the filter named `bad`
  abbrev bad_filters : List (Filter Pubkey Signature × FilterError)
  bad_filters =
      (new, empty (codes "bad"))
      ∷ (
        instructions new (memcmp (to_program (key solana 7)) 0 [] ∷ []),
        memcmp_length (codes "bad"),
      )
      ∷ (
        exclude_signers good (keys solana (max_accounts_per_list + 1)),
        too_many_accounts (codes "bad"),
      )
      ∷ []

  -- the set of one round of the loop
  abbrev around : Filter Pubkey Signature → Filters Pubkey Signature
  around bad = with (with (with no_filter (codes "a") good) (codes "bad") bad) (codes "z") good

  abbrev TheErrorNamesTheBadFilter : Type 0
  TheErrorNamesTheBadFilter =
      All (λ c. UnwrappedErr (in_region solana (around c.0) ams) (λ error. error ≡ c.1)) bad_filters

  the_error_names_the_bad_filter : TheErrorNamesTheBadFilter
  unfolding into_request single no_filter with collect insert get validate check_instructions
      selects_nothing accounts require exclude_accounts signers exclude_signers instructions
      signatures execution_results new to_program memcmp data_size validate_instruction data_bytes
      check_memcmps check_memcmp
  the_error_names_the_bad_filter =
      errors_agree (λ bad. in_region solana (around bad) ams) bad_filters refl
