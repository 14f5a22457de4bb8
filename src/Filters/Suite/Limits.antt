-- ===== src/Filters/Suite/Limits.antt =====
-- The unit test of filter.rs on the limits: a value at each limit is accepted, one past it is refused.
use preconfs_client.Prelude.{
  ◌≡◌, ◌+◌, ◌-◌, ℕ, refl, [], ◌∷◌, ◌++◌, List, map, Text, codes, UnwrappedErr, is_ok, true,
  replicate, range, fold, All, errors_agree, map-eq-All, text_eq, if◌then◌else◌, to_le_bytes,
  Result,
}
use preconfs_client.HashMap.{get, insert}
use preconfs_client.Limits.{
  FilterError, max_filters, max_accounts_per_list, max_signatures_per_filter, max_filter_name_bytes,
  max_instruction_filters, max_memcmps_per_instruction, max_memcmp_bytes,
  max_instruction_data_bytes, too_many_filters, too_many_instruction_filters, too_many_accounts,
  too_many_signatures, memcmp_out_of_range, data_size_too_large,
}
use preconfs_client.Proto.{SubscribeRequest}
use preconfs_client.Texts.{decimal}
use preconfs_client.InstructionFilter.{
  InstructionFilter, new as to_program, memcmp, data_size, validate as validate_instruction,
  data_bytes, check_memcmps, check_memcmp,
}
use preconfs_client.Filter.{
  Filter, new, accounts, require, exclude_accounts, signers, exclude_signers, instructions,
  signatures, execution_results, validate, check_instructions, selects_nothing,
  into_proto as filter_into_proto,
}
use preconfs_client.Filters.{Filters, single, with, new as no_filter, into_request, collect}
use preconfs_client.Filters.Suite.{Solana, key, in_region, ams, default, keys, one}
use preconfs_client.Filters.Suite.Rules.{numbered}

module _ (solana : Solana) where
  open solana use {Pubkey, Signature, signature_from}

  abbrev base : Filter Pubkey Signature
  base = accounts new (key solana 1 ∷ [])

  abbrev Add : Type 0
  Add = Filter Pubkey Signature → List Pubkey → Filter Pubkey Signature

  abbrev lists : List (Text × Add)
  lists =
      (codes "account_include", accounts)
      ∷ (codes "account_exclude", exclude_accounts)
      ∷ (codes "account_required", require)
      ∷ (codes "signer_include", signers)
      ∷ (codes "signer_exclude", exclude_signers)
      ∷ []

  -- `base` includes one key, so `account_include` is filled up to the limit, not past it.
  abbrev filled : Text → ℕ
  filled list =
      if text_eq list (codes "account_include")
      then max_accounts_per_list - 1
      else max_accounts_per_list

  -- the closure `signatures`
  abbrev signatures_of : ℕ → List Signature
  signatures_of count =
      map (λ index. signature_from (to_le_bytes 8 index ++ replicate 56 0)) (range 0 count)

  -- the closure `filters`
  abbrev filters_of : ℕ → Filters Pubkey Signature
  filters_of count =
      fold (range 0 count) no_filter (λ filters index. with filters (numbered index) base)

  abbrev program : InstructionFilter Pubkey
  program = to_program (key solana 7)

  -- the closure `instructions`
  abbrev instructions_of : ℕ → Filters Pubkey Signature
  instructions_of count =
      fold (range 0 count) no_filter
        (λ filters index. with filters (numbered index) (instructions new (program ∷ [])))

  -- the closure `instruction`
  abbrev instruction : InstructionFilter Pubkey → Result FilterError SubscribeRequest
  instruction i = one solana (instructions new (i ∷ []))

  abbrev last_start : ℕ
  last_start = max_instruction_data_bytes - max_memcmp_bytes

  -- the filters of the loop over what is accepted
  abbrev accepted : List (InstructionFilter Pubkey)
  accepted =
      fold (range 0 max_memcmps_per_instruction) program
        (λ filter index. memcmp filter index (1 ∷ []))
      ∷ memcmp program 0 (replicate max_memcmp_bytes 1)
      ∷ memcmp program last_start (replicate max_memcmp_bytes 1)
      ∷ data_size (memcmp program 6 (1 ∷ 2 ∷ 3 ∷ [])) 9
      ∷ data_size program max_instruction_data_bytes
      ∷ data_size program 0
      ∷ memcmp (memcmp program 0 (1 ∷ [])) 0 (1 ∷ [])
      ∷ []

  -- the pairs of the loop over what is refused
  abbrev refused : List (InstructionFilter Pubkey × FilterError)
  refused =
      (memcmp program (last_start + 1) (replicate max_memcmp_bytes 1), memcmp_out_of_range default)
      ∷ (memcmp program max_instruction_data_bytes (1 ∷ []), memcmp_out_of_range default)
      ∷ (data_size (memcmp program 7 (1 ∷ 2 ∷ 3 ∷ [])) 9, memcmp_out_of_range default)
      ∷ (data_size (memcmp program 0 (1 ∷ [])) 0, memcmp_out_of_range default)
      ∷ (data_size program 4294967295, data_size_too_large default)
      ∷ []

  abbrev EveryLimitAcceptsItsBoundAndRefusesOnePast : Type 0
  EveryLimitAcceptsItsBoundAndRefusesOnePast =
      All
        (λ entry.
          (is_ok (one solana (entry.1 base (keys solana (filled entry.0)))) ≡ true)
          × UnwrappedErr (one solana (entry.1 base (keys solana (filled entry.0 + 1))))
              (λ error. error ≡ too_many_accounts default))
        lists
      × (is_ok (one solana (signatures new (signatures_of max_signatures_per_filter))) ≡ true)
      × UnwrappedErr (one solana (signatures new (signatures_of (max_signatures_per_filter + 1))))
          (λ error. error ≡ too_many_signatures default)
      × (is_ok (in_region solana (with no_filter (replicate max_filter_name_bytes b'n') base) ams)
          ≡ true)
      × (is_ok (in_region solana (filters_of max_filters) ams) ≡ true)
      × UnwrappedErr (in_region solana (filters_of (max_filters + 1)) ams)
          (λ error. error ≡ too_many_filters)
      × (is_ok (in_region solana (instructions_of max_instruction_filters) ams) ≡ true)
      × UnwrappedErr (in_region solana (instructions_of (max_instruction_filters + 1)) ams)
          (λ error. error ≡ too_many_instruction_filters)
      × All (λ i. is_ok (instruction i) ≡ true) accepted
      × All (λ c. UnwrappedErr (instruction c.0) (λ error. error ≡ c.1)) refused

  every_limit_accepts_its_bound_and_refuses_one_past : EveryLimitAcceptsItsBoundAndRefusesOnePast
  unfolding into_request single no_filter with collect insert get validate check_instructions
      selects_nothing accounts require exclude_accounts signers exclude_signers instructions
      signatures execution_results new to_program memcmp data_size validate_instruction data_bytes
      check_memcmps check_memcmp filter_into_proto decimal
  every_limit_accepts_its_bound_and_refuses_one_past = (
    ((refl, refl), ((refl, refl), ((refl, refl), ((refl, refl), ((refl, refl), tt))))),
    refl,
    refl,
    refl,
    refl,
    refl,
    refl,
    refl,
    map-eq-All (λ i. is_ok (instruction i)) (λ i. true) accepted refl,
    errors_agree instruction refused refl,
  )
