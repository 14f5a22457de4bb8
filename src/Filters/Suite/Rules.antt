-- ===== src/Filters/Suite/Rules.antt =====
-- The second unit test of filter.rs: each rule is broken by a request to a BAM region.
use preconfs_client.Prelude.{
  ◌≡◌, ◌+◌, ◌/◌, ℕ, refl, [], ◌∷◌, List, pos, map, Text, codes, Unwrapped, UnwrappedErr, Found,
  is_ok, true, false, replicate, range, fold, All, errors_agree,
}
use preconfs_client.HashMap.{get, insert}
use preconfs_client.Limits.{
  FilterError, max_accounts_per_list, max_instruction_filters, max_memcmp_bytes, no_filters,
  too_many_filters, too_many_instruction_filters, name_too_long, empty, too_many_accounts,
  too_many_memcmps, memcmp_length, memcmp_out_of_range, data_size_too_large,
}
use preconfs_client.Proto.{success, BamRegion}
use preconfs_client.Feed.{Feed, Region, regions}
use preconfs_client.Region.{parse, found}
use preconfs_client.Texts.{decimal, number}
use preconfs_client.InstructionFilter.{
  InstructionFilter, new as to_program, memcmp, data_size, validate as validate_instruction,
  data_bytes, check_memcmps, check_memcmp,
}
use preconfs_client.Filter.{
  new, accounts, exclude_accounts, exclude_signers, instructions, execution_results, validate,
  check_instructions, selects_nothing, into_proto as filter_into_proto,
}
use preconfs_client.Filters.{
  Filters, single, with, new as no_filter, into_request, collect, is_empty, len,
}
use preconfs_client.Filters.Suite.{Solana, key, in_region, default}

-- `format!("f{index}")`
abbrev pub numbered : ℕ → Text
numbered index = b'f' ∷ number index

abbrev fra : Region
fra = Region.bam BamRegion.fra

module _ (solana : Solana) where
  open solana use {Pubkey, Signature}

  -- the pairs of the loop over instruction filters
  abbrev bad_instructions : List (InstructionFilter Pubkey × FilterError)
  bad_instructions =
      let program = key solana 7 in
      (
        memcmp
            (memcmp (memcmp (memcmp (memcmp (to_program program) 0 (1 ∷ [])) 1 (1 ∷ [])) 2 (1 ∷ []))
              3 (1 ∷ []))
            4 (1 ∷ []),
        too_many_memcmps default,
      )
      ∷ (memcmp (to_program program) 0 [], memcmp_length default)
      ∷ (memcmp (to_program program) 0 (replicate (max_memcmp_bytes + 1) 1), memcmp_length default)
      ∷ (memcmp (to_program program) 4294967295 (1 ∷ []), memcmp_out_of_range default)
      ∷ (data_size (memcmp (to_program program) 8 (1 ∷ [])) 8, memcmp_out_of_range default)
      ∷ (data_size (to_program program) 4097, data_size_too_large default)
      ∷ []

  -- The filters `spread` of the test, on as many as the range has.
  abbrev spread : Filters Pubkey Signature
  spread = fold (range 0 (max_instruction_filters / 4 + 1)) no_filter (λ filters index.
      with filters (numbered index)
        (instructions new (map (λ n. to_program (key solana 7)) (range 0 4))))

  abbrev many : Filters Pubkey Signature
  many =
      fold (range 0 65) no_filter
        (λ filters index. with filters (numbered index) (accounts new (key solana 1 ∷ [])))

  abbrev LimitsAndFeedRulesFailBeforeTheRoundTrip : Type 0
  LimitsAndFeedRulesFailBeforeTheRoundTrip = Unwrapped (parse Feed.bam (codes "fra")) (λ bam.
      UnwrappedErr (in_region solana no_filter bam) (λ error. error ≡ no_filters)
      × UnwrappedErr (in_region solana (single new) bam) (λ error. error ≡ empty default)
      × Unwrapped
          (in_region solana
            (single (execution_results (accounts new (key solana 1 ∷ [])) (success ∷ []))) bam)
          (λ landed.
            Found (get default landed.transactions)
              (λ filter. filter.execution_results ≡ pos 0 ∷ []))
      × UnwrappedErr
          (in_region solana (with no_filter (replicate 65 b'n') (accounts new (key solana 1 ∷ [])))
            bam)
          (λ error. error ≡ name_too_long (replicate 65 b'n'))
      × UnwrappedErr
          (in_region solana
            (single (
              exclude_accounts (accounts new (key solana 1 ∷ []))
                (map (λ n. key solana 2) (range 0 (max_accounts_per_list + 1)))))
            bam)
          (λ error. error ≡ too_many_accounts default)
      × All
          (λ c.
            UnwrappedErr (in_region solana (single (instructions new (c.0 ∷ []))) bam)
              (λ error. error ≡ c.1))
          bad_instructions
      × (is_ok (
            in_region solana
              (single (instructions new (memcmp (to_program (key solana 7)) 4095 (1 ∷ []) ∷ [])))
              bam)
          ≡ true)
      × UnwrappedErr (in_region solana spread bam) (λ error. error ≡ too_many_instruction_filters)
      × UnwrappedErr (in_region solana (single (exclude_signers new (key solana 1 ∷ []))) bam)
          (λ error. error ≡ empty default)
      × (is_empty (no_filter {Pubkey = Pubkey} {Signature = Signature}) ≡ true)
      × (is_empty (single (new {Pubkey = Pubkey} {Signature = Signature})) ≡ false)
      × (len many ≡ 65)
      × UnwrappedErr (in_region solana many bam) (λ error. error ≡ too_many_filters))

  limits_and_feed_rules_fail_before_the_round_trip : LimitsAndFeedRulesFailBeforeTheRoundTrip
  unfolding into_request single no_filter with collect insert get validate check_instructions
      selects_nothing accounts exclude_accounts exclude_signers instructions execution_results new
      to_program memcmp data_size validate_instruction data_bytes check_memcmps check_memcmp
      filter_into_proto parse found regions is_empty len decimal
  limits_and_feed_rules_fail_before_the_round_trip = (
    refl,
    refl,
    refl,
    refl,
    refl,
    errors_agree (λ i. in_region solana (single (instructions new (i ∷ []))) fra) bad_instructions
        refl,
    refl,
    refl,
    refl,
    refl,
    refl,
    refl,
    refl,
  )
