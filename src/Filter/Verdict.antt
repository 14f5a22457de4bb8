-- ===== src/Filter/Verdict.antt =====
-- `Filter::validate` accepts exactly the filters within the limits, and its error tells the rule that
-- is broken.
use preconfs_client.Prelude.{
  ℕ, ◌≤◌, ◌≡◌, ◌↔◌, ◌⊎◌, inl, inr, refl, ap, sym, ◌∙◌, List, [], ◌∷◌, tests, Text, length, ltb, any,
  ok, err, All, Bool-cases, Result-cases, false≢true, ok-ne-err,
}
use preconfs_client.Limits.{
  FilterError, name_too_long, too_many_accounts, too_many_signatures, empty, max_filter_name_bytes,
  max_accounts_per_list, max_signatures_per_filter,
}
use preconfs_client.InstructionFilter.{InstructionFilter, validate as instruction_validate}
use preconfs_client.InstructionFilter.Bounds.{u32_max, IsU32, InRange, instruction_validate_iff}
use preconfs_client.InstructionFilter.Errors.{validate-err as instruction_validate-err}
use preconfs_client.Filter.{Filter, account_lists, check_instructions, selects_nothing, validate}
use preconfs_client.Filter.Limits.{
  HasU32, InLimits, Selects-iff, lists_iff, FirstInstruction, FilterFault, name_long, accounts_many,
  signatures_many, instruction_bad, selects_none, FilterFault-not-InLimits,
}

module _ (usize_max : ℕ) (wide : u32_max ≤ usize_max) (name : Text) where
  check_instructions_verdict :
      {Pubkey : Type 0} (is : List (InstructionFilter Pubkey))
      → All IsU32 is
      → ((check_instructions usize_max name is ≡ ok tt) × All InRange is)
        ⊎ ((e : FilterError) × (check_instructions usize_max name is ≡ err e)
            × FirstInstruction name is e)
  unfolding check_instructions
  check_instructions_verdict [] u = inl (refl, tt)
  check_instructions_verdict (i ∷ is) u =
      elim (Result-cases (instruction_validate usize_max i name)) [
        | inl (_, fine) ↦
            let in_range = (instruction_validate_iff usize_max wide name i u.0).0 fine in
            elim (check_instructions_verdict is u.1) [
              | inl (accepted, rest) ↦ inl (rw fine accepted, (in_range, rest))
              | inr (e, refused, first) ↦ inr (
                e,
                rw fine refused,
                record {
                  before = i ∷ first.before;
                  culprit = first.culprit;
                  after = first.after;
                  split = ap (λ t. i ∷ t) first.split;
                  fine = (in_range, first.fine);
                  fault = first.fault;
                },
              )
            ]
        | inr (e, bad) ↦ inr (
          e,
          rw bad,
          record {
            before = [];
            culprit = i;
            after = is;
            split = refl;
            fine = tt;
            fault = instruction_validate-err usize_max wide name i u.0 bad;
          },
        )
      ]

  module _ {Pubkey Signature : Type 0} (f : Filter Pubkey Signature) where
    -- The verdict on a filter of u32 fields: accepted and within the limits, or refused with an error
    -- that tells the first rule that is broken.
    pub filter_verdict :
        HasU32 f
        → ((validate usize_max f name ≡ ok tt) × InLimits name f)
          ⊎ ((e : FilterError) × (validate usize_max f name ≡ err e) × FilterFault name f e)
    unfolding validate
    filter_verdict u = elim (Bool-cases (ltb max_filter_name_bytes (length name))) [
      | inl t ↦ inr (name_too_long name, rw t, name_long (omega tests) refl)
      | inr short ↦
          elim (Bool-cases
            (any (λ list. ltb max_accounts_per_list (length list)) (account_lists f))) [
              | inl t ↦ inr (
                too_many_accounts name,
                rw (short, t),
                accounts_many (omega tests) (λ h. absurd (false≢true (sym ((lists_iff f).1 h) ∙ t)))
                    refl,
              )
              | inr few ↦ elim (Bool-cases (ltb max_signatures_per_filter (length f.signatures))) [
                | inl t ↦ inr (
                  too_many_signatures name,
                  rw (short, few, t),
                  signatures_many (omega tests) ((lists_iff f).0 few) (omega tests) refl,
                )
                | inr signed ↦ elim (check_instructions_verdict f.instructions u) [
                  | inr (e, bad, first) ↦ inr (
                    e,
                    rw (short, few, signed, bad),
                    instruction_bad (omega tests) ((lists_iff f).0 few) (omega tests) first,
                  )
                  | inl (fine, in_range) ↦ elim (Bool-cases (selects_nothing f)) [
                    | inl t ↦ inr (
                      empty name,
                      rw (short, few, signed, fine, t),
                      selects_none (omega tests) ((lists_iff f).0 few) (omega tests) in_range
                          (λ h. absurd (false≢true (sym ((Selects-iff f).1 h) ∙ t))) refl,
                    )
                    | inr some_selected ↦ inl (
                      rw (short, few, signed, fine, some_selected),
                      record {
                        name_short = omega tests;
                        lists_short = (lists_iff f).0 few;
                        signatures_few = omega tests;
                        instructions_fine = in_range;
                        selects = (Selects-iff f).0 some_selected;
                      },
                    )
                  ]
                ]
              ]
            ]
    ]

    -- `validate` accepts a filter of u32 fields under a name exactly when the name, the five account
    -- lists, the signatures and every instruction filter are within the server's limits and the
    -- filter selects transactions by at least one positive condition.
    pub filter_validate_iff : HasU32 f → (validate usize_max f name ≡ ok tt) ↔ InLimits name f
    filter_validate_iff u = elim (filter_verdict u) [
      | inl (accepted, fits) ↦ (λ h. fits, λ h. accepted)
      | inr (e, refused, fault) ↦ (
        λ h. absurd (ok-ne-err (sym h ∙ refused)),
        λ h. absurd (FilterFault-not-InLimits fault h),
      )
    ]
