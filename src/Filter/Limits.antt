-- ===== src/Filter/Limits.antt =====
-- `Filter::validate` accepts exactly the filters within the limits, and its error tells the rule that
-- is broken.
use preconfs_client.Prelude.{
  ◌≤◌, ◌<◌, ◌≡◌, ◌≢◌, ◌↔◌, ◌⊎◌, ap, subst, false, some, List, [], ◌∷◌, ◌++◌, arith, Text, length,
  ltb, any, All, All-map, All-middle, any-false, ltb-false→le, le→ltb-false,
}
use preconfs_client.Limits.{
  FilterError, blamed, name_too_long, too_many_accounts, too_many_signatures, empty,
  max_filter_name_bytes, max_accounts_per_list, max_signatures_per_filter,
}
use preconfs_client.InstructionFilter.{InstructionFilter}
use preconfs_client.InstructionFilter.Bounds.{IsU32, InRange}
use preconfs_client.InstructionFilter.Errors.{Fault, Fault-not-InRange, Fault-blamed}
use preconfs_client.Filter.{Filter, account_lists, selects_nothing}

module _ {Pubkey Signature : Type 0} where
  -- The filter selects transactions by one of the positive conditions.
  abbrev pub Selects : Filter Pubkey Signature → Type 0
  Selects f =
      (f.account_include ≢ [])
      ⊎ (f.account_required ≢ [])
      ⊎ (f.signer_include ≢ [])
      ⊎ (f.instructions ≢ [])
      ⊎ (f.signatures ≢ [])

  abbrev pub HasU32 : Filter Pubkey Signature → Type 0
  HasU32 f = All IsU32 f.instructions

  -- The limit on each of the five lists of accounts and signers.
  abbrev pub ListsInRange : Filter Pubkey Signature → Type 0
  ListsInRange f =
      (length f.account_include ≤ max_accounts_per_list)
      × (length f.account_exclude ≤ max_accounts_per_list)
      × (length f.account_required ≤ max_accounts_per_list)
      × (length f.signer_include ≤ max_accounts_per_list)
      × (length f.signer_exclude ≤ max_accounts_per_list)

  -- The server's limits on one named filter.
  pub record InLimits (name : Text) (f : Filter Pubkey Signature) : Type 0 where
    pub name_short : length name ≤ max_filter_name_bytes
    pub lists_short : ListsInRange f
    pub signatures_few : length f.signatures ≤ max_signatures_per_filter
    pub instructions_fine : All InRange f.instructions
    pub selects : Selects f

  pub Selects-iff : (f : Filter Pubkey Signature) → (selects_nothing f ≡ false) ↔ Selects f
  unfolding selects_nothing
  Selects-iff f = (λ h. ground arith, λ h. ground arith)

  pub lists_iff :
      (f : Filter Pubkey Signature)
      → (any (λ list. ltb max_accounts_per_list (length list)) (account_lists f) ≡ false)
        ↔ ListsInRange f
  lists_iff f =
      let each =
        any-false (λ (list : List Pubkey). ltb max_accounts_per_list (length list))
          (account_lists f) in
      (
        λ h.
            let fits =
              All-map _ _ (λ l t. ltb-false→le max_accounts_per_list (length l) t) (account_lists f)
                (each.0 h) in
            (fits.0, fits.1.0, fits.1.1.0, fits.1.1.1.0, fits.1.1.1.1.0),
        λ (include, exclude, required, signers, no_signers). each.1 (
            All-map _ _ (λ l t. le→ltb-false max_accounts_per_list (length l) t) (account_lists f)
              (include, (exclude, (required, (signers, (no_signers, tt)))))),
      )

-- The first instruction filter that breaks a rule.
pub record FirstInstruction {Pubkey : Type 0} (name : Text) (is : List (InstructionFilter Pubkey))
    (e : FilterError) : Type 0 where
  pub before : List (InstructionFilter Pubkey)
  pub culprit : InstructionFilter Pubkey
  pub after : List (InstructionFilter Pubkey)
  pub split : is ≡ before ++ culprit ∷ after
  pub fine : All InRange before
  pub fault : Fault name culprit e

-- The rule of a filter that is broken, in the order of the tests.
pub data FilterFault {Pubkey Signature : Type 0} (name : Text) (f : Filter Pubkey Signature)
    (e : FilterError) : Type 0 where
  name_long : max_filter_name_bytes < length name → e ≡ name_too_long name → FilterFault name f e
  accounts_many :
      length name ≤ max_filter_name_bytes
      → ¬ ListsInRange f
      → e ≡ too_many_accounts name
      → FilterFault name f e
  signatures_many :
      length name ≤ max_filter_name_bytes
      → ListsInRange f
      → max_signatures_per_filter < length f.signatures
      → e ≡ too_many_signatures name
      → FilterFault name f e
  instruction_bad :
      length name ≤ max_filter_name_bytes
      → ListsInRange f
      → length f.signatures ≤ max_signatures_per_filter
      → FirstInstruction name f.instructions e
      → FilterFault name f e
  selects_none :
      length name ≤ max_filter_name_bytes
      → ListsInRange f
      → length f.signatures ≤ max_signatures_per_filter
      → All InRange f.instructions
      → ¬ Selects f
      → e ≡ empty name
      → FilterFault name f e

module _ {Pubkey Signature : Type 0} {name : Text} {f : Filter Pubkey Signature}
    {e : FilterError} where
  pub FilterFault-not-InLimits : FilterFault name f e → ¬ InLimits name f
  FilterFault-not-InLimits (name_long over is_e) h = omega arith
  FilterFault-not-InLimits (accounts_many _ over is_e) h = over h.lists_short
  FilterFault-not-InLimits (signatures_many _ _ over is_e) h = omega arith
  FilterFault-not-InLimits (instruction_bad _ _ _ first) h =
      Fault-not-InRange first.fault
        (All-middle InRange first.before _ _ (subst (All InRange) first.split h.instructions_fine))
  FilterFault-not-InLimits (selects_none _ _ _ _ over is_e) h = over h.selects

  pub FilterFault-blamed : FilterFault name f e → blamed e ≡ some name
  FilterFault-blamed (name_long _ is_e) = ap blamed is_e
  FilterFault-blamed (accounts_many _ _ is_e) = ap blamed is_e
  FilterFault-blamed (signatures_many _ _ _ is_e) = ap blamed is_e
  FilterFault-blamed (instruction_bad _ _ _ first) = Fault-blamed first.fault
  FilterFault-blamed (selects_none _ _ _ _ _ is_e) = ap blamed is_e
