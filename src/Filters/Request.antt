-- ===== src/Filters/Request.antt =====
-- The limits on the filters of a stream, and the ways to break them.
use preconfs_client.Prelude.{
  ℕ, ◌+◌, ◌≤◌, ◌<◌, ◌≡◌, refl, ap, subst, Option, none, some, List, [], ◌∷◌, ◌++◌, arith, Text,
  text_eq, length, All, All-middle, if◌then◌else◌,
}
use preconfs_client.Limits.{
  FilterError, blamed, no_filters, too_many_filters, too_many_instruction_filters, max_filters,
  max_instruction_filters,
}
use preconfs_client.Filter.{Filter}
use preconfs_client.Filter.Limits.{
  HasU32, InLimits, FilterFault, FilterFault-not-InLimits, FilterFault-blamed,
}
use preconfs_client.Filters.{Filters, instruction_count}

abbrev pub or_else {ℓ} : {A : Type ℓ} → Option A → Option A → Option A
or_else none o = o
or_else (some a) o = some a

module _ {Pubkey Signature : Type 0} where
  -- The filter that was added last under a name.
  unfoldable pub last_named :
      Text → List (Text × Filter Pubkey Signature) → Option (Filter Pubkey Signature)
  last_named k [] = none
  last_named k ((name, f) ∷ rest) =
      or_else (last_named k rest) (if text_eq name k then some f else none)

  abbrev pub AllU32 : Filters Pubkey Signature → Type 0
  AllU32 fs = All (λ f. HasU32 f.1) fs.filters

  -- The instruction filters of all the filters of a set.
  abbrev pub instructions_in : List (Text × Filter Pubkey Signature) → ℕ
  instructions_in [] = 0
  instructions_in ((name, f) ∷ rest) = length f.instructions + instructions_in rest

  pub instruction_count-instructions_in :
      (fs : List (Text × Filter Pubkey Signature)) → instruction_count fs ≡ instructions_in fs
  instruction_count-instructions_in [] = refl
  instruction_count-instructions_in ((name, f) ∷ rest) =
      ap (λ n. length f.instructions + n) (instruction_count-instructions_in rest)

  -- The server's limits on the filters of a stream.
  pub record IsServable (fs : Filters Pubkey Signature) : Type 0 where
    pub some_filter : 1 ≤ length fs.filters
    pub few_filters : length fs.filters ≤ max_filters
    pub few_instructions : instructions_in fs.filters ≤ max_instruction_filters
    pub each : All (λ f. InLimits f.0 f.1) fs.filters

  -- The first filter that breaks a rule.
  pub record FirstFilter (fs : List (Text × Filter Pubkey Signature)) (e : FilterError)
      : Type 0 where
    pub before : List (Text × Filter Pubkey Signature)
    pub culprit : Text × Filter Pubkey Signature
    pub after : List (Text × Filter Pubkey Signature)
    pub split : fs ≡ before ++ culprit ∷ after
    pub fine : All (λ f. InLimits f.0 f.1) before
    pub fault : FilterFault culprit.0 culprit.1 e

  -- The rule of a set that is broken, in the order of the tests.
  pub data SetFault (fs : Filters Pubkey Signature) (e : FilterError) : Type 0 where
    none_there : fs.filters ≡ [] → e ≡ no_filters → SetFault fs e
    many : max_filters < length fs.filters → e ≡ too_many_filters → SetFault fs e
    many_instructions :
        1 ≤ length fs.filters
        → length fs.filters ≤ max_filters
        → max_instruction_filters < instructions_in fs.filters
        → e ≡ too_many_instruction_filters
        → SetFault fs e
    filter_bad :
        1 ≤ length fs.filters
        → length fs.filters ≤ max_filters
        → instructions_in fs.filters ≤ max_instruction_filters
        → FirstFilter fs.filters e
        → SetFault fs e

  pub SetFault-not-IsServable :
      {fs : Filters Pubkey Signature} {e : FilterError} → SetFault fs e → ¬ IsServable fs
  SetFault-not-IsServable {fs} (none_there nothing is_e) h =
      let bad : 1 ≤ length {A = Text × Filter Pubkey Signature} [] =
        subst (λ l. 1 ≤ length l) nothing h.some_filter in
      omega arith
  SetFault-not-IsServable (many over is_e) h = omega arith
  SetFault-not-IsServable (many_instructions _ _ over is_e) h = omega arith
  SetFault-not-IsServable (filter_bad _ _ _ first) h = FilterFault-not-InLimits first.fault (
      All-middle (λ f. InLimits f.0 f.1) first.before _ _
        (subst (All (λ f. InLimits f.0 f.1)) first.split h.each))

  -- The filter that the error of a set names, if it names one, stands in the set.
  pub FirstFilter-blamed :
      {fs : List (Text × Filter Pubkey Signature)} {e : FilterError} (first : FirstFilter fs e)
      → blamed e ≡ some first.culprit.0
  FirstFilter-blamed first = FilterFault-blamed first.fault
