-- ===== src/Filters/Abstract.antt =====
-- The request of a set of named filters as a function of the set, without the order in which the filters
-- were added: into a quotient, and to the filter that the server sees under each name.
use native.Mathlib.Nat.{ℕ_set}
use mathlib.Core.List.{Permᴰ}
use mathlib.Core.List.Permᴰ
use mathlib.Core.Quot
use mathlib.Core.Quot.{Quot}
use preconfs_client.Prelude.{
  ℕ, ◌≤◌, ◌≡◌, refl, sym, ap, ◌∙◌, Option, none, some, Text, Result, ok, err, Result-cases, inl,
  inr,
}
use preconfs_client.HashMap.{get}
use preconfs_client.Limits.{FilterError}
use preconfs_client.Feed.{Region}
use preconfs_client.Proto.{SubscribeRequest, TransactionFilter}
use preconfs_client.InstructionFilter.Bounds.{u32_max}
use preconfs_client.Filter.Limits.{HasU32}
use preconfs_client.Filters.{Filters, into_request}
use preconfs_client.Filters.Request.{AllU32}
use preconfs_client.Filters.Order.{Distinct, Distinct-Perm, All-Perm, into_request-Perm}

-- What the server sees of a request: the filter under each name.
abbrev pub Table : Type 0
Table = Text → Option TransactionFilter

-- No table where no request is made.
abbrev pub table : Result FilterError SubscribeRequest → Option Table
table (ok request) = some (λ k. get k request.transactions)
table (err e) = none

Table-set : IsSet (Option Table)
Table-set = hlevel ℕ_set

module _ {Pubkey Signature : Type 0} (usize_max : ℕ) (key : Pubkey → Text) (sig : Signature → Text)
    (region : Region) where
  abbrev pub table_of : Filters Pubkey Signature → Option Table
  table_of fs = table (into_request usize_max key sig fs region)

module _ {Pubkey Signature : Type 0} (usize_max : ℕ) (wide : u32_max ≤ usize_max)
    (key : Pubkey → Text) (sig : Signature → Text) (region : Region) where
  abbrev given_table : Filters Pubkey Signature → Option Table
  given_table = table_of usize_max key sig region

  table-built :
      (fs gs : Filters Pubkey Signature) (request : SubscribeRequest)
      → AllU32 fs
      → Distinct fs.filters
      → Permᴰ fs.filters gs.filters
      → into_request usize_max key sig fs region ≡ ok request
      → given_table fs ≡ given_table gs
  table-built fs gs request u distinct p built =
      let (other, made, same) =
        into_request-Perm usize_max wide key sig fs gs region request u distinct p built in
      ap table built ∙ (λ i. some (λ k. same k i)) ∙ sym (ap table made)

  -- Sets of filters of different names, of u32 fields, that differ only in the order in which their filters
  -- were added give the server the same: both make no request, or both make one and the filter under each
  -- name is the same.
  pub table-Perm :
      (fs gs : Filters Pubkey Signature)
      → AllU32 fs
      → Distinct fs.filters
      → Permᴰ fs.filters gs.filters
      → table (into_request usize_max key sig fs region)
        ≡ table (into_request usize_max key sig gs region)
  table-Perm fs gs u distinct p = elim (Result-cases (into_request usize_max key sig fs region)) [
    | inl (request, built) ↦ table-built fs gs request u distinct p built
    | inr (e, failed) ↦ elim (Result-cases (into_request usize_max key sig gs region)) [
      | inl (request, built) ↦ sym (
          table-built gs fs request (All-Perm (λ f. HasU32 f.1) p u) (Distinct-Perm p distinct)
            (Permᴰ.symm p) built)
      | inr (e', failed') ↦ ap table failed ∙ sym (ap table failed')
    ]
  ]

  -- The sets of named filters, and these without their order.
  abbrev Named : Type 0
  Named = (fs : Filters Pubkey Signature) × AllU32 fs × Distinct fs.filters

  abbrev SameFilters : Named → Named → Type 0
  SameFilters a b = Permᴰ a.0.filters b.0.filters

  abbrev FilterSet : Type 0
  FilterSet = Quot SameFilters

  set_table : FilterSet → Option Table
  set_table = Quot.lift Table-set (λ a. given_table a.0) (λ a b p. table-Perm a.0 b.0 a.1 a.2 p)

  -- `set_table` is the one function of the unordered set that gives what `into_request` gives.
  table-factors :
      (f : FilterSet → Option Table) × ((a : Named) → f (Quot.mk a) ≡ given_table a.0)
      × ((g : FilterSet → Option Table)
          → ((a : Named) → g (Quot.mk a) ≡ given_table a.0)
          → (q : FilterSet) → g q ≡ f q)
  unfolding set_table
  table-factors =
      (set_table, λ a. refl, λ g same. Quot.ind (λ q. Table-set (g q) (set_table q)) same)
