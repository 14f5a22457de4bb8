-- ===== src/Filters/Verdict.antt =====
-- `Filters::into_request`: when it builds a request, what the request holds, and what its error says.
use mathlib.Core.Option
use preconfs_client.Prelude.{
  ℕ, ◌≤◌, ◌≡◌, ◌↔◌, ◌⊎◌, inl, inr, refl, ap, sym, subst, ◌∙◌, true, false, none, some, List, [],
  ◌∷◌, arith, tests, Text, length, ltb, is_empty as is_empty_list, ok, err, Bool-cases,
  ok-injective, ok-ne-err, err-injective,
}
use preconfs_client.HashMap
use preconfs_client.HashMap.{HashMap}
use preconfs_client.Limits.{
  FilterError, no_filters, too_many_filters, too_many_instruction_filters, max_filters,
  max_instruction_filters,
}
use preconfs_client.InstructionFilter.Bounds.{u32_max}
use preconfs_client.Feed.{Region}
use preconfs_client.Region.{into_proto}
use preconfs_client.Region.Wire.{IsWireOf, into_proto-IsWireOf}
use preconfs_client.Proto.{TransactionFilter, SubscribeRequest, RequestRegion}
use preconfs_client.Filter.{Filter, into_proto as filter_into_proto}
use preconfs_client.Filter.Message.{IsMessageOf, into_proto-IsMessageOf}
use preconfs_client.Filters.{Filters, instruction_count, into_request}
use preconfs_client.Filters.Collect.{or_else-none, collect_verdict}
use preconfs_client.Filters.Request.{
  instruction_count-instructions_in, last_named, AllU32, IsServable, SetFault, none_there, many,
  many_instructions, filter_bad, SetFault-not-IsServable,
}

is_empty_iff {ℓ} : {A : Type ℓ} (l : List A) → is_empty_list l ≡ true → l ≡ []
is_empty_iff [] h = refl
is_empty_iff (x ∷ l) h = cc

nonempty {ℓ} : {A : Type ℓ} (l : List A) → is_empty_list l ≡ false → 1 ≤ length l
nonempty [] h = cc
nonempty (x ∷ l) h = omega arith

module _ {Pubkey Signature : Type 0} (usize_max : ℕ) (wide : u32_max ≤ usize_max)
    (key : Pubkey → Text) (sig : Signature → Text) where
  -- What `into_request` builds: the region by the schema's field and number, and for each name the message of the filter that was
  -- added last under it.
  pub record IsRequestOf (fs : Filters Pubkey Signature) (region : Region)
      (request : SubscribeRequest) : Type 0 where
    pub wire : RequestRegion
    pub region_is : request.region ≡ some wire
    pub of_region : IsWireOf region wire
    pub transactions_are :
        (k : Text)
        → HashMap.get k request.transactions
          ≡ Option.map (filter_into_proto key sig) (last_named k fs.filters)
    pub messages_are :
        (k : Text) (f : Filter Pubkey Signature)
        → last_named k fs.filters ≡ some f
        → (m : TransactionFilter) × (HashMap.get k request.transactions ≡ some m)
          × IsMessageOf key sig f m
    pub no_others :
        (k : Text) → last_named k fs.filters ≡ none → HashMap.get k request.transactions ≡ none

  request-IsRequestOf :
      (fs : Filters Pubkey Signature) (region : Region) (t : HashMap TransactionFilter)
      → ((k : Text)
          → HashMap.get k t ≡ Option.map (filter_into_proto key sig) (last_named k fs.filters))
      → IsRequestOf fs region (record { transactions = t; region = some (into_proto region) })
  request-IsRequestOf fs region t holds = record {
    wire = into_proto region;
    region_is = refl;
    of_region = into_proto-IsWireOf region;
    transactions_are = holds;
    messages_are = λ k f is_f. (
      filter_into_proto key sig f,
      holds k ∙ ap (Option.map (filter_into_proto key sig)) is_f,
      into_proto-IsMessageOf key sig f,
    );
    no_others = λ k is_none. holds k ∙ ap (Option.map (filter_into_proto key sig)) is_none;
  }

  module _ (fs : Filters Pubkey Signature) (region : Region) where
    -- `into_request` on a set of filters with u32 fields either builds the request of the set, and
    -- the set is within the server's limits, or fails with the error of the first rule that is broken.
    pub set_verdict :
        AllU32 fs
        → ((request : SubscribeRequest) × (into_request usize_max key sig fs region ≡ ok request)
            × IsRequestOf fs region request
            × IsServable fs)
          ⊎ ((e : FilterError) × (into_request usize_max key sig fs region ≡ err e) × SetFault fs e)
    unfolding into_request
    set_verdict u =
        let same = instruction_count-instructions_in fs.filters in
        elim (Bool-cases (is_empty_list fs.filters)) [
          | inl t ↦ inr (no_filters, rw t, none_there (is_empty_iff fs.filters t) refl)
          | inr there ↦ elim (Bool-cases (ltb max_filters (length fs.filters))) [
            | inl t ↦ inr (too_many_filters, rw (there, t), many (omega tests) refl)
            | inr few ↦
                elim (Bool-cases (ltb max_instruction_filters (instruction_count fs.filters))) [
                  | inl t ↦ inr (
                    too_many_instruction_filters,
                    rw (there, few, t),
                    many_instructions (nonempty fs.filters there) (omega tests) (omega tests) refl,
                  )
                  | inr asked ↦
                      elim (collect_verdict usize_max wide key sig HashMap.empty fs.filters u) [
                        | inr (e, bad, first) ↦ inr (
                          e,
                          rw (there, few, asked, bad),
                          filter_bad (nonempty fs.filters there) (omega tests) (omega tests) first,
                        )
                        | inl (t, built, holds, fine) ↦ inl (
                          record { transactions = t; region = some (into_proto region) },
                          rw (there, few, asked, built),
                          request-IsRequestOf fs region t
                              (λ k. holds k ∙ (unfold HashMap.get in or_else-none _)),
                          record {
                            some_filter = nonempty fs.filters there;
                            few_filters = omega tests;
                            few_instructions = omega tests;
                            each = fine;
                          },
                        )
                      ]
                ]
          ]
        ]

    -- `into_request`, on filters of u32 fields, succeeds exactly on the sets that are within the server's
    -- limits: one to `max_filters` filters, at most `max_instruction_filters` instruction filters in
    -- all, and each filter within its own limits.
    pub into_request_iff :
        AllU32 fs
        → ((request : SubscribeRequest) × (into_request usize_max key sig fs region ≡ ok request))
          ↔ IsServable fs
    into_request_iff u = elim (set_verdict u) [
      | inl (request, built, is_request, fits) ↦ (λ h. fits, λ h. (request, built))
      | inr (e, refused, fault) ↦ (
        λ h. absurd (ok-ne-err (sym h.1 ∙ refused)),
        λ h. absurd (SetFault-not-IsServable fault h),
      )
    ]

    -- The request that `into_request` returns, on filters of u32 fields, carries the region, in the
    -- field of its feed and with the number that the schema gives it, and under each name the filter
    -- that was added last under it, list by list; an earlier filter of the same name is not in the
    -- request, nor any name that no filter was added under.
    pub into_request-IsRequestOf :
        (request : SubscribeRequest)
        → AllU32 fs
        → into_request usize_max key sig fs region ≡ ok request
        → IsRequestOf fs region request
    into_request-IsRequestOf request u h = elim (set_verdict u) [
      | inl (built, is_built, is_request, fits) ↦
          subst (IsRequestOf fs region) (ok-injective (sym is_built ∙ h)) is_request
      | inr (e, refused, fault) ↦ absurd (ok-ne-err (sym h ∙ refused))
    ]

    -- The error of `into_request`, on filters of u32 fields, is that of the first rule that is broken,
    -- in the order of the tests; an error about one filter is that of the first filter out of its
    -- limits.
    pub into_request-SetFault :
        (e : FilterError)
        → AllU32 fs
        → into_request usize_max key sig fs region ≡ err e
        → SetFault fs e
    into_request-SetFault e u h = elim (set_verdict u) [
      | inl (built, is_built, is_request, fits) ↦ absurd (ok-ne-err (sym is_built ∙ h))
      | inr (x, refused, fault) ↦ subst (SetFault fs) (err-injective (sym refused ∙ h)) fault
    ]
