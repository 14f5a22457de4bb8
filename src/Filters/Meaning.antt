-- ===== src/Filters/Meaning.antt =====
-- What the request of a set of filters asks the server for, name by name.
use mathlib.Core.Option
use preconfs_client.Prelude.{ℕ, ◌≤◌, ◌≡◌, ◌↔◌, sym, ap, subst, ◌∙◌, some, Text, ok, map-some, ℤ}
use preconfs_client.HashMap
use preconfs_client.Feed.{Region}
use preconfs_client.Proto.{ExecutionResult, TransactionFilter, SubscribeRequest}
use preconfs_client.InstructionFilter.Bounds.{u32_max}
use preconfs_client.Filter.{Filter, into_proto as filter_into_proto}
use preconfs_client.Filter.Meaning.{Candidate, Matches, MessageMatches}
use preconfs_client.Filter.Wire.{Injective, on_wire, into_proto-Matches}
use preconfs_client.Filters.{Filters, into_request}
use preconfs_client.Filters.Request.{last_named, AllU32}
use preconfs_client.Filters.Verdict.{into_request-IsRequestOf}

-- The filter of a name, the last that was added under it, matches a transaction.
abbrev pub Wanted :
    {Pubkey Signature : Type 0}
    → Filters Pubkey Signature
    → Text
    → Candidate Pubkey Signature ExecutionResult
    → Type 0
Wanted {Pubkey} {Signature} fs k t =
    (f : Filter Pubkey Signature) × (last_named k fs.filters ≡ some f) × Matches f t

-- The request has a filter message under a name, which matches a transaction.
abbrev pub Selected : SubscribeRequest → Text → Candidate Text Text ℤ → Type 0
Selected request k t =
    (m : TransactionFilter) × (HashMap.get k request.transactions ≡ some m) × MessageMatches m t

module _ {Pubkey Signature : Type 0} (usize_max : ℕ) (wide : u32_max ≤ usize_max)
    (key : Pubkey → Text) (sig : Signature → Text) (keys_differ : Injective key)
    (signatures_differ : Injective sig) (fs : Filters Pubkey Signature) (region : Region) where
  -- A transaction is selected under a name by the request that `into_request` builds, as the schema says
  -- it, exactly when the last filter that was added under the name matches it, as the client says it.
  -- The filters have u32 fields, and the texts of keys and of signatures tell any two apart.
  pub into_request-Selected :
      (request : SubscribeRequest) (k : Text) (t : Candidate Pubkey Signature ExecutionResult)
      → AllU32 fs
      → into_request usize_max key sig fs region ≡ ok request
      → Wanted fs k t ↔ Selected request k (on_wire key sig t)
  into_request-Selected request k t u built =
      let is_request = into_request-IsRequestOf usize_max wide key sig fs region request u built in
      let same = λ (f : Filter Pubkey Signature).
        into_proto-Matches key sig keys_differ signatures_differ f t in
      (
        λ h.
            let (f, is_f, matched) = h in
            (
              filter_into_proto key sig f,
              is_request.transactions_are k ∙ ap (Option.map (filter_into_proto key sig)) is_f,
              (same f).0 matched,
            ),
        λ h.
            let (m, is_m, matched) = h in
            let (f, is_f, made) =
              map-some (filter_into_proto key sig) (last_named k fs.filters)
                (sym (is_request.transactions_are k) ∙ is_m) in
            (
              f,
              is_f,
              (same f).1 (subst (λ m. MessageMatches m (on_wire key sig t)) (sym made) matched),
            ),
      )
