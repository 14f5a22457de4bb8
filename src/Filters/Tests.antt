-- ===== src/Filters/Tests.antt =====
-- Runs of the theorems on sets of filters.
use preconfs_client.Prelude.{
  ℕ, ◌≡◌, ◌↔◌, ◌≤◌, refl, sym, ap, ◌∙◌, arith, some, List, [], ◌∷◌, codes, ok, err,
}
use preconfs_client.Limits.{empty}
use preconfs_client.Proto.{TransactionFilter, SubscribeRequest, BamRegion}
use preconfs_client.Feed.{Region}
use preconfs_client.InstructionFilter.Bounds.{u32_max}
use preconfs_client.HashMap.{insert}
use mathlib.Core.List.{Permᴰ}
use preconfs_client.Filters.Abstract.{table, table_of, table-Perm}
use preconfs_client.Region.{into_proto}
use preconfs_client.Filter.{
  Filter, validate, check_instructions, selects_nothing, into_proto as filter_into_proto,
}
use preconfs_client.Filter.Tests.{candidate, key, key-Injective}
use preconfs_client.Filter.Wire.{on_wire}
use preconfs_client.Filters.Meaning.{Wanted, Selected, into_request-Selected}
use preconfs_client.Filters.{Filters, collect, into_request}
use preconfs_client.Filters.Request.{IsServable, SetFault}
use preconfs_client.Filters.Verdict.{
  IsRequestOf, into_request_iff, into_request-IsRequestOf, into_request-SetFault,
}

abbrev usize_max : ℕ
usize_max = 18446744073709551615

wide : u32_max ≤ usize_max
wide = omega arith

abbrev accounts : List ℕ → Filter ℕ ℕ
accounts keys = record {
  account_include = keys;
  account_exclude = [];
  account_required = [];
  signer_include = [];
  signer_exclude = [];
  instructions = [];
  signatures = [];
  execution_results = [];
}

-- Two filters of one name.
abbrev twice : Filters ℕ ℕ
twice = record {
  filters = (codes "dex", accounts (1 ∷ [])) ∷ (codes "dex", accounts (2 ∷ [])) ∷ [];
}

-- The second filter selects nothing.
abbrev idle : Filters ℕ ℕ
idle = record { filters = (codes "dex", accounts (1 ∷ [])) ∷ (codes "all", accounts []) ∷ [] }

abbrev fra : Region
fra = Region.bam BamRegion.fra

into_request_iff_example :
    ((request : SubscribeRequest) × (into_request usize_max key key twice fra ≡ ok request))
    ↔ IsServable twice
into_request_iff_example = into_request_iff usize_max wide key key twice fra (tt, (tt, tt))

-- Only the second filter is in the request.
abbrev twice_request : SubscribeRequest
twice_request = record {
  transactions =
      (
        codes "dex",
        record {
          account_include = key 2 ∷ [];
          account_exclude = [];
          account_required = [];
          signature = [];
          execution_results = [];
          signer_include = [];
          signer_exclude = [];
          instructions = [];
        },
      )
      ∷ [];
  region = some (into_proto fra);
}

twice_built : into_request usize_max key key twice fra ≡ ok twice_request
unfolding into_request collect insert validate check_instructions selects_nothing filter_into_proto
twice_built = refl

into_request-IsRequestOf_example : IsRequestOf usize_max wide key key twice fra twice_request
into_request-IsRequestOf_example =
    into_request-IsRequestOf usize_max wide key key twice fra twice_request (tt, (tt, tt))
      twice_built

idle_refused : into_request usize_max key key idle fra ≡ err (empty (codes "all"))
unfolding into_request collect validate check_instructions selects_nothing
idle_refused = refl

into_request-SetFault_example : SetFault idle (empty (codes "all"))
into_request-SetFault_example =
    into_request-SetFault usize_max wide key key idle fra (empty (codes "all")) (tt, (tt, tt))
      idle_refused

into_request-Selected_example :
    Wanted twice (codes "dex") candidate
    ↔ Selected twice_request (codes "dex") (on_wire key key candidate)
into_request-Selected_example =
    into_request-Selected usize_max wide key key key-Injective key-Injective twice fra twice_request
      (codes "dex") candidate (tt, (tt, tt)) twice_built

-- Two filters of different names, and the same in the other order.
abbrev pair : Filters ℕ ℕ
pair = record { filters = (codes "dex", accounts (1 ∷ [])) ∷ (codes "amm", accounts (2 ∷ [])) ∷ [] }

abbrev turned : Filters ℕ ℕ
turned = record {
  filters = (codes "amm", accounts (2 ∷ [])) ∷ (codes "dex", accounts (1 ∷ [])) ∷ [];
}

abbrev only : ℕ → TransactionFilter
only n = record {
  account_include = key n ∷ [];
  account_exclude = [];
  account_required = [];
  signature = [];
  execution_results = [];
  signer_include = [];
  signer_exclude = [];
  instructions = [];
}

abbrev pair_request : SubscribeRequest
pair_request = record {
  transactions = (codes "dex", only 1) ∷ (codes "amm", only 2) ∷ [];
  region = some (into_proto fra);
}

pair_built : into_request usize_max key key pair fra ≡ ok pair_request
unfolding into_request collect insert validate check_instructions selects_nothing filter_into_proto
pair_built = refl

table-Perm_example : table_of usize_max key key fra pair ≡ table_of usize_max key key fra turned
table-Perm_example =
    table-Perm usize_max wide key key fra pair turned (tt, (tt, tt)) ((refl, tt), (tt, tt))
      (Permᴰ.swap refl refl)

-- The amm filter is in the table, whichever was added first.
amm_first : table_of usize_max key key fra turned ≡ table (ok pair_request)
amm_first =
    sym (
      table-Perm usize_max wide key key fra pair turned (tt, (tt, tt)) ((refl, tt), (tt, tt))
        (Permᴰ.swap refl refl))
    ∙ ap table pair_built
