-- ===== src/Filter/Tests.antt =====
-- A run of the theorem on filters.
use mathlib.Core.List.Memᴰ
use mathlib.Core.List.Memᴰ.{head, tail}
use preconfs_client.Prelude.{refl, none, Text, ℕ, ◌≡◌, ◌↔◌, ◌≤◌, arith, [], ◌∷◌, codes, ok}
use preconfs_client.InstructionFilter.Bounds.{u32_max}
use preconfs_client.Proto.{ExecutionResult}
use preconfs_client.Filter.{Filter, validate}
use preconfs_client.Filter.Meaning.{Candidate, Matches}
use preconfs_client.Filter.Wire.{Injective}
use preconfs_client.Filter.Limits.{InLimits}
use preconfs_client.Filter.Verdict.{filter_validate_iff}

abbrev usize_max : ℕ
usize_max = 18446744073709551615

wide : u32_max ≤ usize_max
wide = omega arith

abbrev two_accounts : Filter ℕ ℕ
two_accounts = record {
  account_include = 1 ∷ 2 ∷ [];
  account_exclude = [];
  account_required = [];
  signer_include = [];
  signer_exclude = [];
  instructions = [];
  signatures = [];
  execution_results = [];
}

filter_validate_iff_example :
    (validate usize_max two_accounts (codes "dex") ≡ ok tt) ↔ InLimits (codes "dex") two_accounts
filter_validate_iff_example = filter_validate_iff usize_max wide (codes "dex") two_accounts tt

-- The key 2 is one of the two accounts.
abbrev pub candidate : Candidate ℕ ℕ ExecutionResult
candidate = record {
  keys = 7 ∷ 2 ∷ [];
  signers = 7 ∷ [];
  signature = 4;
  outcome = none;
  instructions = (2, 9 ∷ []) ∷ [];
}

abbrev pub key : ℕ → Text
key n = n ∷ []

pub key-Injective : Injective key
key-Injective x y h = ground arith

candidate-Matches : Matches two_accounts candidate
candidate-Matches = record {
  include = (2, tail (head refl), tail (head refl));
  exclude = λ c. Memᴰ.not-nil c.1;
  required = λ a m. absurd (Memᴰ.not-nil m);
  signed = tt;
  not_signed = λ c. Memᴰ.not-nil c.1;
  invokes = tt;
  signature = tt;
  outcome = tt;
}
