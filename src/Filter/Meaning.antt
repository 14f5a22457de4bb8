-- ===== src/Filter/Meaning.antt =====
-- Which transactions a filter asks for: after the comments on `Filter` (filter.rs) for the client's
-- filter, and after those on `TransactionFilter` (preconfs.proto) for the message that is sent.
use mathlib.Core.List.{Memᴰ}
use preconfs_client.Prelude.{
  ℕ, ◌+◌, ◌≤◌, ◌≡◌, Option, none, some, List, [], ◌∷◌, Text, length, take, drop, All, ℤ,
}
use preconfs_client.Proto
use preconfs_client.Proto.{ExecutionResult, TransactionFilter}
use preconfs_client.InstructionFilter.{InstructionFilter}
use preconfs_client.InstructionFilter.Matching.{Passes, HasSize}
use preconfs_client.Filter.{Filter}

-- What a filter looks at: the static account keys, the first of them that signed, the first signature,
-- the outcome if one was reported, and the top-level instructions with their program and data.
pub record Candidate (Key Sig Outcome : Type 0) : Type 0 where
  pub keys : List Key
  pub signers : List Key
  pub signature : Sig
  pub outcome : Option Outcome
  pub instructions : List (Key × List ℕ)

module _ {A : Type 0} where
  abbrev pub Common : List A → List A → Type 0
  Common wanted there = (a : A) × Memᴰ a wanted × Memᴰ a there

  abbrev pub listed : Option A → List A
  listed none = []
  listed (some a) = a ∷ []

  -- Any of the wanted items is there, unless none is wanted.
  abbrev pub AnyOf : List A → List A → Type 0
  AnyOf [] there = Unit
  AnyOf (a ∷ wanted) there = Common (a ∷ wanted) there

  abbrev pub AllOf : List A → List A → Type 0
  AllOf wanted there = (a : A) → Memᴰ a wanted → Memᴰ a there

  abbrev pub NoneOf : List A → List A → Type 0
  NoneOf wanted there = ¬ Common wanted there

-- Any of the calls is one that any of the conditions asks for, unless there is no condition.
abbrev pub AnyCall : {I C : Type 0} → (C → I → Type 0) → List I → List C → Type 0
AnyCall Asks [] calls = Unit
AnyCall {I} {C} Asks (i ∷ is) calls = (j : I) × Memᴰ j (i ∷ is) × (c : C) × Memᴰ c calls × Asks c j

abbrev pub Invokes : {Pubkey : Type 0} → Pubkey × List ℕ → InstructionFilter Pubkey → Type 0
Invokes call i = (call.0 ≡ i.program_id) × Passes call.1 i

pub record Matches {Pubkey Signature : Type 0} (f : Filter Pubkey Signature)
    (t : Candidate Pubkey Signature ExecutionResult) : Type 0 where
  pub include : AnyOf f.account_include t.keys
  pub exclude : NoneOf f.account_exclude t.keys
  pub required : AllOf f.account_required t.keys
  pub signed : AnyOf f.signer_include t.signers
  pub not_signed : NoneOf f.signer_exclude t.signers
  pub invokes : AnyCall Invokes f.instructions t.instructions
  pub signature : AnyOf f.signatures (t.signature ∷ [])
  pub outcome : AnyOf f.execution_results (listed t.outcome)

abbrev pub MessageHolds : List ℕ → Proto.Memcmp → Type 0
MessageHolds input m =
    (m.offset + length m.bytes ≤ length input)
    × (take (length m.bytes) (drop m.offset input) ≡ m.bytes)

abbrev pub MessageInvokes : Text × List ℕ → Proto.InstructionFilter → Type 0
MessageInvokes call i =
    (call.0 ≡ i.program_id) × All (MessageHolds call.1) i.memcmp × HasSize call.1 i.data_size

pub record MessageMatches (f : TransactionFilter) (t : Candidate Text Text ℤ) : Type 0 where
  pub include : AnyOf f.account_include t.keys
  pub exclude : NoneOf f.account_exclude t.keys
  pub required : AllOf f.account_required t.keys
  pub signature : AnyOf f.signature (t.signature ∷ [])
  pub outcome : AnyOf f.execution_results (listed t.outcome)
  pub signed : AnyOf f.signer_include t.signers
  pub not_signed : NoneOf f.signer_exclude t.signers
  pub invokes : AnyCall MessageInvokes f.instructions t.instructions
