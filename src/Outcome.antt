-- ===== src/Outcome.antt =====
-- preconfs-proto/src/lib.rs: the checked outcome of a transaction and the names of `ExecutionResult`.
-- The conversions that prost generates for the enum are the parameter `Generated`.
pub mod Tests
mod Suite
pub mod Names
use preconfs_client.Prelude.{
  ℤ, Option, none, some, Text, codes, text_eq, to_ascii_lowercase, Result, ok_or, if◌then◌else◌,
  ◌≡◌, ◌↔◌,
}
use preconfs_client.Proto.{
  ExecutionResult, success, execution_failure, fees_only, result_discriminant, HarmonicTransaction,
  BamTransaction,
}

-- The names of the values in preconfs.proto.
abbrev pub proto_name : ExecutionResult → Text
proto_name success = codes "EXECUTION_RESULT_SUCCESS"
proto_name execution_failure = codes "EXECUTION_RESULT_EXECUTION_FAILURE"
proto_name fees_only = codes "EXECUTION_RESULT_FEES_ONLY"

-- `ExecutionResult::try_from` and `ExecutionResult::from_str_name`, as prost documents them.
pub record Generated : Type 0 where
  pub try_from : ℤ → Option ExecutionResult
  pub from_str_name : Text → Option ExecutionResult
  pub try_from_iff :
      (n : ℤ) (r : ExecutionResult) → (try_from n ≡ some r) ↔ (n ≡ result_discriminant r)
  pub from_str_name_iff :
      (s : Text) (r : ExecutionResult) → (from_str_name s ≡ some r) ↔ (s ≡ proto_name r)

pub data UnknownExecutionResult : Type 0 where
  unknown_execution_result : Text → UnknownExecutionResult

-- `Option::and_then`
abbrev pub and_then {ℓ κ} : {A : Type ℓ} {B : Type κ} → Option A → (A → Option B) → Option B
and_then none f = none
and_then (some a) f = f a

-- `Option::or_else`
abbrev pub or_else {ℓ} : {A : Type ℓ} → Option A → Option A → Option A
or_else none other = other
or_else (some a) other = some a

-- the match in `from_str`
unfoldable pub short_name : Text → Option ExecutionResult
short_name lower =
    if text_eq lower (codes "success")
    then some success
    else if text_eq lower (codes "execution_failure")
    then some execution_failure
    else if text_eq lower (codes "fees_only")
    then some fees_only
    else none

module _ (prost : Generated) where
  unfoldable pub harmonic_result : HarmonicTransaction → Option ExecutionResult
  harmonic_result self = and_then self.result prost.try_from

  unfoldable pub bam_result : BamTransaction → Option ExecutionResult
  bam_result self = and_then self.result prost.try_from

  unfoldable pub from_str : Text → Result UnknownExecutionResult ExecutionResult
  unfolding short_name
  from_str name =
      ok_or (or_else (short_name (to_ascii_lowercase name)) (prost.from_str_name name))
        (unknown_execution_result name)
