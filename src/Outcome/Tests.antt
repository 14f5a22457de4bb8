-- ===== src/Outcome/Tests.antt =====
-- Runs of the theorems on outcomes, with the conversions written out.
use preconfs_client.Prelude.{
  ℤ, pos, negsuc, ◌≡◌, ◌↔◌, ◌⊎◌, refl, ap, ◌∙◌, zero, suc, arith, false, Option, none, some, Text,
  codes, to_ascii_lowercase, ok, [],
}
use preconfs_client.Proto.{
  ExecutionResult, success, execution_failure, fees_only, result_discriminant, HarmonicTransaction,
  BamTransaction,
}
use preconfs_client.Outcome.{Generated, proto_name, harmonic_result, bam_result, from_str}
use preconfs_client.Outcome.Names.{
  lower_name, pick, pick-ok, execution_result_iff, result_from_str_iff,
}

abbrev pub of_number : ℤ → Option ExecutionResult
of_number (pos zero) = some success
of_number (pos (suc zero)) = some execution_failure
of_number (pos (suc (suc zero))) = some fees_only
of_number _ = none

pub of_number_iff :
    (n : ℤ) (r : ExecutionResult) → (of_number n ≡ some r) ↔ (n ≡ result_discriminant r)
of_number_iff (pos zero) r = ground arith
of_number_iff (pos (suc zero)) r = ground arith
of_number_iff (pos (suc (suc zero))) r = ground arith
of_number_iff (pos (suc (suc (suc n)))) r = ground arith
of_number_iff (negsuc n) r = ground arith

picks : (r : ExecutionResult) → pick proto_name (proto_name r) ≡ some r
picks success = refl
picks execution_failure = refl
picks fees_only = refl

pub of_name_iff :
    (s : Text) (r : ExecutionResult) → (pick proto_name s ≡ some r) ↔ (s ≡ proto_name r)
of_name_iff s r = (pick-ok proto_name s r, λ e. ap (pick proto_name) e ∙ picks r)

abbrev pub prost : Generated
prost = record {
  try_from = of_number;
  from_str_name = pick proto_name;
  try_from_iff = of_number_iff;
  from_str_name_iff = of_name_iff;
}

abbrev harmonic : HarmonicTransaction
harmonic = record {
  transaction = [];
  slot = 1;
  result = some (pos 2);
  region = codes "ams";
  seq = 0;
}

abbrev bam : BamTransaction
bam = record {
  transaction = [];
  slot = 1;
  is_revert_on_error = false;
  node = codes "n";
  sequence = 0;
  bundle_position = 0;
  result = some (negsuc 0);
}

execution_result_iff_example :
    ((harmonic_result prost harmonic ≡ some fees_only) ↔ (harmonic.result ≡ some (pos 2)))
    × ((bam_result prost bam ≡ some fees_only) ↔ (bam.result ≡ some (pos 2)))
execution_result_iff_example = execution_result_iff prost harmonic bam fees_only

result_from_str_iff_example : (from_str prost (codes "Fees_Only") ≡ ok fees_only) ↔ (
    (to_ascii_lowercase (codes "Fees_Only") ≡ lower_name fees_only)
    ⊎ (codes "Fees_Only" ≡ proto_name fees_only))
result_from_str_iff_example = result_from_str_iff prost (codes "Fees_Only") fees_only
