-- ===== src/Proto.antt =====
-- The messages of preconfs-proto/proto/preconfs.proto that the client builds and reads: the filters
-- of a subscribe request, the updates of the two feeds and the enums. A `bytes` or `string` field
-- is its list of bytes, an i32 is an integer, a map field a `HashMap`.
use preconfs_client.Prelude.{ℕ, Bool, Option, List, Text, ℤ, pos}
use preconfs_client.HashMap.{HashMap}

pub data HarmonicRegion : Type 0 where
  unspecified ams ewr fra lon tyo sgp slc : HarmonicRegion

pub data BamRegion : Type 0 where
  unspecified ams dfw dub ewr fra hkg iad lax lon pit sea sin slc sqq tyo : BamRegion

-- The number of a variant, what `region as i32` gives and what the derived equality compares.
abbrev pub harmonic_discriminant : HarmonicRegion → ℕ
harmonic_discriminant HarmonicRegion.unspecified = 0
harmonic_discriminant HarmonicRegion.ams = 1
harmonic_discriminant HarmonicRegion.ewr = 2
harmonic_discriminant HarmonicRegion.fra = 3
harmonic_discriminant HarmonicRegion.lon = 4
harmonic_discriminant HarmonicRegion.tyo = 5
harmonic_discriminant HarmonicRegion.sgp = 6
harmonic_discriminant HarmonicRegion.slc = 7

abbrev pub bam_discriminant : BamRegion → ℕ
bam_discriminant BamRegion.unspecified = 0
bam_discriminant BamRegion.ams = 1
bam_discriminant BamRegion.dfw = 2
bam_discriminant BamRegion.dub = 3
bam_discriminant BamRegion.ewr = 4
bam_discriminant BamRegion.fra = 5
bam_discriminant BamRegion.hkg = 6
bam_discriminant BamRegion.iad = 7
bam_discriminant BamRegion.lax = 8
bam_discriminant BamRegion.lon = 9
bam_discriminant BamRegion.pit = 10
bam_discriminant BamRegion.sea = 11
bam_discriminant BamRegion.sin = 12
bam_discriminant BamRegion.slc = 13
bam_discriminant BamRegion.sqq = 14
bam_discriminant BamRegion.tyo = 15

pub data ExecutionResult : Type 0 where
  success execution_failure fees_only : ExecutionResult

-- `i32::from`
abbrev pub result_discriminant : ExecutionResult → ℤ
result_discriminant success = pos 0
result_discriminant execution_failure = pos 1
result_discriminant fees_only = pos 2

-- the oneof `SubscribeRequest.region`
pub data RequestRegion : Type 0 where
  harmonic_region bam_region : ℤ → RequestRegion

pub record Memcmp : Type 0 where
  pub offset : ℕ
  pub bytes : List ℕ

pub record InstructionFilter : Type 0 where
  pub program_id : Text
  pub memcmp : List Memcmp
  pub data_size : Option ℕ

pub record TransactionFilter : Type 0 where
  pub account_include : List Text
  pub account_exclude : List Text
  pub account_required : List Text
  pub signature : List Text
  pub execution_results : List ℤ
  pub signer_include : List Text
  pub signer_exclude : List Text
  pub instructions : List InstructionFilter

pub record SubscribeRequest : Type 0 where
  pub transactions : HashMap TransactionFilter
  pub region : Option RequestRegion

pub record HarmonicSlotStart : Type 0 where
  pub slot : ℕ
  pub region : Text

pub record HarmonicSlotEnd : Type 0 where
  pub slot : ℕ
  pub region : Text

pub record HarmonicTransaction : Type 0 where
  pub transaction : List ℕ
  pub slot : ℕ
  pub result : Option ℤ
  pub region : Text
  pub seq : ℕ

pub record BamTransaction : Type 0 where
  pub transaction : List ℕ
  pub slot : ℕ
  pub is_revert_on_error : Bool
  pub node : Text
  pub sequence : ℕ
  pub bundle_position : ℕ
  pub result : Option ℤ

pub record CoverageClip : Type 0 where
  pub transactions : ℕ

pub data Ping : Type 0 where
  empty_message : Ping

pub data HarmonicPayload : Type 0 where
  transaction : HarmonicTransaction → HarmonicPayload
  ping : Ping → HarmonicPayload
  slot_start : HarmonicSlotStart → HarmonicPayload
  slot_end : HarmonicSlotEnd → HarmonicPayload
  clip : CoverageClip → HarmonicPayload

pub record HarmonicUpdate : Type 0 where
  pub filters : List Text
  pub payload : Option HarmonicPayload

pub data BamPayload : Type 0 where
  transaction : BamTransaction → BamPayload
  ping : Ping → BamPayload
  clip : CoverageClip → BamPayload

pub record BamUpdate : Type 0 where
  pub filters : List Text
  pub payload : Option BamPayload
