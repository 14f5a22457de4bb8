-- ===== src/Cli/Log.antt =====
-- examples/rust/src/main.rs: the lines that the program logs, as values with the fields of each line.
use preconfs_client.Prelude.{ℕ, Bool, Option, none, some, List, [], ◌∷◌, Text, Result, ok, err}
use preconfs_client.Proto.{ExecutionResult, HarmonicTransaction, BamTransaction}
use preconfs_client.Event.{Event, slot_start, transaction, slot_end, clip, reconnected}
use preconfs_client.Outcome.{Generated, harmonic_result, bam_result}
use preconfs_client.Parse.{Codec, parse_signature}
use preconfs_client.Client.{VersionResponse}

pub record HarmonicLine (Signature : Type 0) : Type 0 where
  pub slot : ℕ
  pub region : Text
  pub seq : ℕ
  pub result : Option ExecutionResult
  pub signature : Option Signature
  pub filters : List Text

pub record BamLine (Signature : Type 0) : Type 0 where
  pub slot : ℕ
  pub node : Text
  pub sequence : ℕ
  pub revert_on_error : Bool
  pub result : Option ExecutionResult
  pub signature : Option Signature
  pub filters : List Text

pub data Line (Signature : Type 0) : Type 0 where
  connected : VersionResponse → Line Signature
  harmonic_txn : HarmonicLine Signature → Line Signature
  bam_txn : BamLine Signature → Line Signature
  slot_started slot_ended clipped reconnected_again : ℕ → Line Signature
  stream_ended : Line Signature

-- `Result::ok`
abbrev pub to_option {ℓ κ} : {E : Type ℓ} {A : Type κ} → Result E A → Option A
to_option (ok a) = some a
to_option (err e) = none

module _ {Signature Pubkey : Type 0} (codec : Codec Signature Pubkey) (prost : Generated) where
  unfoldable pub log_harmonic : List Text → HarmonicTransaction → Line Signature
  log_harmonic filters txn = harmonic_txn (record {
    slot = txn.slot;
    region = txn.region;
    seq = txn.seq;
    result = harmonic_result prost txn;
    signature = to_option (parse_signature codec txn.transaction);
    filters = filters;
  })

  unfoldable pub log_bam : List Text → BamTransaction → Line Signature
  log_bam filters txn = bam_txn (record {
    slot = txn.slot;
    node = txn.node;
    sequence = txn.sequence;
    revert_on_error = txn.is_revert_on_error;
    result = bam_result prost txn;
    signature = to_option (parse_signature codec txn.transaction);
    filters = filters;
  })

unfoldable pub log_event : {T Signature : Type 0} → Event T → List (Line Signature)
log_event (slot_start slot) = slot_started slot ∷ []
log_event (slot_end slot) = slot_ended slot ∷ []
log_event (clip transactions) = clipped transactions ∷ []
log_event (reconnected attempts) = reconnected_again attempts ∷ []
log_event (transaction m) = []

-- the match on an event in `main`: `log` is the call for a transaction of the feed
unfoldable pub log_item :
    {T Signature : Type 0} → (List Text → T → Line Signature) → Event T → List (Line Signature)
unfolding log_event
log_item log (transaction m) = log m.filters m.transaction ∷ []
log_item log other = log_event other
