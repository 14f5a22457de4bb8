-- ===== src/Event.antt =====
-- preconfs-client/src/stream.rs: events, and how the update messages of the two feeds map to them.
mod Tests
mod Suite
pub mod Mapping
use preconfs_client.Prelude.{ℕ, Bool, true, false, ◌≡◌, ◌≢◌, Option, none, some, List, Text}
use preconfs_client.Proto.{
  HarmonicTransaction, HarmonicUpdate, HarmonicPayload, BamTransaction, BamUpdate, BamPayload,
}

pub record Matched (T : Type 0) : Type 0 where
  pub filters : List Text
  pub transaction : T

pub data Event (T : Type 0) : Type 0 where
  slot_start : (slot : ℕ) → Event T
  transaction : Matched T → Event T
  slot_end : (slot : ℕ) → Event T
  clip : (transactions : ℕ) → Event T
  reconnected : (attempts : ℕ) → Event T

-- the match in `HarmonicUpdate::into_event`
unfoldable pub harmonic_payload_event :
    List Text → HarmonicPayload → Option (Event HarmonicTransaction)
harmonic_payload_event filters (HarmonicPayload.transaction t) =
    some (transaction (record { filters = filters; transaction = t }))
harmonic_payload_event filters (HarmonicPayload.slot_start start) = some (slot_start start.slot)
harmonic_payload_event filters (HarmonicPayload.slot_end end) = some (slot_end end.slot)
harmonic_payload_event filters (HarmonicPayload.clip notice) = some (clip notice.transactions)
harmonic_payload_event filters (HarmonicPayload.ping p) = none

unfoldable pub harmonic_event : HarmonicUpdate → Option (Event HarmonicTransaction)
unfolding harmonic_payload_event
harmonic_event self = elim self.payload [
  | none ↦ none
  | some payload ↦ harmonic_payload_event self.filters payload
]

-- the match in `BamUpdate::into_event`
unfoldable pub bam_payload_event : List Text → BamPayload → Option (Event BamTransaction)
bam_payload_event filters (BamPayload.transaction t) =
    some (transaction (record { filters = filters; transaction = t }))
bam_payload_event filters (BamPayload.clip notice) = some (clip notice.transactions)
bam_payload_event filters (BamPayload.ping p) = none

unfoldable pub bam_event : BamUpdate → Option (Event BamTransaction)
unfolding bam_payload_event
bam_event self = elim self.payload [
  | none ↦ none
  | some payload ↦ bam_payload_event self.filters payload
]

-- The trait `FeedUpdate`, without the call that opens the stream, which is with the transport. The
-- stream relies on the law: a message of the feed is never taken for a reconnect.
pub record FeedUpdate : Type 1 where
  pub Update : Type 0
  pub Transaction : Type 0
  pub slot_framing : Bool
  pub into_event : Update → Option (Event Transaction)
  pub no_reconnected : (u : Update) (attempts : ℕ) → into_event u ≢ some (reconnected attempts)
