-- ===== src/Event/Tests.antt =====
-- Runs of the theorems on the updates.
use preconfs_client.Prelude.{◌≡◌, refl, some, [], ◌∷◌, codes}
use preconfs_client.Proto.{BamTransaction, BamUpdate, BamPayload}
use preconfs_client.Event.{Event, clip, bam_event}

abbrev clipped : BamUpdate
clipped = record {
  filters = codes "dex" ∷ [];
  payload = some (BamPayload.clip (record { transactions = 3 }));
}

abbrev three : Event BamTransaction
three = clip 3

clipped_event : bam_event clipped ≡ some three
unfolding bam_event
clipped_event = refl
