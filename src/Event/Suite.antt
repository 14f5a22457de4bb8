-- ===== src/Event/Suite.antt =====
-- preconfs-client/src/stream.rs: the unit tests of the module, each as the product of what it asserts.
use preconfs_client.Prelude.{◌≡◌, refl, ℕ, false, none, some, Option, [], ◌∷◌, Text, codes, List}
use preconfs_client.Proto.{
  HarmonicTransaction, HarmonicUpdate, HarmonicPayload, BamTransaction, BamPayload, empty_message,
}
use preconfs_client.Event.{
  Event, Matched, slot_start, slot_end, clip, transaction, harmonic_event, harmonic_payload_event,
  bam_event, bam_payload_event,
}

abbrev mine : List Text
mine = codes "mine" ∷ []

abbrev harmonic : HarmonicPayload → HarmonicUpdate
harmonic payload = record { filters = mine; payload = some payload }

-- The transactions with a slot and the default of every other field.
abbrev harmonic_at : ℕ → HarmonicTransaction
harmonic_at slot = record { transaction = []; slot = slot; result = none; region = []; seq = 0 }

abbrev bam_at : ℕ → BamTransaction
bam_at slot = record {
  transaction = [];
  slot = slot;
  is_revert_on_error = false;
  node = [];
  sequence = 0;
  bundle_position = 0;
  result = none;
}

-- What is asserted in the arm of a transaction; every other arm panics.
abbrev IsTransaction : {T : Type 0} → Option (Event T) → (Matched T → Type 0) → Type 0
IsTransaction (some (transaction matched)) P = P matched
IsTransaction _ P = ⊥

abbrev HarmonicPayloadsMapToEventsAndPingsVanish : Type 0
HarmonicPayloadsMapToEventsAndPingsVanish =
    (harmonic_event
        (harmonic (HarmonicPayload.slot_start (record { slot = 7; region = codes "ams" })))
      ≡ some (slot_start 7))
    × (harmonic_event
          (harmonic (HarmonicPayload.slot_end (record { slot = 7; region = codes "ams" })))
        ≡ some (slot_end 7))
    × (harmonic_event (harmonic (HarmonicPayload.clip (record { transactions = 3 })))
        ≡ some (clip 3))
    × (harmonic_event (harmonic (HarmonicPayload.ping empty_message)) ≡ none)
    × (harmonic_event (record { filters = []; payload = none }) ≡ none)
    × IsTransaction (harmonic_event (harmonic (HarmonicPayload.transaction (harmonic_at 7))))
        (λ matched. (matched.filters ≡ mine) × (matched.transaction.slot ≡ 7))

harmonic_payloads_map_to_events_and_pings_vanish : HarmonicPayloadsMapToEventsAndPingsVanish
unfolding harmonic_event harmonic_payload_event
harmonic_payloads_map_to_events_and_pings_vanish = (refl, refl, refl, refl, refl, (refl, refl))

abbrev BamPayloadsMapToEvents : Type 0
BamPayloadsMapToEvents =
    IsTransaction
      (bam_event (record { filters = mine; payload = some (BamPayload.transaction (bam_at 9)) }))
      (λ matched. matched.transaction.slot ≡ 9)
    × (bam_event (record { filters = []; payload = some (BamPayload.ping empty_message) }) ≡ none)

bam_payloads_map_to_events : BamPayloadsMapToEvents
unfolding bam_event bam_payload_event
bam_payloads_map_to_events = (refl, refl)
