-- ===== src/Event/Mapping.antt =====
-- The two feeds as implementations of `FeedUpdate`.
use preconfs_client.Prelude.{
  ℕ, ◌≡◌, ◌≢◌, sym, ap, ◌∙◌, ◌⊎◌, inl, inr, refl, true, false, none, some, List, Text, arith,
  Option-cases, ◌↔◌,
}
use preconfs_client.Proto.{
  HarmonicTransaction, HarmonicUpdate, HarmonicPayload, BamTransaction, BamUpdate, BamPayload, Ping,
}
use preconfs_client.Event.{
  Event, transaction, clip, reconnected, harmonic_event, bam_event, harmonic_payload_event,
  bam_payload_event, FeedUpdate,
}

pub harmonic_no_reconnected : (u : HarmonicUpdate) (n : ℕ) → harmonic_event u ≢ some (reconnected n)
unfolding harmonic_event
harmonic_no_reconnected u n h = ground arith

pub bam_no_reconnected : (u : BamUpdate) (n : ℕ) → bam_event u ≢ some (reconnected n)
unfolding bam_event
bam_no_reconnected u n h = ground arith

abbrev pub harmonic_feed : FeedUpdate
harmonic_feed = record {
  Update = HarmonicUpdate;
  Transaction = HarmonicTransaction;
  slot_framing = true;
  into_event = harmonic_event;
  no_reconnected = harmonic_no_reconnected;
}

abbrev pub bam_feed : FeedUpdate
bam_feed = record {
  Update = BamUpdate;
  Transaction = BamTransaction;
  slot_framing = false;
  into_event = bam_event;
  no_reconnected = bam_no_reconnected;
}

bam_payload_kinds :
    (filters : List Text) (p : BamPayload) (e : Event BamTransaction)
    → bam_payload_event filters p ≡ some e
    → ((t : BamTransaction) × (e ≡ transaction (record { filters = filters; transaction = t })))
      ⊎ ((n : ℕ) × (e ≡ clip n))
unfolding bam_payload_event
bam_payload_kinds filters (BamPayload.transaction t) e h = inl (t, cc)
bam_payload_kinds filters (BamPayload.clip notice) e h = inr (notice.transactions, cc)
bam_payload_kinds filters (BamPayload.ping p) e h = cc

some_payload :
    (u : BamUpdate) {p : BamPayload}
    → u.payload ≡ some p
    → bam_event u ≡ bam_payload_event u.filters p
unfolding bam_event
some_payload u is_p = ground arith

no_payload : (u : BamUpdate) {e : Event BamTransaction} → u.payload ≡ none → bam_event u ≢ some e
unfolding bam_event
no_payload u nothing h = ground arith

-- A BAM message is a transaction with the names of the update's filters, or a clip notice; never a
-- slot boundary or a reconnect.
pub bam_event_kinds :
    (u : BamUpdate) (e : Event BamTransaction)
    → bam_event u ≡ some e
    → ((t : BamTransaction) × (e ≡ transaction (record { filters = u.filters; transaction = t })))
      ⊎ ((n : ℕ) × (e ≡ clip n))
bam_event_kinds u e h = elim (Option-cases u.payload) [
  | inl nothing ↦ absurd (no_payload u nothing h)
  | inr (p, is_p) ↦ bam_payload_kinds u.filters p e (sym (some_payload u is_p) ∙ h)
]

ping_payload :
    (filters : List Text) (p : HarmonicPayload)
    → harmonic_payload_event filters p ≡ none
    → (x : Ping) × (p ≡ HarmonicPayload.ping x)
unfolding harmonic_payload_event
ping_payload filters (HarmonicPayload.ping x) h = (x, refl)
ping_payload filters (HarmonicPayload.transaction t) h = cc
ping_payload filters (HarmonicPayload.slot_start start) h = cc
ping_payload filters (HarmonicPayload.slot_end end) h = cc
ping_payload filters (HarmonicPayload.clip notice) h = cc

some_harmonic_payload :
    (u : HarmonicUpdate) {p : HarmonicPayload}
    → u.payload ≡ some p
    → harmonic_event u ≡ harmonic_payload_event u.filters p
unfolding harmonic_event
some_harmonic_payload u is_p = ground arith

-- A Harmonic message is no event exactly when its payload is a ping or is missing.
pub harmonic_event-none_iff :
    (u : HarmonicUpdate)
    → (harmonic_event u ≡ none)
      ↔ ((u.payload ≡ none) ⊎ ((p : Ping) × (u.payload ≡ some (HarmonicPayload.ping p))))
unfolding harmonic_event
harmonic_event-none_iff u = (
  (λ h. elim (Option-cases u.payload) [
    | inl nothing ↦ inl nothing
    | inr (p, is_p) ↦
        let (x, is_ping) = ping_payload u.filters p (sym (some_harmonic_payload u is_p) ∙ h) in
        inr (x, is_p ∙ ap some is_ping)
  ]),
  λ h. ground arith,
)
