-- ===== src/Stream/Tests.antt =====
-- Runs of the theorems on streams, in a world that is a script of the answers to come.
use preconfs_client.Prelude.{false, ◌≡◌, refl, none, some, List, [], ◌∷◌, ok, err, arith, All}
use preconfs_client.Errors.{unavailable}
use preconfs_client.Proto.{HarmonicPayload}
use preconfs_client.Event.{slot_start, reconnected, harmonic_event, harmonic_payload_event}
use preconfs_client.Reconnect.{retryable, retryable_code, exhausted, interval}
use preconfs_client.Stream.{
  EventStream, Outcome, new, poll_next, next_items, turn, turn_in, on_stream, on_update, deliver,
  after_fail, fail, fail_in, fail_with, on_sleep, resubscribe, on_connecting, gather, proceed,
}
use preconfs_client.Stream.Protocol.{Run, view}
use preconfs_client.Stream.Drive.{next_items-Run}
use preconfs_client.Stream.Framing.{Framed, next_items-Framed}
use preconfs_client.Stream.Retries.{Retries, next_items-Retries}
use preconfs_client.Stream.Endings.{Justified, next_items-Justified}
use preconfs_client.Stream.Returns.{poll_next_returns}
use preconfs_client.Stream.Script.{fired, opened, sent, Script, deps, finite, twice, request, slot}

-- A slot, a drop, a failed and a good reconnect, a clip that the framing holds back, and a slot.
abbrev script : List Script
script =
    (slot 7 ∷ [])
    ∷ (sent none ∷ fired ∷ opened (err unavailable) ∷ fired ∷ opened (ok 1) ∷ [])
    ∷ (sent (
          some (
            ok (record {
              filters = [];
              payload = some (HarmonicPayload.clip (record { transactions = 2 }));
            })))
        ∷ slot 9
        ∷ [])
    ∷ []

abbrev started : EventStream deps
started = new deps 0 request (some twice) 1

next_items-Run_example :
    Run deps started.reconnect
      (view deps started)
      (next_items deps 8 script started).0
      (view deps (next_items deps 8 script started).1)
next_items-Run_example = next_items-Run deps 8 script started

next_items-Framed_example : Framed false (next_items deps 8 script started).0
next_items-Framed_example = next_items-Framed deps 0 request (some twice) 1 8 script refl

next_items-Retries_example : Retries 2 0 (next_items deps 8 script started).0
next_items-Retries_example = next_items-Retries deps twice 2 refl (omega arith) 0 request 1 8 script

next_items-Justified_example : All (Justified deps twice) (next_items deps 8 script started).0
next_items-Justified_example = next_items-Justified deps 0 request twice 1 8 script

poll_next_returns_example : (o : Outcome deps) × (poll_next deps 8 started (slot 7 ∷ []) ≡ some o)
poll_next_returns_example = poll_next_returns deps finite 8 started (slot 7 ∷ []) (omega arith)

script_items :
    (next_items deps 8 script started).0
    ≡ ok (slot_start 7) ∷ ok (reconnected 2) ∷ ok (slot_start 9) ∷ []
unfolding next_items poll_next turn turn_in new on_stream on_update harmonic_event
    harmonic_payload_event deliver after_fail fail fail_in fail_with retryable retryable_code
    exhausted on_sleep resubscribe on_connecting interval gather proceed
script_items = refl
