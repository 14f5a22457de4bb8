-- ===== src/Stream/Scenarios.antt =====
-- Runs of the theorems on delivery, on outages and on the ends of streams.
use preconfs_client.Prelude.{
  false, ◌≡◌, refl, none, some, List, [], ◌∷◌, ◌++◌, map, ok, err, arith, length, codes, All,
}
use preconfs_client.Errors.{Code, StreamError, unavailable, closed}
use preconfs_client.Proto.{HarmonicUpdate, HarmonicPayload, empty_message}
use preconfs_client.Event.{reconnected, slot_start, harmonic_event, harmonic_payload_event}
use preconfs_client.Reconnect.{retryable, retryable_code, exhausted}
use preconfs_client.Stream.{
  turn, turn_in, on_stream, on_update, deliver, on_connecting, on_sleep, resubscribe, after_fail,
  fail, fail_in, fail_with, EventStream, new, next_items, poll_next, streaming,
}
use preconfs_client.Stream.Protocol.{view}
use preconfs_client.Stream.Delivery.{events_of, polls-eq-events_of}
use preconfs_client.Stream.Machine.{Answer, Gives, replay, polls}
use preconfs_client.Stream.Replay.{polls-eq-replay}
use preconfs_client.Stream.Redials.{Back, Affordable}
use preconfs_client.Stream.Calls.{Called, joined, next_items-eq-replay}
use preconfs_client.Stream.GivingUp.{failures, outage_ends}
use preconfs_client.Stream.Recovery.{outage_recovers}
use preconfs_client.Stream.Invariant.{IsValid, next_items-IsValid}
use preconfs_client.Stream.Ends.{Ends, NoNotice, next_items-Ends, next_items-NoNotice}
use preconfs_client.Stream.Script.{fired, opened, sent, Script, deps, twice, request}

abbrev update : HarmonicPayload → HarmonicUpdate
update payload = record { filters = []; payload = some payload }

abbrev clipped : HarmonicUpdate
clipped = update (HarmonicPayload.clip (record { transactions = 2 }))

abbrev started_slot : HarmonicUpdate
started_slot = update (HarmonicPayload.slot_start (record { slot = 7; region = codes "ams" }))

abbrev pinged : HarmonicUpdate
pinged = update (HarmonicPayload.ping empty_message)

-- A clip that is held back, a slot, a ping and a clip.
abbrev received : List HarmonicUpdate
received = clipped ∷ started_slot ∷ pinged ∷ clipped ∷ []

abbrev receiving : Script
receiving = map (λ u. sent (some (ok u))) received

abbrev plain : EventStream deps
plain = new deps 0 request none 1

plain_live : plain.state ≡ streaming 1
unfolding new
plain_live = refl

polls-eq-events_of_example :
    polls deps 4 (length (events_of deps received plain.framed)) plain receiving
    ≡ map ok (events_of deps received plain.framed)
polls-eq-events_of_example =
    polls-eq-events_of deps received 4 plain 1 receiving plain_live
      (refl, (refl, (refl, (refl, tt)))) (omega arith)

two_events : length (events_of deps received false) ≡ 2
unfolding events_of harmonic_event harmonic_payload_event
two_events = refl

abbrev scheduled : EventStream deps
scheduled = new deps 0 request (some twice) 1

scheduled_live : scheduled.state ≡ streaming 1
unfolding new
scheduled_live = refl

-- A drop, an attempt that fails and one that opens a stream.
abbrev outage : Script
outage = sent none ∷ fired ∷ opened (err unavailable) ∷ fired ∷ opened (ok 3) ∷ []

affordable : Affordable deps twice 0 request 2
affordable = record { within = λ max e. ground arith; small = omega arith }

outage_recovers_example : Back deps twice 0 request (poll_next deps 5 scheduled outage) 2
unfolding new retryable
outage_recovers_example =
    outage_recovers deps twice 1 0 5 scheduled 1 outage none closed refl refl refl refl refl refl
      (refl, (unavailable, refl, refl, (refl, (3, refl)))) affordable (omega arith)

-- The same with a slot behind it, one answer at a time.
abbrev answers : List (Answer deps)
answers =
    Answer.sent none
    ∷ Answer.fired
    ∷ Answer.opened (err unavailable)
    ∷ Answer.fired
    ∷ Answer.opened (ok 3)
    ∷ Answer.sent (some (ok clipped))
    ∷ Answer.sent (some (ok started_slot))
    ∷ []

abbrev outage_and_slot : Script
outage_and_slot = outage ++ (sent (some (ok clipped)) ∷ sent (some (ok started_slot)) ∷ [])

outage_given : Gives deps answers scheduled outage_and_slot
unfolding turn turn_in on_stream on_update deliver on_connecting on_sleep resubscribe after_fail
    fail fail_in fail_with new exhausted retryable retryable_code harmonic_event
    harmonic_payload_event
outage_given = (refl, (refl, (refl, (refl, (refl, (refl, (refl, tt)))))))

polls-eq-replay_example :
    let items = replay deps (some twice) answers (view deps scheduled) in
    polls deps 7 (length items) scheduled outage_and_slot ≡ items
unfolding new
polls-eq-replay_example =
    polls-eq-replay deps answers 7 scheduled outage_and_slot outage_given (omega arith)

-- The clip is held back, since the framing starts over.
outage_replayed :
    replay deps (some twice) answers (view deps scheduled)
    ≡ ok (reconnected 2) ∷ ok (slot_start 7) ∷ []
unfolding replay new exhausted retryable retryable_code harmonic_event harmonic_payload_event
outage_replayed = refl

-- Three calls: one takes the outage, one finds nothing, and one takes the clip and the slot.
abbrev recovered : List (Answer deps)
recovered =
    Answer.sent none
    ∷ Answer.fired
    ∷ Answer.opened (err unavailable)
    ∷ Answer.fired
    ∷ Answer.opened (ok 3)
    ∷ []

abbrev resumed : List (Answer deps)
resumed = Answer.sent (some (ok clipped)) ∷ Answer.sent (some (ok started_slot)) ∷ []

abbrev worlds : List Script
worlds = outage ∷ [] ∷ (sent (some (ok clipped)) ∷ sent (some (ok started_slot)) ∷ []) ∷ []

three_calls : Called deps 6 (recovered ∷ [] ∷ resumed ∷ []) worlds scheduled
unfolding turn turn_in on_stream on_update deliver on_connecting on_sleep resubscribe after_fail
    fail fail_in fail_with new exhausted retryable retryable_code harmonic_event
    harmonic_payload_event
three_calls = (
  (refl, (refl, (refl, (refl, (refl, refl))))),
  (omega arith),
  (refl, omega arith, ((refl, (refl, refl)), omega arith, tt)),
)

next_items-eq-replay_example :
    (next_items deps 6 worlds scheduled).0
    ≡ replay deps (some twice) (joined deps (recovered ∷ [] ∷ resumed ∷ [])) (view deps scheduled)
unfolding new
next_items-eq-replay_example =
    next_items-eq-replay deps 6 (recovered ∷ [] ∷ resumed ∷ []) worlds scheduled three_calls

-- A drop and two attempts that fail, as many as `twice` allows.
abbrev lasting_outage : Script
lasting_outage =
    sent none ∷ fired ∷ opened (err unavailable) ∷ fired ∷ opened (err unavailable) ∷ []

abbrev refusals : List Code
refusals = unavailable ∷ unavailable ∷ []

lasting_given : Gives deps (Answer.sent none ∷ failures deps refusals) scheduled lasting_outage
unfolding turn turn_in on_stream on_connecting on_sleep resubscribe after_fail fail fail_in
    fail_with new exhausted retryable retryable_code
lasting_given = (refl, (refl, (refl, (refl, (refl, tt)))))

outage_ends_example :
    polls deps 5 1 scheduled lasting_outage ≡ err (StreamError.status unavailable) ∷ []
unfolding new retryable retryable_code
outage_ends_example =
    outage_ends deps twice 2 5 scheduled 1 lasting_outage none closed refusals refl refl
      (omega arith) refl refl refl refl (refl, (refl, tt)) lasting_given (omega arith)

next_items-IsValid_example :
    IsValid deps (some twice) (view deps (next_items deps 8 (outage ∷ []) scheduled).1)
next_items-IsValid_example = next_items-IsValid deps 0 request (some twice) 1 8 (outage ∷ [])

next_items-Ends_example :
    Ends deps
      (view deps (next_items deps 8 (outage ∷ []) plain).1).phase
      (next_items deps 8 (outage ∷ []) plain).0
next_items-Ends_example = next_items-Ends deps 0 request none 1 8 (outage ∷ [])

next_items-NoNotice_example : All (NoNotice deps) (next_items deps 8 (outage ∷ []) plain).0
next_items-NoNotice_example = next_items-NoNotice deps 0 request 1 8 (outage ∷ [])
