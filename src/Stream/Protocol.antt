-- ===== src/Stream/Protocol.antt =====
-- What a stream promises, with the transport and the timers left out: a step relation on the phase,
-- the failure count and the framing flag, and its runs with the items that they yield.
use preconfs_client.Prelude.{
  ℕ, ◌+◌, ◌%◌, ◌≡◌, ◌⊎◌, Bool, true, false, not, Option, none, some, List, [], ◌∷◌, ok, err,
}
use preconfs_client.Errors.{StreamError}
use preconfs_client.Reconnect.{Reconnect, exhausted, retryable}
use preconfs_client.Event.{Event, reconnected}
use preconfs_client.Stream.{
  Deps, EventStream, State, streaming, waiting, connecting, ended, Item, is_slot_start, u32_mod,
}

pub data Phase : Type 0 where
  live backing_off dialing over : Phase

pub record View : Type 0 where
  pub phase : Phase
  pub attempts : ℕ
  pub framed : Bool

abbrev pub phase_of :
    {Streaming Sleep Connecting : Type 0} → State Streaming Sleep Connecting → Phase
phase_of (streaming stream) = live
phase_of (waiting timer) = backing_off
phase_of (connecting future) = dialing
phase_of ended = over

abbrev pub after_failure : ℕ → ℕ
after_failure attempts = (attempts + 1) % u32_mod

module _ {Client Status : Type 0} (deps : Deps Client Status) where
  open deps use {code, feed, float}

  abbrev pub view : EventStream deps → View
  view s = record { phase = phase_of s.state; attempts = s.attempts; framed = s.framed }

  -- A schedule gives up on a failure that it cannot retry, or when the failures exhaust it.
  pub data GivesUp (schedule : Option (Reconnect float)) (n : ℕ) (e : StreamError Status) (m : ℕ)
      : Type 0 where
    unscheduled : schedule ≡ none → m ≡ n → GivesUp schedule n e m
    not_retryable :
        (r : Reconnect float)
        → schedule ≡ some r
        → retryable code e ≡ false
        → m ≡ after_failure n
        → GivesUp schedule n e m
    out_of_retries :
        (r : Reconnect float)
        → schedule ≡ some r
        → exhausted float r (after_failure n) ≡ true
        → m ≡ after_failure n
        → GivesUp schedule n e m

  -- One step of a stream with a schedule, and the item that it yields.
  pub data Step (schedule : Option (Reconnect float)) (v : View) (l : Option (Item deps))
      (v' : View) : Type 0 where
    idle : l ≡ none → v' ≡ v → Step schedule v l v'
    dropped :
        (event : Event feed.Transaction)
        → v.phase ≡ live
        → v.framed ≡ false
        → is_slot_start event ≡ false
        → l ≡ none
        → v' ≡ v
        → Step schedule v l v'
    delivered :
        (update : feed.Update) (event : Event feed.Transaction)
        → v.phase ≡ live
        → feed.into_event update ≡ some event
        → (v.framed ≡ true) ⊎ (is_slot_start event ≡ true)
        → l ≡ some (ok event)
        → v' ≡ record { phase = live; attempts = 0; framed = true }
        → Step schedule v l v'
    retried :
        (r : Reconnect float) (e : StreamError Status)
        → (v.phase ≡ live) ⊎ (v.phase ≡ dialing)
        → schedule ≡ some r
        → retryable code e ≡ true
        → exhausted float r (after_failure v.attempts) ≡ false
        → l ≡ none
        → v'
          ≡ record { phase = backing_off; attempts = after_failure v.attempts; framed = v.framed }
        → Step schedule v l v'
    gave_up :
        (e : StreamError Status) (n : ℕ)
        → (v.phase ≡ live) ⊎ (v.phase ≡ dialing)
        → GivesUp schedule v.attempts e n
        → l ≡ some (err e)
        → v' ≡ record { phase = over; attempts = n; framed = v.framed }
        → Step schedule v l v'
    redialed :
        v.phase ≡ backing_off
        → l ≡ none
        → v' ≡ record { phase = dialing; attempts = v.attempts; framed = v.framed }
        → Step schedule v l v'
    resumed :
        v.phase ≡ dialing
        → l ≡ some (ok (reconnected v.attempts))
        → v' ≡ record { phase = live; attempts = v.attempts; framed = not feed.slot_framing }
        → Step schedule v l v'

  -- Steps in a row, with the items that they yield.
  pub data Run (schedule : Option (Reconnect float)) : View → List (Item deps) → View → Type 0 where
    stop : {v : View} → Run schedule v [] v
    silent :
        {v u v' : View} {items : List (Item deps)}
        → Step schedule v none u
        → Run schedule u items v'
        → Run schedule v items v'
    yields :
        {v u v' : View} {item : Item deps} {items : List (Item deps)}
        → Step schedule v (some item) u
        → Run schedule u items v'
        → Run schedule v (item ∷ items) v'
