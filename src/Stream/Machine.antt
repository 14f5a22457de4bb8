-- ===== src/Stream/Machine.antt =====
-- A definition of what a stream yields by recursion on the answers that it receives, without the
-- transport, the timers and the loop: a machine that takes one answer at a time.
use preconfs_client.Prelude.{
  ℕ, zero, suc, true, not, ◌||◌, Option, none, some, List, [], ◌∷◌, Result, ok, err, ◌≡◌,
  if◌then◌else◌,
}
use preconfs_client.Errors.{StreamError, closed}
use preconfs_client.Event.{Event, reconnected}
use preconfs_client.Reconnect.{Reconnect, exhausted, retryable}
use preconfs_client.Stream.{
  ready, Deps, EventStream, State, streaming, waiting, connecting, is_slot_start, Item, Turn,
  returns, again, turn, Outcome, poll_next,
}
use preconfs_client.Stream.Protocol.{Phase, live, backing_off, dialing, over, View, after_failure}

module _ {Client Status : Type 0} (deps : Deps Client Status) where
  open deps use {code, feed, float, io}

  -- What the outside can answer: a timer that fires, an attempt to open a stream that ends, and what
  -- the raw stream gives.
  pub data Answer : Type 0 where
    fired : Answer
    opened : Result Status io.Streaming → Answer
    sent : Option (Result Status feed.Update) → Answer

  -- What the machine yields, and the view that it goes on with.
  abbrev pub Output : Type 0
  Output = Option (Item deps) × View

  abbrev pub failed_with : Reconnect float → View → StreamError Status → Output
  failed_with r v error =
      let n = after_failure v.attempts in
      if not (retryable code error) || exhausted float r n
      then (some (err error), record { phase = over; attempts = n; framed = v.framed })
      else (none, record { phase = backing_off; attempts = n; framed = v.framed })

  abbrev pub failed : Option (Reconnect float) → View → StreamError Status → Output
  failed none v error = (some (err error), record v { phase = over })
  failed (some r) v error = failed_with r v error

  abbrev pub received : View → Option (Event feed.Transaction) → Output
  received v none = (none, v)
  received v (some event) =
      if v.framed || is_slot_start event
      then (some (ok event), record v { attempts = 0; framed = true })
      else (none, v)

  abbrev pub step_live :
      Option (Reconnect float) → View → Option (Result Status feed.Update) → Output
  step_live schedule v none = failed schedule v closed
  step_live schedule v (some (err status)) = failed schedule v (StreamError.status status)
  step_live schedule v (some (ok update)) = received v (feed.into_event update)

  abbrev pub step_dialing : Option (Reconnect float) → View → Result Status io.Streaming → Output
  step_dialing schedule v (ok stream) = (
    some (ok (reconnected v.attempts)),
    record v { phase = live; framed = not feed.slot_framing },
  )
  step_dialing schedule v (err status) = failed schedule v (StreamError.status status)

  -- One answer. An answer that the phase does not wait for changes nothing.
  abbrev pub step_in : Phase → Option (Reconnect float) → View → Answer → Output
  step_in live schedule v (sent r) = step_live schedule v r
  step_in dialing schedule v (opened r) = step_dialing schedule v r
  step_in backing_off schedule v fired = (none, record v { phase = dialing })
  step_in _ schedule v a = (none, v)

  abbrev pub step : Option (Reconnect float) → View → Answer → Output
  step schedule v a = step_in v.phase schedule v a

  abbrev pub and_items : Option (Item deps) → List (Item deps) → List (Item deps)
  and_items none rest = rest
  and_items (some item) rest = item ∷ rest

  -- The items of a list of answers.
  unfoldable pub replay : Option (Reconnect float) → List Answer → View → List (Item deps)
  replay schedule [] v = []
  replay schedule (a ∷ answers) v =
      let out = step schedule v a in and_items out.0 (replay schedule answers out.1)

  -- The world has this answer ready for what the stream polls in its state.
  abbrev pub GivesIn : State io.Streaming io.Sleep io.Connecting → io.World → Answer → Type 0
  GivesIn (waiting timer) w fired = (io.poll_sleep timer w).0 ≡ ready tt
  GivesIn (connecting future) w (opened r) = (io.poll_connecting future w).0 ≡ ready r
  GivesIn (streaming stream) w (sent r) = (io.poll_stream stream w).0 ≡ ready r
  GivesIn _ w a = ⊥

  -- The stream and the world behind a round.
  abbrev pub behind_turn : Turn deps → EventStream deps × io.World
  behind_turn (returns answer s w) = (s, w)
  behind_turn (again s w) = (s, w)

  -- The answers that the world has ready for a stream, one for each round of the loop.
  abbrev pub Gives : List Answer → EventStream deps → io.World → Type 0
  Gives [] s w = Unit
  Gives (a ∷ answers) s w =
      let next = behind_turn (turn deps s w) in GivesIn s.state w a × Gives answers next.0 next.1

  -- The items of `n` calls of `poll_next`, each in the world that the one before left.
  abbrev pub gather_polls :
      Option (Outcome deps) → (EventStream deps → io.World → List (Item deps)) → List (Item deps)
  gather_polls (some (ready (some item), s, w)) rest = item ∷ rest s w
  gather_polls _ rest = []

  unfoldable pub polls : ℕ → ℕ → EventStream deps → io.World → List (Item deps)
  polls fuel zero s w = []
  polls fuel (suc n) s w = gather_polls (poll_next deps fuel s w) (polls fuel n)
