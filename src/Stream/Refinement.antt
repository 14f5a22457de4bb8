-- ===== src/Stream/Refinement.antt =====
-- `poll_next` keeps the protocol: each round of its loop is a step.
use preconfs_client.Prelude.{
  ℕ, ◌≡◌, ◌⊎◌, inl, inr, refl, sym, ap, subst, Bool, true, false, not, ◌&&◌, Option, none, some,
  Result, ok, err, arith, Bool-cases, Option-cases, if-true, if-false,
}
use preconfs_client.Errors.{StreamError, closed}
use preconfs_client.Reconnect.{Reconnect, exhausted, retryable}
use preconfs_client.Event.{Event}
use preconfs_client.Stream.{
  Poll, ready, pending, Deps, EventStream, State, streaming, waiting, connecting, ended, Item,
  is_slot_start, fail, resubscribe, Turn, returns, again, after_fail, deliver, on_update, on_stream,
  on_connecting, on_sleep, turn_in, turn,
}
use preconfs_client.Stream.Failure.{is_final, fail-unscheduled, fail-final, fail-waits}
use preconfs_client.Stream.Protocol.{
  Phase, live, backing_off, dialing, view, phase_of, after_failure, GivesUp, unscheduled,
  not_retryable, out_of_retries, Step, idle, dropped, delivered, retried, gave_up, redialed,
  resumed,
}

module _ {Client Status : Type 0} (deps : Deps Client Status) where
  open deps use {code, feed, float, io}

  -- What no round changes.
  pub record SameSetup (s s' : EventStream deps) : Type 0 where
    pub client : s'.client ≡ s.client
    pub request : s'.request ≡ s.request
    pub reconnect : s'.reconnect ≡ s.reconnect

  abbrev pub item_of : Poll (Option (Item deps)) → Option (Item deps)
  item_of pending = none
  item_of (ready item) = item

  abbrev pub Refines : EventStream deps → Turn deps → Type 0
  Refines s (again s' w) = Step deps s.reconnect (view deps s) none (view deps s') × SameSetup s s'
  Refines s (returns answer s' w) =
      Step deps s.reconnect (view deps s) (item_of answer) (view deps s') × SameSetup s s'

  -- The view of a stream of a known phase.
  view_in :
      (s : EventStream deps) (p : Phase)
      → phase_of s.state ≡ p
      → record { phase = p; attempts = s.attempts; framed = s.framed } ≡ view deps s
  view_in s p e = λ i. record { phase = sym e i; attempts = s.attempts; framed = s.framed }

  kept :
      (s : EventStream deps) (st : State io.Streaming io.Sleep io.Connecting) (n : ℕ) (b : Bool)
      → SameSetup s (record s { state = st; attempts = n; framed = b })
  kept s st n b = record { client = refl; request = refl; reconnect = refl }

  on_sleep-Refines :
      (s : EventStream deps) (r : Poll (Unit {0}) × io.Sleep × io.World)
      → phase_of s.state ≡ backing_off
      → Refines s (on_sleep deps s r)
  unfolding on_sleep resubscribe
  on_sleep-Refines s (pending, timer, w) e =
      (idle refl (view_in s backing_off e), kept s (waiting timer) s.attempts s.framed)
  on_sleep-Refines s (ready u, timer, w) e = (
    redialed e refl refl,
    kept s (connecting (io.subscribe s.client s.request)) s.attempts s.framed,
  )

  -- A failure, with the state already overwritten by what was polled.
  after_fail-Refines :
      (s : EventStream deps) (st : State io.Streaming io.Sleep io.Connecting)
      (error : StreamError Status) (w : io.World)
      → (phase_of s.state ≡ live) ⊎ (phase_of s.state ≡ dialing)
      → Refines s (after_fail deps (fail deps (record s { state = st }) error w))
  unfolding after_fail
  after_fail-Refines s st error w at = elim (Option-cases s.reconnect) [
    | inl e ↦
        subst (λ x. Refines s (after_fail deps x)) (sym (fail-unscheduled deps t error w e))
          (
            gave_up error s.attempts at (unscheduled e refl) refl refl,
            kept s ended s.attempts s.framed,
          )
    | inr (r, e) ↦ elim (Bool-cases (is_final deps r t error)) [
      | inl final ↦
          subst (λ x. Refines s (after_fail deps x)) (sym (fail-final deps t error w r e final))
            (
              gave_up error (after_failure s.attempts) at (final_GivesUp r e final) refl refl,
              kept s ended (after_failure s.attempts) s.framed,
            )
      | inr waits ↦
          subst (λ x. Refines s (after_fail deps x)) (sym (fail-waits deps t error w r e waits))
            (
              retried r error at e (retry_ok r waits) (retry_left r waits) refl refl,
              kept s (waiting _) (after_failure s.attempts) s.framed,
            )
    ]
  ]
    where
      t : EventStream deps
      t = record s { state = st }

      final_GivesUp :
          (r : Reconnect float)
          → s.reconnect ≡ some r
          → is_final deps r t error ≡ true
          → GivesUp deps s.reconnect s.attempts error (after_failure s.attempts)
      final_GivesUp r e h = elim (Bool-cases (retryable code error)) [
        | inl yes_retry ↦ out_of_retries r e (ground arith) refl
        | inr no_retry ↦ not_retryable r e no_retry refl
      ]

      retry_ok :
          (r : Reconnect float) → is_final deps r t error ≡ false → retryable code error ≡ true
      retry_ok r h = ground arith

      retry_left :
          (r : Reconnect float)
          → is_final deps r t error ≡ false
          → exhausted float r (after_failure s.attempts) ≡ false
      retry_left r h = ground arith

  on_connecting-Refines :
      (s : EventStream deps) (r : Poll (Result Status io.Streaming) × io.Connecting × io.World)
      → phase_of s.state ≡ dialing
      → Refines s (on_connecting deps s r)
  unfolding on_connecting
  on_connecting-Refines s (pending, future, w) e =
      (idle refl (view_in s dialing e), kept s (connecting future) s.attempts s.framed)
  on_connecting-Refines s (ready (ok stream), future, w) e =
      (resumed e refl refl, kept s (streaming stream) s.attempts (not feed.slot_framing))
  on_connecting-Refines s (ready (err status), future, w) e =
      after_fail-Refines s (connecting future) (StreamError.status status) w (inr e)

  -- An update: no event, an event before the framing, or one that is delivered.
  on_update-Refines :
      (s : EventStream deps) (stream : io.Streaming) (update : feed.Update)
      (o : Option (Event feed.Transaction)) (w : io.World)
      → feed.into_event update ≡ o
      → phase_of s.state ≡ live
      → Refines s (on_update deps (record s { state = streaming stream }) o w)
  unfolding on_update deliver
  on_update-Refines s stream update none w o e =
      (idle refl (view_in s live e), kept s (streaming stream) s.attempts s.framed)
  on_update-Refines s stream update (some event) w o e =
      elim (Bool-cases (not s.framed && not (is_slot_start event))) [
        | inl early ↦ subst (Refines s) (sym (if-true _ _ _ early)) (
          dropped event e (ground arith) (ground arith) refl (view_in s live e),
          kept s (streaming stream) s.attempts s.framed,
        )
        | inr on_time ↦
            subst (Refines s) (sym (if-false _ _ _ on_time)) (
              delivered update event e o (ground arith) refl refl,
              kept s (streaming stream) 0 true,
            )
      ]

  on_stream-Refines :
      (s : EventStream deps)
      (r : Poll (Option (Result Status feed.Update)) × io.Streaming × io.World)
      → phase_of s.state ≡ live
      → Refines s (on_stream deps s r)
  unfolding on_stream
  on_stream-Refines s (pending, stream, w) e =
      (idle refl (view_in s live e), kept s (streaming stream) s.attempts s.framed)
  on_stream-Refines s (ready none, stream, w) e =
      after_fail-Refines s (streaming stream) closed w (inl e)
  on_stream-Refines s (ready (some (err status)), stream, w) e =
      after_fail-Refines s (streaming stream) (StreamError.status status) w (inl e)
  on_stream-Refines s (ready (some (ok update)), stream, w) e =
      on_update-Refines s stream update _ w refl e

  turn_in-Refines :
      (st : State io.Streaming io.Sleep io.Connecting) (s : EventStream deps) (w : io.World)
      → s.state ≡ st
      → Refines s (turn_in deps st s w)
  unfolding turn_in
  turn_in-Refines ended s w e = (idle refl refl, kept s s.state s.attempts s.framed)
  turn_in-Refines (waiting timer) s w e = on_sleep-Refines s _ (ap phase_of e)
  turn_in-Refines (connecting future) s w e = on_connecting-Refines s _ (ap phase_of e)
  turn_in-Refines (streaming stream) s w e = on_stream-Refines s _ (ap phase_of e)

  -- Each round of the loop of `poll_next` is a step of the protocol, under the schedule of the stream,
  -- that yields what the round returns; it leaves the client, the request and the schedule alone.
  pub turn-Refines : (s : EventStream deps) (w : io.World) → Refines s (turn deps s w)
  unfolding turn
  turn-Refines s w = turn_in-Refines s.state s w refl
