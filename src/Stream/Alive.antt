-- ===== src/Stream/Alive.antt =====
-- What a call of `poll_next` answers on a stream that has not ended, and the stream that it leaves.
use preconfs_client.Prelude.{
  ℕ, zero, suc, ◌≡◌, refl, ap, inl, inr, not, ◌&&◌, ◌||◌, Option, none, some, Result, ok, err,
  Bool-cases, if-true, if-false, sym, subst, List, [],
}
use preconfs_client.Errors.{StreamError, closed}
use preconfs_client.Event.{Event}
use preconfs_client.Reconnect.{Reconnect, exhausted, retryable}
use preconfs_client.Stream.{
  Poll, ready, pending, State, streaming, waiting, connecting, ended, Deps, EventStream, Turn,
  returns, again, Outcome, fail_with, fail_in, fail, after_fail, deliver, on_update, on_stream,
  on_connecting, on_sleep, resubscribe, turn_in, turn, proceed, poll_next, next_items,
  is_slot_start,
}
use preconfs_client.Stream.Protocol.{phase_of}
use preconfs_client.Stream.Drive.{next_items-Run}
use preconfs_client.Stream.Framing.{over_Run}

abbrev pub IsAlive :
    {Streaming Sleep Connecting : Type 0} → State Streaming Sleep Connecting → Type 0
IsAlive ended = ⊥
IsAlive _ = Unit

module _ {Client Status : Type 0} (deps : Deps Client Status) where
  open deps use {code, feed, float, io}

  -- An event leaves the stream alive, and so does an answer that is pending; an error ends it.
  abbrev pub Answered : Outcome deps → Type 0
  Answered (pending, s, w) = IsAlive s.state
  Answered (ready none, s, w) = ⊥
  Answered (ready (some (err e)), s, w) = s.state ≡ ended
  Answered (ready (some (ok event)), s, w) = IsAlive s.state

  abbrev Turned : Turn deps → Type 0
  Turned (returns answer s w) = Answered (answer, s, w)
  Turned (again s w) = IsAlive s.state

  abbrev AfterFail : Option (StreamError Status) × EventStream deps × io.World → Type 0
  AfterFail (none, s, w) = IsAlive s.state
  AfterFail (some e, s, w) = s.state ≡ ended

  fail_with-AfterFail :
      (r : Reconnect float) (s : EventStream deps) (e : StreamError Status) (w : io.World)
      → AfterFail (fail_with deps r s e w)
  unfolding fail_with
  fail_with-AfterFail r s e w =
      elim (Bool-cases (not (retryable code e) || exhausted float r s.attempts)) [
        | inl stops ↦ subst AfterFail (sym (if-true _ _ _ stops)) refl
        | inr tries ↦ subst AfterFail (sym (if-false _ _ _ tries)) tt
      ]

  fail_in-AfterFail :
      (schedule : Option (Reconnect float)) (s : EventStream deps) (e : StreamError Status)
      (w : io.World)
      → AfterFail (fail_in deps schedule s e w)
  unfolding fail_in
  fail_in-AfterFail none s e w = refl
  fail_in-AfterFail (some r) s e w = fail_with-AfterFail r _ e w

  after_fail-Turned :
      (r : Option (StreamError Status) × EventStream deps × io.World)
      → AfterFail r
      → Turned (after_fail deps r)
  unfolding after_fail
  after_fail-Turned (none, s, w) h = h
  after_fail-Turned (some e, s, w) h = h

  fail-Turned :
      (s : EventStream deps) (e : StreamError Status) (w : io.World)
      → Turned (after_fail deps (fail deps s e w))
  unfolding fail
  fail-Turned s e w = after_fail-Turned (fail deps s e w) (fail_in-AfterFail s.reconnect s e w)

  deliver-Turned :
      (s : EventStream deps) (event : Event feed.Transaction) (w : io.World)
      → IsAlive s.state
      → Turned (deliver deps s event w)
  unfolding deliver
  deliver-Turned s event w h = elim (Bool-cases (not s.framed && not (is_slot_start event))) [
    | inl drops ↦ subst Turned (sym (if-true _ _ _ drops)) h
    | inr passes ↦ subst Turned (sym (if-false _ _ _ passes)) h
  ]

  on_update-Turned :
      (s : EventStream deps) (o : Option (Event feed.Transaction)) (w : io.World)
      → IsAlive s.state
      → Turned (on_update deps s o w)
  unfolding on_update
  on_update-Turned s none w h = h
  on_update-Turned s (some event) w h = deliver-Turned s event w h

  on_stream-Turned :
      (s : EventStream deps)
      (p : Poll (Option (Result Status feed.Update)) × io.Streaming × io.World)
      → Turned (on_stream deps s p)
  unfolding on_stream
  on_stream-Turned s (pending, stream, w) = tt
  on_stream-Turned s (ready none, stream, w) = fail-Turned _ closed w
  on_stream-Turned s (ready (some (err status)), stream, w) =
      fail-Turned _ (StreamError.status status) w
  on_stream-Turned s (ready (some (ok update)), stream, w) =
      on_update-Turned (record s { state = streaming stream }) (feed.into_event update) w tt

  on_connecting-Turned :
      (s : EventStream deps) (p : Poll (Result Status io.Streaming) × io.Connecting × io.World)
      → Turned (on_connecting deps s p)
  unfolding on_connecting
  on_connecting-Turned s (pending, future, w) = tt
  on_connecting-Turned s (ready (ok stream), future, w) = tt
  on_connecting-Turned s (ready (err status), future, w) =
      fail-Turned _ (StreamError.status status) w

  on_sleep-Turned :
      (s : EventStream deps) (p : Poll (Unit {0}) × io.Sleep × io.World)
      → Turned (on_sleep deps s p)
  unfolding on_sleep resubscribe
  on_sleep-Turned s (pending, timer, w) = tt
  on_sleep-Turned s (ready u, timer, w) = tt

  turn_in-Turned :
      (state : State io.Streaming io.Sleep io.Connecting) (s : EventStream deps) (w : io.World)
      → IsAlive state
      → Turned (turn_in deps state s w)
  unfolding turn_in
  turn_in-Turned ended s w h = absurd h
  turn_in-Turned (waiting timer) s w h = on_sleep-Turned s (io.poll_sleep timer w)
  turn_in-Turned (connecting future) s w h = on_connecting-Turned s (io.poll_connecting future w)
  turn_in-Turned (streaming stream) s w h = on_stream-Turned s (io.poll_stream stream w)

  abbrev pub Polled : Option (Outcome deps) → Type 0
  Polled none = Unit
  Polled (some answer) = Answered answer

  proceed-Polled :
      (t : Turn deps) (rest : EventStream deps → io.World → Option (Outcome deps))
      → Turned t
      → ((s : EventStream deps) (w : io.World) → IsAlive s.state → Polled (rest s w))
      → Polled (proceed deps rest t)
  unfolding proceed
  proceed-Polled (returns answer s w) rest h later = h
  proceed-Polled (again s w) rest h later = later s w h

  pub poll_next-Polled :
      (fuel : ℕ) (s : EventStream deps) (w : io.World)
      → IsAlive s.state
      → Polled (poll_next deps fuel s w)
  unfolding poll_next turn
  poll_next-Polled zero s w h = tt
  poll_next-Polled (suc fuel) s w h =
      proceed-Polled (turn deps s w) (poll_next deps fuel) (turn_in-Turned s.state s w h)
        (poll_next-Polled fuel)

  -- A stream that has ended yields nothing more.
  pub ended_silent :
      (fuel : ℕ) (ws : List io.World) (s : EventStream deps)
      → s.state ≡ ended
      → (next_items deps fuel ws s).0 ≡ []
  ended_silent fuel ws s h = over_Run deps (next_items-Run deps fuel ws s) (ap phase_of h)
