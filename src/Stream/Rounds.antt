-- ===== src/Stream/Rounds.antt =====
-- Single rounds of the loop of `poll_next`, in a state and on an answer that are given.
use preconfs_client.Prelude.{
  ℕ, suc, ◌≡◌, ap, ◌∙◌, arith, Bool, true, false, not, ◌&&◌, ◌||◌, Option, none, some, Result, ok,
  if-true, if-false,
}
use preconfs_client.Event.{Event}
use preconfs_client.Stream.{
  Poll, ready, Deps, EventStream, streaming, waiting, connecting, is_slot_start, again, returns,
  turn, turn_in, on_stream, on_connecting, on_sleep, resubscribe, on_update, deliver, proceed,
  poll_next,
}

pub passes : (a b : Bool) → a || b ≡ true → not a && not b ≡ false
passes a b h = ground arith

pub early : (a b : Bool) → a || b ≡ false → (not a && not b ≡ true) × (a ≡ false)
early a b h = ground arith

module _ {Client Status : Type 0} (deps : Deps Client Status) where
  open deps use {feed, io}

  pub turn_streaming :
      (s : EventStream deps) (t : io.Streaming) (w : io.World)
      (answer : Poll (Option (Result Status feed.Update)))
      → s.state ≡ streaming t
      → (io.poll_stream t w).0 ≡ answer
      → turn deps s w ≡ on_stream deps s (answer, (io.poll_stream t w).1, (io.poll_stream t w).2)
  unfolding turn turn_in
  turn_streaming s t w answer is_t answers =
      ap (λ x. turn_in deps x s w) is_t
      ∙ ap (λ x. on_stream deps s (x, (io.poll_stream t w).1, (io.poll_stream t w).2)) answers

  turn_live :
      (s : EventStream deps) (t : io.Streaming) (w : io.World) (u : feed.Update)
      → s.state ≡ streaming t
      → (io.poll_stream t w).0 ≡ ready (some (ok u))
      → turn deps s w
        ≡ on_update deps
            (record s { state = streaming (io.poll_stream t w).1 })
            (feed.into_event u)
            (io.poll_stream t w).2
  unfolding on_stream
  turn_live s t w u is_t is_u = turn_streaming s t w (ready (some (ok u))) is_t is_u

  -- A round on an update that is no event, on one that is held back and on one that is yielded.
  pub turn_skips :
      (s : EventStream deps) (t : io.Streaming) (w : io.World) (u : feed.Update)
      → s.state ≡ streaming t
      → (io.poll_stream t w).0 ≡ ready (some (ok u))
      → feed.into_event u ≡ none
      → turn deps s w
        ≡ again (record s { state = streaming (io.poll_stream t w).1 }) (io.poll_stream t w).2
  unfolding on_update
  turn_skips s t w u is_t is_u none_there =
      turn_live s t w u is_t is_u
      ∙ ap
          (λ o.
            on_update deps (record s { state = streaming (io.poll_stream t w).1 }) o
              (io.poll_stream t w).2)
          none_there

  pub turn_holds :
      (s : EventStream deps) (t : io.Streaming) (w : io.World) (u : feed.Update)
      (event : Event feed.Transaction)
      → s.state ≡ streaming t
      → (io.poll_stream t w).0 ≡ ready (some (ok u))
      → feed.into_event u ≡ some event
      → s.framed || is_slot_start event ≡ false
      → turn deps s w
        ≡ again (record s { state = streaming (io.poll_stream t w).1 }) (io.poll_stream t w).2
  unfolding on_update deliver
  turn_holds s t w u event is_t is_u into held =
      turn_live s t w u is_t is_u
      ∙ ap
          (λ o.
            on_update deps (record s { state = streaming (io.poll_stream t w).1 }) o
              (io.poll_stream t w).2)
          into
      ∙ if-true _ _ _ (early s.framed (is_slot_start event) held).0

  pub turn_yields :
      (s : EventStream deps) (t : io.Streaming) (w : io.World) (u : feed.Update)
      (event : Event feed.Transaction)
      → s.state ≡ streaming t
      → (io.poll_stream t w).0 ≡ ready (some (ok u))
      → feed.into_event u ≡ some event
      → s.framed || is_slot_start event ≡ true
      → turn deps s w
        ≡ returns
            (ready (some (ok event)))
            (record s { state = streaming (io.poll_stream t w).1; framed = true; attempts = 0 })
            (io.poll_stream t w).2
  unfolding on_update deliver
  turn_yields s t w u event is_t is_u into on_time =
      turn_live s t w u is_t is_u
      ∙ ap
          (λ o.
            on_update deps (record s { state = streaming (io.poll_stream t w).1 }) o
              (io.poll_stream t w).2)
          into
      ∙ if-false _ _ _ (passes s.framed (is_slot_start event) on_time)

  pub turn_asleep :
      (s : EventStream deps) (timer : io.Sleep) (w : io.World)
      → s.state ≡ waiting timer
      → (io.poll_sleep timer w).0 ≡ ready tt
      → turn deps s w
        ≡ again
            (record s { state = connecting (io.subscribe s.client s.request) })
            (io.poll_sleep timer w).2
  unfolding turn turn_in on_sleep resubscribe
  turn_asleep s timer w is_timer fires =
      ap (λ x. turn_in deps x s w) is_timer
      ∙ ap (λ x. on_sleep deps s (x, (io.poll_sleep timer w).1, (io.poll_sleep timer w).2)) fires

  pub turn_dialing :
      (s : EventStream deps) (future : io.Connecting) (w : io.World)
      (answer : Poll (Result Status io.Streaming))
      → s.state ≡ connecting future
      → (io.poll_connecting future w).0 ≡ answer
      → turn deps s w
        ≡ on_connecting deps s
            (answer, (io.poll_connecting future w).1, (io.poll_connecting future w).2)
  unfolding turn turn_in
  turn_dialing s future w answer is_future answers =
      ap (λ x. turn_in deps x s w) is_future
      ∙ ap
          (λ x.
            on_connecting deps s
              (x, (io.poll_connecting future w).1, (io.poll_connecting future w).2))
          answers

  pub poll_again :
      (fuel : ℕ) (s u : EventStream deps) (w x : io.World)
      → turn deps s w ≡ again u x
      → poll_next deps (suc fuel) s w ≡ poll_next deps fuel u x
  unfolding poll_next proceed
  poll_again fuel s u w x e = ap (proceed deps (poll_next deps fuel)) e
