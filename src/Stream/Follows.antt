-- ===== src/Stream/Follows.antt =====
-- A round of the loop against one step of the machine.
use preconfs_client.Prelude.{
  ◌≡◌, refl, sym, ap, ◌∙◌, subst, ◌||◌, Option, none, some, Result, ok, err, Bool-cases,
  Option-cases, if-true, if-false, inl, inr,
}
use preconfs_client.Errors.{StreamError, closed}
use preconfs_client.Event.{Event}
use preconfs_client.Reconnect.{Reconnect}
use preconfs_client.Stream.{
  ready, Deps, EventStream, State, streaming, waiting, connecting, ended, is_slot_start, Turn,
  returns, again, turn, turn_in, on_stream, on_connecting, on_sleep, resubscribe, on_update,
  deliver, after_fail, fail,
}
use preconfs_client.Stream.Protocol.{View, view, phase_of, backing_off}
use preconfs_client.Stream.Failure.{is_final, fail-unscheduled, fail-final, fail-waits}
use preconfs_client.Stream.Rounds.{early, passes}
use preconfs_client.Stream.Machine.{
  Answer, fired, opened, sent, Output, failed, received, step_live, step_dialing, step_in, step,
  GivesIn,
}

module _ {Client Status : Type 0} (deps : Deps Client Status) where
  open deps use {feed, float, io}

  -- A round does what the machine does: it yields the item and goes on from the view.
  abbrev pub Follows : Option (Reconnect float) → Output deps → Turn deps → Type 0
  Follows schedule (none, v) (again s w) = (view deps s ≡ v) × (s.reconnect ≡ schedule)
  Follows schedule (some item, v) (returns (ready (some i)) s w) =
      (i ≡ item) × (view deps s ≡ v) × (s.reconnect ≡ schedule)
  Follows schedule _ _ = ⊥

  Follows-by :
      (schedule : Option (Reconnect float)) {o o' : Output deps} {t t' : Turn deps}
      → o ≡ o'
      → t ≡ t'
      → Follows schedule o' t'
      → Follows schedule o t
  Follows-by schedule {o} {o'} {t} {t'} same_o same_t h =
      subst (λ x. Follows schedule x t) (sym same_o) (subst (Follows schedule o') (sym same_t) h)

  after_fail-Follows :
      (s : EventStream deps) (error : StreamError Status) (w : io.World)
      → Follows s.reconnect
          (failed deps s.reconnect (view deps s) error)
          (after_fail deps (fail deps s error w))
  unfolding after_fail
  after_fail-Follows s error w = elim (Option-cases s.reconnect) [
    | inl e ↦
        Follows-by s.reconnect (ap (λ x. failed deps x (view deps s) error) e)
          (ap (after_fail deps) (fail-unscheduled deps s error w e)) (refl, refl, refl)
    | inr (r, e) ↦ elim (Bool-cases (is_final deps r s error)) [
      | inl final ↦
          Follows-by s.reconnect
            (ap (λ x. failed deps x (view deps s) error) e
              ∙ if-true (is_final deps r s error) _ _ final)
            (ap (after_fail deps) (fail-final deps s error w r e final)) (refl, refl, refl)
      | inr waits ↦
          Follows-by s.reconnect
            (ap (λ x. failed deps x (view deps s) error) e
              ∙ if-false (is_final deps r s error) _ _ waits)
            (ap (after_fail deps) (fail-waits deps s error w r e waits)) (refl, refl)
    ]
  ]

  deliver-Follows :
      (s : EventStream deps) (event : Event feed.Transaction) (w : io.World)
      → Follows s.reconnect (received deps (view deps s) (some event)) (deliver deps s event w)
  unfolding deliver
  deliver-Follows s event w = elim (Bool-cases (s.framed || is_slot_start event)) [
    | inl on_time ↦
        Follows-by s.reconnect (if-true (s.framed || is_slot_start event) _ _ on_time)
          (if-false _ _ _ (passes s.framed (is_slot_start event) on_time)) (refl, refl, refl)
    | inr held ↦
        Follows-by s.reconnect (if-false (s.framed || is_slot_start event) _ _ held)
          (if-true _ _ _ (early s.framed (is_slot_start event) held).0) (refl, refl)
  ]

  on_update-Follows :
      (s : EventStream deps) (o : Option (Event feed.Transaction)) (w : io.World)
      → Follows s.reconnect (received deps (view deps s) o) (on_update deps s o w)
  unfolding on_update
  on_update-Follows s none w = (refl, refl)
  on_update-Follows s (some event) w = deliver-Follows s event w

  on_stream-Follows :
      (s : EventStream deps) (r : Option (Result Status feed.Update)) (t : io.Streaming)
      (w : io.World)
      → Follows s.reconnect
          (step_live deps s.reconnect (view deps (record s { state = streaming t })) r)
          (on_stream deps s (ready r, t, w))
  unfolding on_stream
  on_stream-Follows s none t w = after_fail-Follows (record s { state = streaming t }) closed w
  on_stream-Follows s (some (err status)) t w =
      after_fail-Follows (record s { state = streaming t }) (StreamError.status status) w
  on_stream-Follows s (some (ok update)) t w =
      on_update-Follows (record s { state = streaming t }) (feed.into_event update) w

  on_connecting-Follows :
      (s : EventStream deps) (r : Result Status io.Streaming) (f : io.Connecting) (w : io.World)
      → Follows s.reconnect
          (step_dialing deps s.reconnect (view deps (record s { state = connecting f })) r)
          (on_connecting deps s (ready r, f, w))
  unfolding on_connecting
  on_connecting-Follows s (ok stream) f w = (refl, refl, refl)
  on_connecting-Follows s (err status) f w =
      after_fail-Follows (record s { state = connecting f }) (StreamError.status status) w

  abbrev seen_in : State io.Streaming io.Sleep io.Connecting → EventStream deps → View
  seen_in st s = record { phase = phase_of st; attempts = s.attempts; framed = s.framed }

  turn_in-Follows :
      (st : State io.Streaming io.Sleep io.Connecting) (a : Answer deps) (s : EventStream deps)
      (w : io.World)
      → GivesIn deps st w a
      → Follows s.reconnect
          (step_in deps (phase_of st) s.reconnect (seen_in st s) a)
          (turn_in deps st s w)
  unfolding turn_in on_sleep resubscribe
  turn_in-Follows (streaming t) (sent r) s w given =
      let p = io.poll_stream t w in
      Follows-by s.reconnect refl (ap (λ x. on_stream deps s (x, p.1, p.2)) given)
        (on_stream-Follows s r p.1 p.2)
  turn_in-Follows (connecting f) (opened r) s w given =
      let p = io.poll_connecting f w in
      Follows-by s.reconnect refl (ap (λ x. on_connecting deps s (x, p.1, p.2)) given)
        (on_connecting-Follows s r p.1 p.2)
  turn_in-Follows (waiting t) fired s w given =
      let p = io.poll_sleep t w in
      Follows-by s.reconnect
        {o = step_in deps backing_off s.reconnect (seen_in (waiting t) s) fired} refl
        (ap (λ x. on_sleep deps s (x, p.1, p.2)) given) (refl, refl)
  turn_in-Follows (streaming t) fired s w given = absurd given
  turn_in-Follows (streaming t) (opened r) s w given = absurd given
  turn_in-Follows (connecting f) fired s w given = absurd given
  turn_in-Follows (connecting f) (sent r) s w given = absurd given
  turn_in-Follows (waiting t) (opened r) s w given = absurd given
  turn_in-Follows (waiting t) (sent r) s w given = absurd given
  turn_in-Follows ended a s w given = absurd given

  pub turn-Follows :
      (s : EventStream deps) (a : Answer deps) (w : io.World)
      → GivesIn deps s.state w a
      → Follows s.reconnect (step deps s.reconnect (view deps s) a) (turn deps s w)
  unfolding turn
  turn-Follows s a w given = turn_in-Follows s.state a s w given
