-- ===== src/Stream/Returns.antt =====
-- `poll_next` returns: with more fuel than the inner polls have answers ready it does not run out.
use preconfs_client.Prelude.{
  ℕ, zero, suc, ◌≤◌, ◌<◌, ◌≡◌, refl, sym, not, ◌&&◌, Option, none, some, Result, ok, err, arith,
  inl, inr, Bool-cases, Option-cases, if-true, if-false, subst,
}
use preconfs_client.Errors.{StreamError}
use preconfs_client.Event.{Event}
use preconfs_client.Stream.{
  Poll, ready, pending, Deps, EventStream, State, streaming, waiting, connecting, ended,
  is_slot_start, fail, Turn, returns, again, after_fail, deliver, on_update, on_stream,
  on_connecting, on_sleep, turn_in, turn, Outcome, proceed, poll_next,
}
use preconfs_client.Stream.Failure.{is_final, fail-unscheduled, fail-final, fail-waits}

module _ {Client Status : Type 0} (deps : Deps Client Status) where
  open deps use {feed, io}

  -- In every world the inner polls have finitely many answers ready: each one that is taken leaves
  -- fewer, and arming a timer adds none.
  pub record FinitelyReady : Type 0 where
    pub answers : io.World → ℕ
    pub sleep_le : (d : ℕ) (w : io.World) → answers (io.sleep d w).1 ≤ answers w
    pub sleep_lt :
        (t : io.Sleep) (w : io.World) (u : Unit {0})
        → (io.poll_sleep t w).0 ≡ ready u
        → answers (io.poll_sleep t w).2 < answers w
    pub connecting_lt :
        (f : io.Connecting) (w : io.World) (r : Result Status io.Streaming)
        → (io.poll_connecting f w).0 ≡ ready r
        → answers (io.poll_connecting f w).2 < answers w
    pub stream_lt :
        (t : io.Streaming) (w : io.World) (r : Option (Result Status feed.Update))
        → (io.poll_stream t w).0 ≡ ready r
        → answers (io.poll_stream t w).2 < answers w

  module _ (finite : FinitelyReady) where
    open finite use {answers}

    -- A round that goes on leaves fewer than `n` answers.
    abbrev Shrinks : ℕ → Turn deps → Type 0
    Shrinks n (returns answer s w) = Unit
    Shrinks n (again s w) = answers w < n

    on_sleep-Shrinks :
        (n : ℕ) (s : EventStream deps) (r : Poll (Unit {0}) × io.Sleep × io.World)
        → ((u : Unit {0}) → r.0 ≡ ready u → answers r.2 < n)
        → Shrinks n (on_sleep deps s r)
    unfolding on_sleep
    on_sleep-Shrinks n s (pending, timer, w) h = tt
    on_sleep-Shrinks n s (ready u, timer, w) h = h u refl

    after_fail-Shrinks :
        (n : ℕ) (s : EventStream deps) (error : StreamError Status) (w : io.World)
        → answers w < n
        → Shrinks n (after_fail deps (fail deps s error w))
    unfolding after_fail
    after_fail-Shrinks n s error w h = elim (Option-cases s.reconnect) [
      | inl e ↦
          subst (λ x. Shrinks n (after_fail deps x)) (sym (fail-unscheduled deps s error w e)) tt
      | inr (r, e) ↦ elim (Bool-cases (is_final deps r s error)) [
        | inl final ↦
            subst (λ x. Shrinks n (after_fail deps x)) (sym (fail-final deps s error w r e final))
              tt
        | inr waits ↦
            subst (λ x. Shrinks n (after_fail deps x)) (sym (fail-waits deps s error w r e waits))
              (omega (arith, finite.sleep_le _ w))
      ]
    ]

    on_connecting-Shrinks :
        (n : ℕ) (s : EventStream deps)
        (r : Poll (Result Status io.Streaming) × io.Connecting × io.World)
        → ((x : Result Status io.Streaming) → r.0 ≡ ready x → answers r.2 < n)
        → Shrinks n (on_connecting deps s r)
    unfolding on_connecting
    on_connecting-Shrinks n s (pending, future, w) h = tt
    on_connecting-Shrinks n s (ready (ok stream), future, w) h = tt
    on_connecting-Shrinks n s (ready (err status), future, w) h =
        after_fail-Shrinks n _ _ w (h _ refl)

    deliver-Shrinks :
        (n : ℕ) (s : EventStream deps) (event : Event feed.Transaction) (w : io.World)
        → answers w < n
        → Shrinks n (deliver deps s event w)
    unfolding deliver
    deliver-Shrinks n s event w h = elim (Bool-cases (not s.framed && not (is_slot_start event))) [
      | inl early ↦ subst (Shrinks n) (sym (if-true _ _ _ early)) h
      | inr on_time ↦ subst (Shrinks n) (sym (if-false _ _ _ on_time)) tt
    ]

    on_update-Shrinks :
        (n : ℕ) (s : EventStream deps) (o : Option (Event feed.Transaction)) (w : io.World)
        → answers w < n
        → Shrinks n (on_update deps s o w)
    unfolding on_update
    on_update-Shrinks n s none w h = h
    on_update-Shrinks n s (some event) w h = deliver-Shrinks n s event w h

    on_stream-Shrinks :
        (n : ℕ) (s : EventStream deps)
        (r : Poll (Option (Result Status feed.Update)) × io.Streaming × io.World)
        → ((x : Option (Result Status feed.Update)) → r.0 ≡ ready x → answers r.2 < n)
        → Shrinks n (on_stream deps s r)
    unfolding on_stream
    on_stream-Shrinks n s (pending, stream, w) h = tt
    on_stream-Shrinks n s (ready none, stream, w) h = after_fail-Shrinks n _ _ w (h _ refl)
    on_stream-Shrinks n s (ready (some (err status)), stream, w) h =
        after_fail-Shrinks n _ _ w (h _ refl)
    on_stream-Shrinks n s (ready (some (ok update)), stream, w) h =
        on_update-Shrinks n _ _ w (h _ refl)

    turn_in-Shrinks :
        (st : State io.Streaming io.Sleep io.Connecting) (s : EventStream deps) (w : io.World)
        → Shrinks (answers w) (turn_in deps st s w)
    unfolding turn_in
    turn_in-Shrinks ended s w = tt
    turn_in-Shrinks (waiting timer) s w = on_sleep-Shrinks _ s _ (finite.sleep_lt timer w)
    turn_in-Shrinks (connecting future) s w =
        on_connecting-Shrinks _ s _ (finite.connecting_lt future w)
    turn_in-Shrinks (streaming stream) s w = on_stream-Shrinks _ s _ (finite.stream_lt stream w)

    turn-Shrinks : (s : EventStream deps) (w : io.World) → Shrinks (answers w) (turn deps s w)
    unfolding turn
    turn-Shrinks s w = turn_in-Shrinks s.state s w

    proceed_returns :
        (n : ℕ) (t : Turn deps) (rest : EventStream deps → io.World → Option (Outcome deps))
        → Shrinks n t
        → ((s : EventStream deps) (w : io.World)
            → answers w < n
            → (o : Outcome deps) × (rest s w ≡ some o))
        → (o : Outcome deps) × (proceed deps rest t ≡ some o)
    unfolding proceed
    proceed_returns n (returns answer s w) rest less h = ((answer, s, w), refl)
    proceed_returns n (again s w) rest less h = h s w less

    -- A call of `poll_next` returns, pending or with an item, once it has more fuel than the world has
    -- answers ready: the loop makes at most one round for each of them, and one more.
    pub poll_next_returns :
        (fuel : ℕ) (s : EventStream deps) (w : io.World)
        → answers w < fuel
        → (o : Outcome deps) × (poll_next deps fuel s w ≡ some o)
    unfolding poll_next
    poll_next_returns zero s w h = elim h [ ]
    poll_next_returns (suc fuel) s w h =
        proceed_returns (answers w) (turn deps s w) (poll_next deps fuel) (turn-Shrinks s w)
          (λ u x less. poll_next_returns fuel u x (omega arith))
