-- ===== src/Stream/Redials.antt =====
-- The attempts of a stream to open again: timers, attempts that fail and the one that succeeds.
use preconfs_client.Prelude.{
  ℕ, zero, suc, ◌+◌, ◌*◌, ◌≤◌, ◌<◌, ◌≡◌, inl, inr, refl, sym, ap, ap₂, subst, ◌∙◌, arith, true,
  false, not, Option, some, ok, err, Option-cases, le→ltb-false,
}
use preconfs_client.Errors.{StreamError}
use preconfs_client.Proto.{SubscribeRequest}
use preconfs_client.Reconnect.{Reconnect, interval, exhausted, retryable}
use preconfs_client.Event.{reconnected}
use preconfs_client.Stream.{
  ready, Deps, EventStream, streaming, waiting, connecting, again, turn, on_connecting, after_fail,
  fail, Outcome, proceed, poll_next, u32_mod,
}
use preconfs_client.Stream.Protocol.{after_failure}
use preconfs_client.Stream.Failure.{is_final, fail-waits}
use preconfs_client.Stream.Rounds.{turn_asleep, turn_dialing, poll_again}

module _ {Client Status : Type 0} (deps : Deps Client Status) where
  open deps use {code, feed, float, io}

  module _ (r : Reconnect float) (c : Client) (q : SubscribeRequest) where
    -- The timer that the schedule arms after failure `n` fires, and then `Then`.
    abbrev pub Wakes : ℕ → io.World → (io.World → Type 0) → Type 0
    Wakes n w Then =
        let timer = io.sleep (interval float r n) w in
        let p = io.poll_sleep timer.0 timer.1 in (p.0 ≡ ready tt) × Then p.2

    -- The attempt `future` and, each after its delay, those that follow it: `k` of them fail with an
    -- error that can be retried and the next opens a stream; `n` failures came before.
    abbrev pub Redials : ℕ → ℕ → io.Connecting → io.World → Type 0
    Redials zero n future w =
        (stream : io.Streaming) × ((io.poll_connecting future w).0 ≡ ready (ok stream))
    Redials (suc k) n future w =
        (status : Status) × ((io.poll_connecting future w).0 ≡ ready (err status))
        × (retryable code (StreamError.status status) ≡ true)
        × Wakes (n + 1) (io.poll_connecting future w).2 (Redials k (n + 1) (io.subscribe c q))

    -- `n` failures are within the schedule's limit, and within a u32.
    pub record Affordable (n : ℕ) : Type 0 where
      pub within : (max : ℕ) → r.max_retries ≡ some max → n ≤ max
      pub small : n < u32_mod

    -- The stream is back, `n` failures after the last event.
    pub record Back (answer : Option (Outcome deps)) (n : ℕ) : Type 0 where
      pub after : EventStream deps
      pub world : io.World
      pub stream : io.Streaming
      pub answered : answer ≡ some (ready (some (ok (reconnected n))), after, world)
      pub resumed : after.state ≡ streaming stream
      pub reframed : after.framed ≡ not feed.slot_framing
      pub same_schedule : after.reconnect ≡ some r

    pub Affordable-down : {n m : ℕ} → m ≤ n → Affordable n → Affordable m
    Affordable-down le a = record {
      within = λ max e. let h = a.within max e in omega arith;
      small = let h = a.small in omega arith;
    }

    after_failure_lem : (n : ℕ) → Affordable (n + 1) → after_failure n ≡ n + 1
    after_failure_lem n a = let h = a.small in omega arith

    not_exhausted : (n : ℕ) → Affordable n → exhausted float r n ≡ false
    unfolding exhausted
    not_exhausted n a = elim (Option-cases r.max_retries) [
      | inl e ↦ ground arith
      | inr (max, e) ↦ let h = le→ltb-false max n (a.within max e) in ground arith
    ]

    -- The state in which a retried failure leaves a stream.
    abbrev pub asleep : EventStream deps → ℕ → io.World → EventStream deps
    asleep s n w = record s { attempts = n; state = waiting (io.sleep (interval float r n) w).0 }

    pub fails_over :
        (s : EventStream deps) (error : StreamError Status) (w : io.World) (n : ℕ)
        → s.reconnect ≡ some r
        → s.attempts ≡ n
        → Affordable (n + 1)
        → retryable code error ≡ true
        → after_fail deps (fail deps s error w)
          ≡ again (asleep s (n + 1) w) (io.sleep (interval float r (n + 1)) w).1
    unfolding after_fail
    fails_over s error w n scheduled is_n a again_ok =
        let raised = ap after_failure is_n ∙ after_failure_lem n a in
        let left = ap (exhausted float r) raised ∙ not_exhausted (n + 1) a in
        let kept : is_final deps r s error ≡ false = ground arith in
        ap (after_fail deps) (fail-waits deps s error w r scheduled kept)
        ∙ ap (λ m. again (asleep s m w) (io.sleep (interval float r m) w).1) raised

    pub Back-again :
        (fuel : ℕ) (s u : EventStream deps) (w x : io.World) {n : ℕ}
        → turn deps s w ≡ again u x
        → Back (poll_next deps fuel u x) n
        → Back (poll_next deps (suc fuel) s w) n
    Back-again fuel s u w x {n} e b = subst (λ y. Back y n) (sym (poll_again deps fuel s u w x e)) b

    dial_opens :
        (fuel : ℕ) (s : EventStream deps) (future : io.Connecting) (w : io.World)
        (stream : io.Streaming) (n : ℕ)
        → s.reconnect ≡ some r
        → s.state ≡ connecting future
        → s.attempts ≡ n
        → (io.poll_connecting future w).0 ≡ ready (ok stream)
        → Back (poll_next deps (suc fuel) s w) n
    unfolding poll_next proceed on_connecting
    dial_opens fuel s future w stream n scheduled is_future is_n opens = record {
      after = record s { state = streaming stream; framed = not feed.slot_framing };
      world = (io.poll_connecting future w).2;
      stream = stream;
      answered =
          ap (proceed deps (poll_next deps fuel))
            (turn_dialing deps s future w (ready (ok stream)) is_future opens)
          ∙ ap
              (λ m. some (
                ready (some (ok (reconnected m))),
                record s { state = streaming stream; framed = not feed.slot_framing },
                (io.poll_connecting future w).2,
              ))
              is_n;
      resumed = refl;
      reframed = refl;
      same_schedule = scheduled;
    }

    -- The state at the next attempt.
    abbrev pub redialing : EventStream deps → ℕ → EventStream deps
    redialing s n = record s { attempts = n; state = connecting (io.subscribe s.client s.request) }

    pub wakes :
        (fuel : ℕ) (s : EventStream deps) (w : io.World) (n : ℕ) {m : ℕ}
        → let timer = io.sleep (interval float r n) w in
          (io.poll_sleep timer.0 timer.1).0 ≡ ready tt
          → Back (poll_next deps fuel (redialing s n) (io.poll_sleep timer.0 timer.1).2) m
          → Back (poll_next deps (suc fuel) (asleep s n w) timer.1) m
    wakes fuel s w n fires b =
        Back-again fuel (asleep s n w) (redialing s n) _ _
          (turn_asleep deps (asleep s n w) _ _ refl fires) b

    moved : (n k : ℕ) → n + 1 + k ≡ n + suc k
    moved n k = omega arith

    pub dials_on :
        (k fuel : ℕ) (s : EventStream deps) (future : io.Connecting) (w : io.World) (n : ℕ)
        → s.client ≡ c
        → s.request ≡ q
        → s.reconnect ≡ some r
        → s.state ≡ connecting future
        → s.attempts ≡ n
        → Affordable (n + k)
        → Redials k n future w
        → 2 * k < fuel
        → Back (poll_next deps fuel s w) (n + k)
    unfolding on_connecting
    dials_on zero (suc fuel) s future w n is_c is_q scheduled is_future is_n a (stream, opens)
          enough =
        dial_opens fuel s future w stream (n + 0) scheduled is_future (is_n ∙ omega arith) opens
    dials_on (suc k) (suc (suc fuel)) s future w n is_c is_q scheduled is_future is_n a
          (status, fails, again_ok, (fires, rest)) enough =
        let w1 = (io.poll_connecting future w).2 in
        let s1 = record s { state = connecting (io.poll_connecting future w).1 } in
        Back-again (suc fuel) s (asleep s1 (n + 1) w1) w _
          (turn_dialing deps s future w (ready (err status)) is_future fails
            ∙ fails_over s1 (StreamError.status status) w1 n scheduled is_n
                (Affordable-down (omega arith) a) again_ok)
          (wakes fuel s1 w1 (n + 1) fires (
            subst (Back _) (moved n k) (
              dials_on k fuel (redialing s1 (n + 1)) (io.subscribe c q) _ (n + 1) is_c is_q
                scheduled (ap₂ (λ x y. connecting (io.subscribe x y)) is_c is_q) refl
                (Affordable-down (omega arith) a) rest (omega arith))))
    dials_on k zero s future w n is_c is_q scheduled is_future is_n a rd enough =
        absurd (omega arith)
    dials_on (suc k) (suc zero) s future w n is_c is_q scheduled is_future is_n a rd enough =
        absurd (omega arith)
