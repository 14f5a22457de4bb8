-- ===== src/Stream/Recovery.antt =====
-- How a stream comes back from an outage: the drop, the failed attempts and the one that succeeds, within
-- one call of `poll_next` in a world where the answers are ready.
use preconfs_client.Prelude.{
  ℕ, zero, suc, ◌+◌, ◌*◌, ◌<◌, ◌≡◌, refl, ap, ◌∙◌, arith, true, Option, none, some, Result, ok, err,
  none-ne-some, some-injective,
}
use preconfs_client.Errors.{StreamError, closed}
use preconfs_client.Reconnect.{Reconnect, retryable}
use preconfs_client.Stream.{
  ready, Deps, EventStream, streaming, on_stream, after_fail, fail, poll_next,
}
use preconfs_client.Stream.Rounds.{turn_streaming}
use preconfs_client.Stream.Redials.{
  Wakes, Redials, Affordable, Back, Affordable-down, Back-again, asleep, fails_over, redialing,
  wakes, dials_on,
}

module _ {Client Status : Type 0} (deps : Deps Client Status) where
  open deps use {code, feed, float, io}

  -- The error of an answer that ends the raw stream.
  abbrev pub loss : Option (Result Status feed.Update) → Option (StreamError Status)
  loss none = some closed
  loss (some (err status)) = some (StreamError.status status)
  loss (some (ok update)) = none

  on_loss :
      (s : EventStream deps) (lost : Option (Result Status feed.Update))
      (error : StreamError Status) (t : io.Streaming) (w : io.World)
      → loss lost ≡ some error
      → on_stream deps s (ready lost, t, w)
        ≡ after_fail deps (fail deps (record s { state = streaming t }) error w)
  unfolding on_stream
  on_loss s none error t w e =
      ap (λ x. after_fail deps (fail deps (record s { state = streaming t }) x w))
        (some-injective e)
  on_loss s (some (err status)) error t w e =
      ap (λ x. after_fail deps (fail deps (record s { state = streaming t }) x w))
        (some-injective e)
  on_loss s (some (ok update)) error t w e = absurd (none-ne-some e)

  -- A live stream that is lost with an error that can be retried comes back: if the timers fire, `k`
  -- attempts fail with errors that can be retried and the next attempt opens a stream, all within the
  -- schedule's limit, then one call of `poll_next` yields the reconnect notice. It counts the drop and
  -- the failed attempts, `1 + k` more than before; the new stream is live, its framing starts over and
  -- its schedule is the same. Each failure takes two rounds of fuel.
  pub outage_recovers :
      (r : Reconnect float) (k n fuel : ℕ) (s : EventStream deps) (t : io.Streaming) (w : io.World)
      (lost : Option (Result Status feed.Update)) (error : StreamError Status)
      → s.reconnect ≡ some r
      → s.state ≡ streaming t
      → s.attempts ≡ n
      → (io.poll_stream t w).0 ≡ ready lost
      → loss lost ≡ some error
      → retryable code error ≡ true
      → Wakes deps r s.client s.request
          (n + 1)
          (io.poll_stream t w).2
          (Redials deps r s.client s.request k (n + 1) (io.subscribe s.client s.request))
      → Affordable deps r s.client s.request (n + 1 + k)
      → 2 * k + 2 < fuel
      → Back deps r s.client s.request (poll_next deps fuel s w) (n + 1 + k)
  outage_recovers r k (n) (suc (suc fuel)) s t w lost error scheduled is_t is_n answers is_loss
        again_ok (fires, rest) a enough =
      let w1 = (io.poll_stream t w).2 in
      let s1 = record s { state = streaming (io.poll_stream t w).1 } in
      Back-again deps r s.client s.request (suc fuel) s
        (asleep deps r s.client s.request s1 (n + 1) w1) w _
        (turn_streaming deps s t w (ready lost) is_t answers
          ∙ on_loss s lost error _ w1 is_loss
          ∙ fails_over deps r s.client s.request s1 error w1 n scheduled is_n
              (Affordable-down deps r s.client s.request (omega arith) a) again_ok)
        (wakes deps r s.client s.request fuel s1 w1 (n + 1) fires (
          dials_on deps r s.client s.request k fuel (redialing deps r s.client s.request s1 (n + 1))
            (io.subscribe s.client s.request) _ (n + 1) refl refl scheduled refl refl a rest
            (omega arith)))
  outage_recovers r k n zero s t w lost error scheduled is_t is_n answers is_loss again_ok wk a
        enough =
      absurd (omega arith)
  outage_recovers r k n (suc zero) s t w lost error scheduled is_t is_n answers is_loss again_ok wk
        a enough =
      absurd (omega arith)
