-- ===== src/Stream/GivingUp.antt =====
-- How a stream gives up on an outage: the drop and the attempts that fail, up to the limit of its schedule.
use preconfs_client.Prelude.{
  ℕ, suc, ◌+◌, ◌<◌, ◌≤◌, ◌≡◌, sym, ap, ◌∙◌, arith, Bool, true, false, not, ◌||◌, Option, some, none,
  List, [], ◌∷◌, length, All, Result, ok, err, ltb, lt→ltb, le→ltb-false, if-true, if-false,
  none-ne-some, some-injective,
}
use preconfs_client.Errors.{StreamError}
use preconfs_client.Reconnect.{Reconnect, exhausted, retryable}
use preconfs_client.Stream.{Deps, EventStream, streaming, u32_mod}
use preconfs_client.Stream.Protocol.{
  live, backing_off, dialing, over, View, view, phase_of, after_failure,
}
use preconfs_client.Stream.Machine.{
  Answer, fired, opened, sent, Output, failed_with, failed, step_live, and_items, replay, Gives,
  polls,
}
use preconfs_client.Stream.Replay.{polls-eq-replay}
use preconfs_client.Stream.Recovery.{loss}

stops : (a b : Bool) → b ≡ true → not a || b ≡ true
stops a b h = ground arith

waits : (a b : Bool) → a ≡ true → b ≡ false → not a || b ≡ false
waits a b h k = ground arith

module _ {Client Status : Type 0} (deps : Deps Client Status) where
  open deps use {code, feed, float, io}

  -- Each timer fires, and the attempt behind it fails with the status.
  abbrev pub failures : List Status → List (Answer deps)
  failures [] = []
  failures (status ∷ statuses) = fired ∷ opened (err status) ∷ failures statuses

  -- The error of the last failure.
  abbrev pub last_error : StreamError Status → List Status → StreamError Status
  last_error error [] = error
  last_error error (status ∷ statuses) = last_error (StreamError.status status) statuses

  module _ (r : Reconnect float) (max : ℕ) (limited : r.max_retries ≡ some max)
      (small : suc max < u32_mod) where
    abbrev backed_off : View → ℕ → Output deps
    backed_off v n = (none, record { phase = backing_off; attempts = n; framed = v.framed })

    exhausted_at : (n : ℕ) → exhausted float r n ≡ ltb max n
    unfolding exhausted
    exhausted_at n = ap (λ (o : Option ℕ). elim o [ none ↦ false | some m ↦ ltb m n ]) limited

    -- The failure that passes the limit, and one before it.
    gives_up :
        (v : View) (error : StreamError Status)
        → v.attempts ≡ max
        → failed_with deps r v error ≡ (
          some (err error),
          record { phase = over; attempts = after_failure v.attempts; framed = v.framed },
        )
    gives_up v error at_limit = if-true _ _ _ (
        stops (retryable code error) (exhausted float r (after_failure v.attempts)) (
          exhausted_at (after_failure v.attempts)
          ∙ lt→ltb max (after_failure v.attempts) (omega arith)))

    goes_on :
        (v : View) (error : StreamError Status)
        → v.attempts < max
        → retryable code error ≡ true
        → failed_with deps r v error ≡ backed_off v (suc v.attempts)
    goes_on v error under again =
        let counted : after_failure v.attempts ≡ suc v.attempts = omega arith in
        if-false _ _ _ (
          waits (retryable code error) (exhausted float r (after_failure v.attempts)) again (
            exhausted_at (after_failure v.attempts)
            ∙ le→ltb-false max (after_failure v.attempts) (omega arith)))
        ∙ ap (backed_off v) counted

    -- A failure, and behind it the attempts that fail.
    replay_fails :
        (statuses : List Status) (v : View) (error : StreamError Status)
        → v.attempts + length statuses ≡ max
        → retryable code error ≡ true
        → All (λ status. retryable code (StreamError.status status) ≡ true) statuses
        → let out = failed_with deps r v error in
          and_items deps out.0 (replay deps (some r) (failures statuses) out.1)
          ≡ err (last_error error statuses) ∷ []
    unfolding replay
    replay_fails [] v error few again all_again =
        ap (λ (out : Output deps). and_items deps out.0 (replay deps (some r) [] out.1))
          (gives_up v error (omega arith))
    replay_fails (status ∷ statuses) v error few again (hope, hopes) =
        ap
          (λ (out : Output deps).
            and_items deps out.0 (replay deps (some r) (failures (status ∷ statuses)) out.1))
          (goes_on v error (omega arith) again)
        ∙ replay_fails statuses
            (record { phase = dialing; attempts = suc v.attempts; framed = v.framed })
            (StreamError.status status) (omega arith) hope hopes

  lost_live :
      (schedule : Option (Reconnect float)) (v : View) (lost : Option (Result Status feed.Update))
      (error : StreamError Status)
      → loss deps lost ≡ some error
      → step_live deps schedule v lost ≡ failed deps schedule v error
  lost_live schedule v none error h = ap (failed deps schedule v) (some-injective h)
  lost_live schedule v (some (err status)) error h = ap (failed deps schedule v) (some-injective h)
  lost_live schedule v (some (ok update)) error h = absurd (none-ne-some h)

  replay_outage :
      (r : Reconnect float) (max n : ℕ) (framed : Bool) (lost : Option (Result Status feed.Update))
      (error : StreamError Status) (statuses : List Status)
      → r.max_retries ≡ some max
      → suc max < u32_mod
      → n + length statuses ≡ max
      → loss deps lost ≡ some error
      → retryable code error ≡ true
      → All (λ status. retryable code (StreamError.status status) ≡ true) statuses
      → replay deps
          (some r)
          (sent lost ∷ failures statuses)
          (record { phase = live; attempts = n; framed = framed })
        ≡ err (last_error error statuses) ∷ []
  unfolding replay
  replay_outage r max n framed lost error statuses limited small few is_loss again hopes =
      let v : View = record { phase = live; attempts = n; framed = framed } in
      ap
        (λ (out : Output deps).
          and_items deps out.0 (replay deps (some r) (failures statuses) out.1))
        (lost_live (some r) v lost error is_loss)
      ∙ replay_fails r max limited small statuses v error few again hopes

  -- A live stream that is lost gives up where its schedule's limit says: if the error of the loss and those
  -- of the attempts that fail behind it can all be retried, and there are, with the failures that were
  -- counted before, as many attempts as `max_retries` allows, then a call of `poll_next` yields
  -- the error of the last attempt, and no item before it. The timers fire and the answers are ready; the
  -- limit is below the largest u32.
  pub outage_ends :
      (r : Reconnect float) (max fuel : ℕ) (s : EventStream deps) (t : io.Streaming) (w : io.World)
      (lost : Option (Result Status feed.Update)) (error : StreamError Status)
      (statuses : List Status)
      → s.reconnect ≡ some r
      → r.max_retries ≡ some max
      → suc max < u32_mod
      → s.state ≡ streaming t
      → s.attempts + length statuses ≡ max
      → loss deps lost ≡ some error
      → retryable code error ≡ true
      → All (λ status. retryable code (StreamError.status status) ≡ true) statuses
      → Gives deps (sent lost ∷ failures statuses) s w
      → length (sent lost ∷ failures statuses) ≤ fuel
      → polls deps fuel 1 s w ≡ err (last_error error statuses) ∷ []
  outage_ends r max fuel s t w lost error statuses scheduled limited small is_t few is_loss again
        hopes given enough =
      let answers = sent lost ∷ failures statuses in
      let same : replay deps s.reconnect answers (view deps s)
          ≡ err (last_error error statuses) ∷ [] =
        ap (λ x. replay deps x answers (view deps s)) scheduled
        ∙ ap
            (λ st.
              replay deps (some r) answers
                (record { phase = phase_of st; attempts = s.attempts; framed = s.framed }))
            is_t
        ∙ replay_outage r max s.attempts s.framed lost error statuses limited small few is_loss
            again hopes in
      let run = polls-eq-replay deps answers fuel s w given enough in
      ap (λ n. polls deps fuel n s w) (sym (ap length same)) ∙ run ∙ same
