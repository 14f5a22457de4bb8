-- ===== src/Stream/Endings.antt =====
-- The errors that a stream ends with.
use preconfs_client.Prelude.{
  ℕ, some-injective, none-ne-some, ◌≡◌, ◌⊎◌, inl, inr, sym, subst, false, some, List, true,
  Option-cases, ok, err, arith, All,
}
use preconfs_client.Errors.{StreamError}
use preconfs_client.Proto.{SubscribeRequest}
use preconfs_client.Reconnect.{Reconnect, exhausted, retryable}
use preconfs_client.Stream.{Deps, Item, new, next_items}
use preconfs_client.Stream.Protocol.{
  View, Step, idle, dropped, delivered, retried, gave_up, redialed, resumed, Run, stop, silent,
  yields, GivesUp, unscheduled, not_retryable, out_of_retries, after_failure,
}
use preconfs_client.Stream.Drive.{next_items-Run}

module _ {Client Status : Type 0} (deps : Deps Client Status) where
  open deps use {code, feed, float}

  -- An error that ends a stream: the schedule cannot retry it, or has a limit.
  abbrev pub Justified : Reconnect float → Item deps → Type 0
  Justified r (err e) = (retryable code e ≡ false) ⊎ ((max : ℕ) × (r.max_retries ≡ some max))
  Justified r (ok event) = Unit

  limited_of :
      (r : Reconnect float) (n : ℕ)
      → exhausted float r n ≡ true
      → (max : ℕ) × (r.max_retries ≡ some max)
  unfolding exhausted
  limited_of r n e = elim (Option-cases r.max_retries) [ inl none_left ↦ ground arith | inr h ↦ h ]

  gave_up-Justified :
      (r : Reconnect float) (n m : ℕ) (e : StreamError Status)
      → GivesUp deps (some r) n e m
      → Justified r (err e)
  gave_up-Justified r n m e (unscheduled is_none _) = absurd (none-ne-some (sym is_none))
  gave_up-Justified r n m e (not_retryable r' same final _) = inl final
  gave_up-Justified r n m e (out_of_retries r' same out _) = inr (
      limited_of r (after_failure n)
        (subst (λ x. exhausted float x (after_failure n) ≡ true) (sym (some-injective same)) out))

  yield-Justified :
      (r : Reconnect float) {v u : View} (item : Item deps)
      → Step deps (some r) v (some item) u
      → Justified r item
  yield-Justified r item (idle is_l _) = absurd (none-ne-some (sym is_l))
  yield-Justified r item (dropped event _ _ _ is_l _) = absurd (none-ne-some (sym is_l))
  yield-Justified r item (retried r' e _ _ _ _ is_l _) = absurd (none-ne-some (sym is_l))
  yield-Justified r item (redialed _ is_l _) = absurd (none-ne-some (sym is_l))
  yield-Justified r item (resumed at is_l same) = subst (Justified r) (sym (some-injective is_l)) tt
  yield-Justified r item (delivered update event _ _ _ is_l _) =
      subst (Justified r) (sym (some-injective is_l)) tt
  yield-Justified r {v} item (gave_up e n _ g is_l _) =
      subst (Justified r) (sym (some-injective is_l)) (gave_up-Justified r v.attempts n e g)

  Run-Justified :
      (r : Reconnect float) {v v' : View} {items : List (Item deps)}
      → Run deps (some r) v items v'
      → All (Justified r) items
  Run-Justified r stop = tt
  Run-Justified r (silent st run) = Run-Justified r run
  Run-Justified r (yields {item} st run) = (yield-Justified r item st, Run-Justified r run)

  -- A new stream with a schedule yields an error, over any polls in any worlds, only if the error is not
  -- one that can be retried or the schedule has a limit of retries.
  pub next_items-Justified :
      (client : Client) (request : SubscribeRequest) (r : Reconnect float)
      (stream : deps.io.Streaming) (fuel : ℕ) (ws : List deps.io.World)
      → All (Justified r) (next_items deps fuel ws (new deps client request (some r) stream)).0
  unfolding new
  next_items-Justified client request r stream fuel ws =
      Run-Justified r (next_items-Run deps fuel ws (new deps client request (some r) stream))
