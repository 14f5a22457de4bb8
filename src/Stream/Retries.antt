-- ===== src/Stream/Retries.antt =====
-- The retry schedule, as the items of a run show it.
use preconfs_client.Prelude.{
  ℕ, none-ne-some, some-injective, ◌+◌, ◌≤◌, ◌<◌, ◌≡◌, ◌≢◌, ◌⊎◌, refl, sym, ap, subst, ◌∙◌, false,
  none, some, List, [], ◌∷◌, Result, ok, err, arith, ltb,
}
use preconfs_client.Errors.{StreamError}
use preconfs_client.Proto.{SubscribeRequest}
use preconfs_client.Reconnect.{Reconnect, exhausted}
use preconfs_client.Event.{Event, slot_start, transaction, slot_end, clip, reconnected}
use preconfs_client.Stream.{Deps, Item, new, next_items}
use preconfs_client.Stream.Protocol.{
  Phase, live, backing_off, dialing, over, View, Step, idle, dropped, delivered, retried, gave_up,
  redialed, resumed, Run, stop, silent, yields, after_failure,
}
use preconfs_client.Stream.Drive.{next_items-Run}
use preconfs_client.Stream.Framing.{over_Run}

-- Between two events of the feed the reconnect notices count up, and none passes `max`; `last` is the
-- number of the latest notice since the last event, 0 if there is none. Nothing follows an error.
abbrev pub Retries : {S T : Type 0} → ℕ → ℕ → List (Result (StreamError S) (Event T)) → Type 0
Retries max last [] = Unit
Retries max last (err e ∷ rest) = rest ≡ []
Retries max last (ok (reconnected n) ∷ rest) = (last < n) × (n ≤ max) × Retries max n rest
Retries max last (ok (slot_start slot) ∷ rest) = Retries max 0 rest
Retries max last (ok (transaction m) ∷ rest) = Retries max 0 rest
Retries max last (ok (slot_end slot) ∷ rest) = Retries max 0 rest
Retries max last (ok (clip n) ∷ rest) = Retries max 0 rest

deliver-Retries :
    {S T : Type 0} (max last : ℕ) (event : Event T)
    (items : List (Result (StreamError S) (Event T)))
    → ((n : ℕ) → event ≢ reconnected n)
    → Retries max 0 items
    → Retries max last (ok event ∷ items)
deliver-Retries max last (reconnected n) items fresh rest = absurd (fresh n refl)
deliver-Retries max last _ items fresh rest = rest

-- The failures that are counted, by phase: `last` of them are told by a notice.
abbrev InBudget : ℕ → ℕ → Phase → ℕ → Type 0
InBudget max last live n = (n ≡ last) × (n ≤ max)
InBudget max last backing_off n = (last < n) × (n ≤ max)
InBudget max last dialing n = (last < n) × (n ≤ max)
InBudget max last over n = Unit

module _ {Client Status : Type 0} (deps : Deps Client Status) where
  open deps use {feed, float}

  exhausted-some :
      (r : Reconnect float) (max n : ℕ) → r.max_retries ≡ some max → exhausted float r n ≡ ltb max n
  unfolding exhausted
  exhausted-some r max n e = ground arith

  exhausted-none :
      (r : Reconnect float) (n : ℕ) → r.max_retries ≡ none → exhausted float r n ≡ false
  unfolding exhausted
  exhausted-none r n e = ground arith

  module _ (r : Reconnect float) (max : ℕ) (limited : r.max_retries ≡ some max)
      (small : max < 4294967295) where
    after_failure_small : (n : ℕ) → n ≤ max → after_failure n ≡ n + 1
    after_failure_small n le = omega (arith, small)

    retried-InBudget :
        (last n : ℕ) (p : Phase)
        → (p ≡ live) ⊎ (p ≡ dialing)
        → InBudget max last p n
        → exhausted float r (after_failure n) ≡ false
        → (last < after_failure n) × (after_failure n ≤ max)
    retried-InBudget last n live at (same, le) left =
        let e = after_failure_small n le in
        let within = sym (exhausted-some r max (after_failure n) limited) ∙ left in
        (omega (arith, same, e), ground (arith, within))
    retried-InBudget last n dialing at (lt, le) left =
        let e = after_failure_small n le in
        let within = sym (exhausted-some r max (after_failure n) limited) ∙ left in
        (omega (arith, lt, e), ground (arith, within))
    retried-InBudget last n backing_off at h left = ground arith
    retried-InBudget last n over at h left = ground arith

    abbrev Within : ℕ → View → Type 0
    Within last v = InBudget max last v.phase v.attempts

    at_phase :
        (last : ℕ) (v : View) {p : Phase}
        → v.phase ≡ p
        → Within last v
        → InBudget max last p v.attempts
    at_phase last v {p} e h = subst (λ x. InBudget max last x v.attempts) e h

    -- A step that yields nothing keeps the count in the budget.
    silent-Within :
        {v u : View} (last : ℕ) → Step deps (some r) v none u → Within last v → Within last u
    silent-Within last (idle is_l same) h = subst (Within last) (sym same) h
    silent-Within last (dropped event at _ _ _ same) h = subst (Within last) (sym same) h
    silent-Within last (delivered update event at _ _ is_l _) h = absurd (none-ne-some is_l)
    silent-Within last (gave_up e n at _ is_l _) h = absurd (none-ne-some is_l)
    silent-Within last (resumed at is_l _) h = absurd (none-ne-some is_l)
    silent-Within {v} last (redialed at _ same) h =
        subst (Within last) (sym same) (at_phase last v at h)
    silent-Within {v} last (retried r' e at some_r _ left _ same) h =
        subst (Within last) (sym same) (
          retried-InBudget last v.attempts v.phase at h (
            subst (λ x. exhausted float x (after_failure v.attempts) ≡ false)
              (sym (some-injective some_r)) left))

    yield-Retries :
        {v u : View} {item : Item deps} (items : List (Item deps)) (last : ℕ)
        → Step deps (some r) v (some item) u
        → Within last v
        → (u.phase ≡ over → items ≡ [])
        → ((k : ℕ) → Within k u → Retries max k items)
        → Retries max last (item ∷ items)
    yield-Retries items last (idle is_l _) h ends later = absurd (none-ne-some (sym is_l))
    yield-Retries items last (dropped event _ _ _ is_l _) h ends later =
        absurd (none-ne-some (sym is_l))
    yield-Retries items last (retried r' e _ _ _ _ is_l _) h ends later =
        absurd (none-ne-some (sym is_l))
    yield-Retries items last (redialed _ is_l _) h ends later = absurd (none-ne-some (sym is_l))
    yield-Retries items last (gave_up e n _ _ is_l same) h ends later =
        subst (λ x. Retries max last (x ∷ items)) (sym (some-injective is_l))
          (ends (ap (λ x. x.phase) same))
    yield-Retries items last (delivered update event _ into _ is_l same) h ends later =
        subst (λ x. Retries max last (x ∷ items)) (sym (some-injective is_l))
          (deliver-Retries max last event items
            (λ n e. feed.no_reconnected update n (into ∙ ap some e))
            (later 0 (subst (Within 0) (sym same) (refl, omega arith))))
    yield-Retries {v} items last (resumed at is_l same) h ends later =
        let told = at_phase last v at h in
        subst (λ x. Retries max last (x ∷ items)) (sym (some-injective is_l))
          (told.0, told.1, later v.attempts (subst (Within v.attempts) (sym same) (refl, told.1)))

    Run-Retries :
        {v v' : View} {items : List (Item deps)} (last : ℕ)
        → Run deps (some r) v items v'
        → Within last v
        → Retries max last items
    Run-Retries last stop h = tt
    Run-Retries last (silent st run) h = Run-Retries last run (silent-Within last st h)
    Run-Retries last (yields {items} st run) h =
        yield-Retries items last st h (over_Run deps run) (λ k. Run-Retries k run)

    -- A new stream whose schedule allows `max` retries, `max` below the largest u32, yields, over any
    -- polls in any worlds, reconnect notices whose numbers are at most `max` and rise strictly between
    -- two events of the feed, and nothing behind an error.
    pub next_items-Retries :
        (client : Client) (request : SubscribeRequest) (stream : deps.io.Streaming) (fuel : ℕ)
        (ws : List deps.io.World)
        → Retries max 0 (next_items deps fuel ws (new deps client request (some r) stream)).0
    unfolding new
    next_items-Retries client request stream fuel ws =
        Run-Retries 0 (next_items-Run deps fuel ws (new deps client request (some r) stream))
          (refl, omega arith)
