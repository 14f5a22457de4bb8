-- ===== src/Stream/Ends.antt =====
-- How a stream ends, and what it never yields without a schedule.
use preconfs_client.Prelude.{
  ℕ, ◌≡◌, refl, sym, ap, subst, ◌∙◌, Option, none, some, List, [], ◌∷◌, ok, err, All, none-ne-some,
  some-injective,
}
use preconfs_client.Proto.{SubscribeRequest}
use preconfs_client.Reconnect.{Reconnect}
use preconfs_client.Event.{Event, slot_start, transaction, slot_end, clip, reconnected}
use preconfs_client.Stream.{Deps, Item, new, next_items}
use preconfs_client.Stream.Protocol.{
  Phase, over, View, view, Step, idle, dropped, delivered, retried, gave_up, redialed, resumed, Run,
  stop, silent, yields,
}
use preconfs_client.Stream.Drive.{new-Run}
use preconfs_client.Stream.Framing.{over_step, over_Run}
use preconfs_client.Stream.Invariant.{InLimit, IsValid, Step-IsValid, new-IsValid}

module _ {Client Status : Type 0} (deps : Deps Client Status) where
  open deps use {feed, float, io}

  over_stays :
      {schedule : Option (Reconnect float)} {v v' : View} {items : List (Item deps)}
      → Run deps schedule v items v'
      → v.phase ≡ over
      → v'.phase ≡ over
  over_stays stop o = o
  over_stays (silent st run) o = over_stays run (over_step deps st o).1
  over_stays (yields st run) o = over_stays run (over_step deps st o).1

  -- Items of a stream that has come to a phase: an error is the last, and has left the stream over.
  abbrev pub Ends : Phase → List (Item deps) → Type 0
  Ends p [] = Unit
  Ends p (err e ∷ rest) = (rest ≡ []) × (p ≡ over)
  Ends p (ok event ∷ rest) = Ends p rest

  -- Items of a stream without a schedule: none is a reconnect notice.
  abbrev pub NoNotice : Item deps → Type 0
  NoNotice (ok (reconnected n)) = ⊥
  NoNotice _ = Unit

  event_NoNotice :
      (event : Event feed.Transaction) → ((n : ℕ) → event ≡ reconnected n → ⊥) → NoNotice (ok event)
  event_NoNotice (reconnected n) fresh = fresh n refl
  event_NoNotice (slot_start slot) fresh = tt
  event_NoNotice (transaction m) fresh = tt
  event_NoNotice (slot_end slot) fresh = tt
  event_NoNotice (clip n) fresh = tt

  yield-Ends :
      {schedule : Option (Reconnect float)} {v u : View} {p : Phase} {item : Item deps}
      {rest : List (Item deps)}
      → Step deps schedule v (some item) u
      → (u.phase ≡ over → (rest ≡ []) × (p ≡ over))
      → Ends p rest
      → Ends p (item ∷ rest)
  yield-Ends (idle is_l _) o later = absurd (none-ne-some (sym is_l))
  yield-Ends (dropped event _ _ _ is_l _) o later = absurd (none-ne-some (sym is_l))
  yield-Ends (retried r e _ _ _ _ is_l _) o later = absurd (none-ne-some (sym is_l))
  yield-Ends (redialed _ is_l _) o later = absurd (none-ne-some (sym is_l))
  yield-Ends {p} {rest} (delivered _ event _ _ _ is_l _) o later =
      subst (λ x. Ends p (x ∷ rest)) (sym (some-injective is_l)) later
  yield-Ends {p} {rest} (resumed _ is_l _) o later =
      subst (λ x. Ends p (x ∷ rest)) (sym (some-injective is_l)) later
  yield-Ends {p} {rest} (gave_up e n _ _ is_l same) o later =
      subst (λ x. Ends p (x ∷ rest)) (sym (some-injective is_l)) (o (ap (λ x. x.phase) same))

  Run-Ends :
      {schedule : Option (Reconnect float)} {v v' : View} {items : List (Item deps)}
      → Run deps schedule v items v'
      → Ends v'.phase items
  Run-Ends stop = tt
  Run-Ends (silent st run) = Run-Ends run
  Run-Ends (yields st run) =
      yield-Ends st (λ o. (over_Run deps run o, over_stays run o)) (Run-Ends run)

  -- Over any polls in any worlds an error that a new stream yields is its last item, and leaves it over.
  pub next_items-Ends :
      (client : Client) (request : SubscribeRequest) (schedule : Option (Reconnect float))
      (stream : io.Streaming) (fuel : ℕ) (ws : List io.World)
      → let r = next_items deps fuel ws (new deps client request schedule stream) in
        Ends (view deps r.1).phase r.0
  next_items-Ends client request schedule stream fuel ws =
      Run-Ends (new-Run deps client request schedule stream fuel ws)

  yield-NoNotice :
      {v u : View} {item : Item deps}
      → Step deps none v (some item) u
      → IsValid deps none v
      → NoNotice item
  yield-NoNotice (idle is_l _) h = absurd (none-ne-some (sym is_l))
  yield-NoNotice (dropped event _ _ _ is_l _) h = absurd (none-ne-some (sym is_l))
  yield-NoNotice (retried r e _ _ _ _ is_l _) h = absurd (none-ne-some (sym is_l))
  yield-NoNotice (redialed _ is_l _) h = absurd (none-ne-some (sym is_l))
  yield-NoNotice (delivered update event _ into _ is_l _) h =
      subst NoNotice (sym (some-injective is_l))
        (event_NoNotice event (λ n e. feed.no_reconnected update n (into ∙ ap some e)))
  yield-NoNotice {v} (resumed e is_l _) h =
      absurd (subst (λ p. InLimit deps none p v.attempts) e h.limited)
  yield-NoNotice (gave_up e n _ _ is_l same) h = subst NoNotice (sym (some-injective is_l)) tt

  Run-NoNotice :
      {v v' : View} {items : List (Item deps)}
      → Run deps none v items v'
      → IsValid deps none v
      → All NoNotice items
  Run-NoNotice stop h = tt
  Run-NoNotice (silent st run) h = Run-NoNotice run (Step-IsValid deps st h)
  Run-NoNotice (yields st run) h = (yield-NoNotice st h, Run-NoNotice run (Step-IsValid deps st h))

  -- A new stream without a schedule never yields a reconnect notice, over any polls in any worlds.
  pub next_items-NoNotice :
      (client : Client) (request : SubscribeRequest) (stream : io.Streaming) (fuel : ℕ)
      (ws : List io.World)
      → All NoNotice (next_items deps fuel ws (new deps client request none stream)).0
  next_items-NoNotice client request stream fuel ws =
      Run-NoNotice (new-Run deps client request none stream fuel ws)
        (new-IsValid deps client request none stream)
