-- ===== src/Stream/Framing.antt =====
-- Slot framing and the end of a stream, as the items of a run show them.
use preconfs_client.Prelude.{
  ℕ, none-ne-some, some-injective, ◌≡◌, ◌≢◌, ◌⊎◌, refl, sym, ap, subst, ◌∙◌, Bool, true, false, not,
  Option, none, some, List, [], ◌∷◌, Result, ok, err, arith,
}
use preconfs_client.Errors.{StreamError}
use preconfs_client.Proto.{SubscribeRequest}
use preconfs_client.Reconnect.{Reconnect}
use preconfs_client.Event.{Event, slot_start, transaction, slot_end, clip, reconnected}
use preconfs_client.Stream.{Deps, Item, is_slot_start, new, next_items}
use preconfs_client.Stream.Protocol.{
  over, View, Step, idle, dropped, delivered, retried, gave_up, redialed, resumed, Run, stop,
  silent, yields,
}
use preconfs_client.Stream.Drive.{next_items-Run}

-- Items of a framed feed. Before the first `slot_start`, and after a reconnect until the next, nothing
-- but a `slot_start`, a reconnect or an error is yielded; nothing follows an error.
abbrev pub Framed : {S T : Type 0} → Bool → List (Result (StreamError S) (Event T)) → Type 0
Framed inside [] = Unit
Framed inside (err e ∷ rest) = rest ≡ []
Framed inside (ok (slot_start slot) ∷ rest) = Framed true rest
Framed inside (ok (reconnected n) ∷ rest) = Framed false rest
Framed inside (ok (transaction m) ∷ rest) = (inside ≡ true) × Framed inside rest
Framed inside (ok (slot_end slot) ∷ rest) = (inside ≡ true) × Framed inside rest
Framed inside (ok (clip n) ∷ rest) = (inside ≡ true) × Framed inside rest

-- An event that the framing lets through, before items that are framed behind it.
deliver-Framed :
    {S T : Type 0} (event : Event T) (inside : Bool)
    (items : List (Result (StreamError S) (Event T)))
    → ((n : ℕ) → event ≢ reconnected n)
    → (inside ≡ true) ⊎ (is_slot_start event ≡ true)
    → Framed true items
    → Framed inside (ok event ∷ items)
deliver-Framed (slot_start slot) inside items fresh timely rest = rest
deliver-Framed (reconnected n) inside items fresh timely rest = absurd (fresh n refl)
deliver-Framed (transaction m) true items fresh timely rest = (refl, rest)
deliver-Framed (slot_end slot) true items fresh timely rest = (refl, rest)
deliver-Framed (clip n) true items fresh timely rest = (refl, rest)
deliver-Framed (transaction m) false items fresh timely rest = ground arith
deliver-Framed (slot_end slot) false items fresh timely rest = ground arith
deliver-Framed (clip n) false items fresh timely rest = ground arith

module _ {Client Status : Type 0} (deps : Deps Client Status) where
  open deps use {feed, float}

  module _ {schedule : Option (Reconnect float)} where
    pub over_step :
        {v u : View} {l : Option (Item deps)}
        → Step deps schedule v l u
        → v.phase ≡ over
        → (l ≡ none) × (u.phase ≡ over)
    over_step (idle is_l same) o = (is_l, ap (λ x. x.phase) same ∙ o)
    over_step (dropped event at _ _ _ _) o = ground arith
    over_step (delivered update event at _ _ _ _) o = ground arith
    over_step (retried r e at _ _ _ _ _) o = ground arith
    over_step (gave_up e n at _ _ _) o = ground arith
    over_step (redialed at _ _) o = ground arith
    over_step (resumed at _ _) o = ground arith

    -- A stream that is over yields nothing more.
    pub over_Run :
        {v v' : View} {items : List (Item deps)}
        → Run deps schedule v items v'
        → v.phase ≡ over
        → items ≡ []
    over_Run stop o = refl
    over_Run (silent st run) o = over_Run run (over_step st o).1
    over_Run (yields st run) o = absurd (none-ne-some (sym (over_step st o).0))

    silent_framed : {v u : View} → Step deps schedule v none u → u.framed ≡ v.framed
    silent_framed (idle is_l same) = ap (λ x. x.framed) same
    silent_framed (dropped event at _ _ _ same) = ap (λ x. x.framed) same
    silent_framed (delivered update event at _ _ is_l _) = absurd (none-ne-some is_l)
    silent_framed (retried r e at _ _ _ _ same) = ap (λ x. x.framed) same
    silent_framed (gave_up e n at _ is_l _) = absurd (none-ne-some is_l)
    silent_framed (redialed at _ same) = ap (λ x. x.framed) same
    silent_framed (resumed at is_l _) = absurd (none-ne-some is_l)

    yield-Framed :
        {v u : View} {item : Item deps} {items : List (Item deps)}
        → feed.slot_framing ≡ true
        → Step deps schedule v (some item) u
        → (u.phase ≡ over → items ≡ [])
        → Framed u.framed items
        → Framed v.framed (item ∷ items)
    yield-Framed framing (idle is_l _) last rest = absurd (none-ne-some (sym is_l))
    yield-Framed framing (dropped event _ _ _ is_l _) last rest = absurd (none-ne-some (sym is_l))
    yield-Framed framing (retried r e _ _ _ _ is_l _) last rest = absurd (none-ne-some (sym is_l))
    yield-Framed framing (redialed _ is_l _) last rest = absurd (none-ne-some (sym is_l))
    yield-Framed {v} {items} framing (gave_up e n _ _ is_l same) last rest =
        subst (λ x. Framed v.framed (x ∷ items)) (sym (some-injective is_l))
          (last (ap (λ x. x.phase) same))
    yield-Framed {v} {items} framing (resumed _ is_l same) last rest =
        subst (λ x. Framed v.framed (x ∷ items)) (sym (some-injective is_l))
          (subst (λ b. Framed b items) (ap (λ x. x.framed) same ∙ ap not framing) rest)
    yield-Framed {v} {items} framing (delivered update event _ into timely is_l same) last rest =
        subst (λ x. Framed v.framed (x ∷ items)) (sym (some-injective is_l))
          (deliver-Framed event v.framed items
            (λ n e. feed.no_reconnected update n (into ∙ ap some e)) timely
            (subst (λ b. Framed b items) (ap (λ x. x.framed) same) rest))

    pub Run-Framed :
        {v v' : View} {items : List (Item deps)}
        → feed.slot_framing ≡ true
        → Run deps schedule v items v'
        → Framed v.framed items
    Run-Framed framing stop = tt
    Run-Framed framing (silent {items} st run) =
        subst (λ b. Framed b items) (silent_framed st) (Run-Framed framing run)
    Run-Framed framing (yields st run) =
        yield-Framed framing st (over_Run run) (Run-Framed framing run)

  -- On a feed that frames its slots a new stream yields, over any polls in any worlds: a `slot_start`
  -- before anything but reconnects and errors, the same again behind each reconnect, and nothing
  -- behind an error.
  pub next_items-Framed :
      (client : Client) (request : SubscribeRequest) (schedule : Option (Reconnect float))
      (stream : deps.io.Streaming) (fuel : ℕ) (ws : List deps.io.World)
      → feed.slot_framing ≡ true
      → Framed false (next_items deps fuel ws (new deps client request schedule stream)).0
  unfolding new
  next_items-Framed client request schedule stream fuel ws framing =
      let s = new deps client request schedule stream in
      subst (λ b. Framed b (next_items deps fuel ws s).0) (ap not framing)
        (Run-Framed framing (next_items-Run deps fuel ws s))
