-- ===== src/Stream/Delivery.antt =====
-- What a live stream makes of the updates that it receives, against a definition of it by recursion on
-- the updates.
use preconfs_client.Prelude.{
  ℕ, ◌≤◌, ◌≡◌, refl, sym, ap, ◌∙◌, subst, Bool, true, false, ◌||◌, Option, none, some, List, [],
  ◌∷◌, map, length, length-map, ok, Bool-cases, Option-cases, if◌then◌else◌, inl, inr,
}
use preconfs_client.Event.{Event}
use preconfs_client.Reconnect.{Reconnect}
use preconfs_client.Stream.{ready, Deps, EventStream, streaming, Item, is_slot_start, Turn, turn}
use preconfs_client.Stream.Protocol.{View, view, live, phase_of}
use preconfs_client.Stream.Rounds.{turn_skips, turn_holds, turn_yields}
use preconfs_client.Stream.Machine.{
  Answer, sent, Output, received, and_items, replay, GivesIn, behind_turn, Gives, polls,
}
use preconfs_client.Stream.Replay.{polls-eq-replay}

module _ {Client Status : Type 0} (deps : Deps Client Status) where
  open deps use {feed, float, io}

  -- The raw stream has these updates ready, one poll after the other.
  abbrev pub Feeds : List feed.Update → io.Streaming → io.World → Type 0
  Feeds [] t w = Unit
  Feeds (u ∷ us) t w = let r = io.poll_stream t w in (r.0 ≡ ready (some (ok u))) × Feeds us r.1 r.2

  -- An event that the framing lets through, before the events behind it.
  abbrev pub let_through :
      Bool
      → Event feed.Transaction
      → (Bool → List (Event feed.Transaction))
      → List (Event feed.Transaction)
  let_through framed event rest =
      if framed || is_slot_start event then event ∷ rest true else rest framed

  abbrev pub behind :
      Bool
      → Option (Event feed.Transaction)
      → (Bool → List (Event feed.Transaction))
      → List (Event feed.Transaction)
  behind framed none rest = rest framed
  behind framed (some event) rest = let_through framed event rest

  -- The events of a run of updates: those that are none are left out, and so is what comes before the
  -- first `slot_start` of a stream that is not framed yet.
  unfoldable pub events_of : List feed.Update → Bool → List (Event feed.Transaction)
  events_of [] framed = []
  events_of (u ∷ us) framed = behind framed (feed.into_event u) (events_of us)

  abbrev update_sent : feed.Update → Answer deps
  update_sent u = sent (some (ok u))

  -- The answers behind a round that keeps the raw stream.
  behind_round :
      (us : List feed.Update) (s : EventStream deps) (w x : io.World) (t : io.Streaming)
      (round : Turn deps)
      → turn deps s w ≡ round
      → (behind_turn deps round).0.state ≡ streaming t
      → (behind_turn deps round).1 ≡ x
      → ((u : EventStream deps) → u.state ≡ streaming t → Gives deps (map update_sent us) u x)
      → Gives deps
          (map update_sent us)
          (behind_turn deps (turn deps s w)).0
          (behind_turn deps (turn deps s w)).1
  behind_round us s w x t round e live_on same h =
      subst (λ r. Gives deps (map update_sent us) (behind_turn deps r).0 (behind_turn deps r).1)
        (sym e)
        (subst (Gives deps (map update_sent us) (behind_turn deps round).0) (sym same)
          (h _ live_on))

  updates-Gives :
      (us : List feed.Update) (s : EventStream deps) (t : io.Streaming) (w : io.World)
      → s.state ≡ streaming t
      → Feeds us t w
      → Gives deps (map update_sent us) s w
  updates-Gives [] s t w is_t fed = tt
  updates-Gives (u ∷ us) s t w is_t (is_u, fed) =
      let t' = (io.poll_stream t w).1 in
      let x = (io.poll_stream t w).2 in
      let later =
        λ (v : EventStream deps) (e : v.state ≡ streaming t'). updates-Gives us v t' x e fed in
      (
        subst (λ st. GivesIn deps st w (update_sent u)) (sym is_t) is_u,
        elim (Option-cases (feed.into_event u)) [
          | inl nothing ↦
              behind_round us s w x t' _ (turn_skips deps s t w u is_t is_u nothing) refl refl later
          | inr (event, into) ↦ elim (Bool-cases (s.framed || is_slot_start event)) [
            | inl on_time ↦
                behind_round us s w x t' _ (turn_yields deps s t w u event is_t is_u into on_time)
                  refl refl later
            | inr held ↦
                behind_round us s w x t' _ (turn_holds deps s t w u event is_t is_u into held) refl
                  refl later
          ]
        ],
      )

  abbrev live_view : ℕ → Bool → View
  live_view attempts framed = record { phase = live; attempts = attempts; framed = framed }

  let_through-replay :
      (passes framed : Bool) (attempts : ℕ) (event : Event feed.Transaction)
      (rest : Bool → List (Event feed.Transaction)) (items : View → List (Item deps))
      → ((n : ℕ) (b : Bool) → items (live_view n b) ≡ map ok (rest b))
      → let out : Output deps =
          if passes
          then (some (ok event), live_view 0 true)
          else (none, live_view attempts framed) in
        and_items deps out.0 (items out.1)
        ≡ map ok (if passes then event ∷ rest true else rest framed)
  let_through-replay true framed attempts event rest items h = ap (λ l. ok event ∷ l) (h 0 true)
  let_through-replay false framed attempts event rest items h = h attempts framed

  behind-replay :
      (o : Option (Event feed.Transaction)) (framed : Bool) (attempts : ℕ)
      (rest : Bool → List (Event feed.Transaction)) (items : View → List (Item deps))
      → ((n : ℕ) (b : Bool) → items (live_view n b) ≡ map ok (rest b))
      → let out = received deps (live_view attempts framed) o in
        and_items deps out.0 (items out.1) ≡ map ok (behind framed o rest)
  behind-replay none framed attempts rest items h = h attempts framed
  behind-replay (some event) framed attempts rest items h =
      let_through-replay (framed || is_slot_start event) framed attempts event rest items h

  replay-eq-events_of :
      (schedule : Option (Reconnect float)) (us : List feed.Update) (attempts : ℕ) (framed : Bool)
      → replay deps schedule (map update_sent us) (live_view attempts framed)
        ≡ map ok (events_of us framed)
  unfolding replay events_of
  replay-eq-events_of schedule [] attempts framed = refl
  replay-eq-events_of schedule (u ∷ us) attempts framed =
      behind-replay (feed.into_event u) framed attempts (events_of us)
        (replay deps schedule (map update_sent us)) (replay-eq-events_of schedule us)

  -- A stream that is live and has updates ready yields, over as many calls of `poll_next` as they hold
  -- events, exactly these events in order: none is lost, repeated or moved, pings are left out, and a
  -- stream that is not framed yet begins with the first `slot_start`. A call takes at most one round of
  -- its fuel for each update.
  pub polls-eq-events_of :
      (us : List feed.Update) (fuel : ℕ) (s : EventStream deps) (t : io.Streaming) (w : io.World)
      → s.state ≡ streaming t
      → Feeds us t w
      → length us ≤ fuel
      → polls deps fuel (length (events_of us s.framed)) s w ≡ map ok (events_of us s.framed)
  polls-eq-events_of us fuel s t w is_t fed enough =
      let answers = map update_sent us in
      let same : replay deps s.reconnect answers (view deps s) ≡ map ok (events_of us s.framed) =
        ap (replay deps s.reconnect answers) (live_on is_t)
        ∙ replay-eq-events_of s.reconnect us s.attempts s.framed in
      let counted = sym (ap length same ∙ length-map ok (events_of us s.framed)) in
      let run =
        polls-eq-replay deps answers fuel s w (updates-Gives us s t w is_t fed)
          (subst (λ n. n ≤ fuel) (sym (length-map update_sent us)) enough) in
      ap (λ n. polls deps fuel n s w) counted ∙ run ∙ same
    where
      live_on : s.state ≡ streaming t → view deps s ≡ live_view s.attempts s.framed
      live_on e =
          ap (λ st. record { phase = phase_of st; attempts = s.attempts; framed = s.framed }) e
