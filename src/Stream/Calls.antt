-- ===== src/Stream/Calls.antt =====
-- Calls of `poll_next` in the worlds of `next_items`, which may find nothing ready, against the machine that
-- takes one answer at a time.
use preconfs_client.Prelude.{
  ℕ, zero, suc, ◌<◌, ◌≡◌, refl, sym, ap, ◌∙◌, subst, arith, Option, none, some, List, [], ◌∷◌, ◌++◌,
  length,
}
use preconfs_client.Reconnect.{Reconnect}
use preconfs_client.Stream.{
  ready, pending, Deps, EventStream, State, streaming, waiting, connecting, ended, Item, Turn,
  returns, again, turn, turn_in, on_stream, on_connecting, on_sleep, Outcome, proceed, poll_next,
  gather, next_items,
}
use preconfs_client.Stream.Protocol.{View, view, phase_of}
use preconfs_client.Stream.Machine.{Answer, Output, step, and_items, replay, GivesIn, behind_turn}
use preconfs_client.Stream.Follows.{Follows, turn-Follows}

module _ {Client Status : Type 0} (deps : Deps Client Status) where
  open deps use {feed, float, io}

  -- The world has nothing ready for what the stream polls in its state.
  abbrev IdleIn : State io.Streaming io.Sleep io.Connecting → io.World → Type 0
  IdleIn (streaming stream) w = (io.poll_stream stream w).0 ≡ pending
  IdleIn (waiting timer) w = (io.poll_sleep timer w).0 ≡ pending
  IdleIn (connecting future) w = (io.poll_connecting future w).0 ≡ pending
  IdleIn ended w = Unit

  -- What holds behind a round: `last` where the call ends with it, or `rest` where the loop goes on.
  abbrev Behind : Type 0 → (EventStream deps → io.World → Type 0) → Turn deps → Type 0
  Behind last rest (returns answer s w) = last
  Behind last rest (again s w) = rest s w

  -- One call takes these answers: all that are ready up to the first that yields an item.
  abbrev pub Takes : List (Answer deps) → EventStream deps → io.World → Type 0
  Takes [] s w = IdleIn s.state w
  Takes (a ∷ answers) s w =
      GivesIn deps s.state w a × Behind (answers ≡ []) (Takes answers) (turn deps s w)

  abbrev left_turn : (EventStream deps → io.World → EventStream deps) → Turn deps → EventStream deps
  left_turn rest (returns answer s w) = s
  left_turn rest (again s w) = rest s w

  -- The stream that the call leaves.
  abbrev pub left_by : List (Answer deps) → EventStream deps → io.World → EventStream deps
  left_by [] s w = (behind_turn deps (turn deps s w)).0
  left_by (a ∷ answers) s w = left_turn (left_by answers) (turn deps s w)

  -- A call in each world, with the answers that it takes and enough fuel for them.
  abbrev pub Called : ℕ → List (List (Answer deps)) → List io.World → EventStream deps → Type 0
  Called fuel [] [] s = Unit
  Called fuel (answers ∷ later) (w ∷ ws) s =
      Takes answers s w × (length answers < fuel) × Called fuel later ws (left_by answers s w)
  Called fuel _ _ s = ⊥

  abbrev pub joined : List (List (Answer deps)) → List (Answer deps)
  joined [] = []
  joined (answers ∷ later) = answers ++ joined later

  -- A round that finds nothing ready changes nothing that counts.
  abbrev Idles : EventStream deps → Turn deps → Type 0
  Idles s (returns pending u w) = (view deps u ≡ view deps s) × (u.reconnect ≡ s.reconnect)
  Idles s (returns (ready none) u w) = (view deps u ≡ view deps s) × (u.reconnect ≡ s.reconnect)
  Idles s _ = ⊥

  kept_view :
      (st : State io.Streaming io.Sleep io.Connecting) (s : EventStream deps)
      → s.state ≡ st
      → record { phase = phase_of st; attempts = s.attempts; framed = s.framed } ≡ view deps s
  kept_view st s e =
      ap (λ x. record { phase = phase_of x; attempts = s.attempts; framed = s.framed }) (sym e)

  turn_in-Idles :
      (st : State io.Streaming io.Sleep io.Connecting) (s : EventStream deps) (w : io.World)
      → s.state ≡ st
      → IdleIn st w
      → Idles s (turn_in deps st s w)
  unfolding turn_in on_stream on_connecting on_sleep
  turn_in-Idles (streaming t) s w is_t idle =
      let p = io.poll_stream t w in
      subst (λ x. Idles s (on_stream deps s (x, p.1, p.2))) (sym idle) (kept_view _ s is_t, refl)
  turn_in-Idles (waiting t) s w is_t idle =
      let p = io.poll_sleep t w in
      subst (λ x. Idles s (on_sleep deps s (x, p.1, p.2))) (sym idle) (kept_view _ s is_t, refl)
  turn_in-Idles (connecting f) s w is_t idle =
      let p = io.poll_connecting f w in
      subst (λ x. Idles s (on_connecting deps s (x, p.1, p.2))) (sym idle)
        (kept_view _ s is_t, refl)
  turn_in-Idles ended s w is_t idle = (refl, refl)

  turn-Idles : (s : EventStream deps) (w : io.World) → IdleIn s.state w → Idles s (turn deps s w)
  unfolding turn
  turn-Idles s w idle = turn_in-Idles s.state s w refl idle

  -- A call against the machine: it adds the item that the answers yield, if they yield one, and leaves
  -- the stream with the view and the schedule that the machine goes on with.
  record Answered (schedule : Option (Reconnect float)) (called : Option (Outcome deps))
      (answers : List (Answer deps)) (v : View) (left : EventStream deps) : Type 0 where
    item : Option (Item deps)
    adds :
        (s : EventStream deps) (rest : EventStream deps → List (Item deps) × EventStream deps)
        → (gather deps called s rest).0 ≡ and_items deps item (rest left).0
    replays :
        (later : List (Answer deps))
        → replay deps schedule (answers ++ later) v
          ≡ and_items deps item (replay deps schedule later (view deps left))
    kept : left.reconnect ≡ schedule

  idle-Answered :
      (schedule : Option (Reconnect float)) (t : Turn deps) (s : EventStream deps)
      (rest : EventStream deps → io.World → Option (Outcome deps))
      → s.reconnect ≡ schedule
      → Idles s t
      → Answered schedule (proceed deps rest t) [] (view deps s) (behind_turn deps t).0
  unfolding proceed gather
  idle-Answered schedule (returns pending u w) s rest scheduled (seen, kept) = record {
    item = none;
    adds = λ p later. refl;
    replays = λ later. ap (replay deps schedule later) (sym seen);
    kept = kept ∙ scheduled;
  }
  idle-Answered schedule (returns (ready none) u w) s rest scheduled (seen, kept) = record {
    item = none;
    adds = λ p later. refl;
    replays = λ later. ap (replay deps schedule later) (sym seen);
    kept = kept ∙ scheduled;
  }
  idle-Answered schedule (returns (ready (some i)) u w) s rest scheduled h = absurd h
  idle-Answered schedule (again u w) s rest scheduled h = absurd h

  round-Answered :
      (schedule : Option (Reconnect float)) (answers : List (Answer deps)) (a : Answer deps)
      (v : View) (out : Output deps) (t : Turn deps)
      (rest : EventStream deps → io.World → Option (Outcome deps))
      → step deps schedule v a ≡ out
      → Follows deps schedule out t
      → Behind (answers ≡ []) (Takes answers) t
      → ((u : EventStream deps) (x : io.World)
          → u.reconnect ≡ schedule
          → Takes answers u x
          → Answered schedule (rest u x) answers (view deps u) (left_by answers u x))
      → Answered schedule (proceed deps rest t) (a ∷ answers) v (left_turn (left_by answers) t)
  unfolding proceed gather replay
  round-Answered schedule answers a v (none, v') (again u x) rest is_out (seen, kept) behind ih =
      let r = ih u x kept behind in
      record {
        item = r.item;
        adds = r.adds;
        replays = λ later.
            ap
              (λ (o : Output deps).
                and_items deps o.0 (replay deps schedule (answers ++ later) o.1))
              is_out
            ∙ ap (replay deps schedule (answers ++ later)) (sym seen)
            ∙ r.replays later;
        kept = r.kept;
      }
  round-Answered schedule answers a v (some i, v') (returns (ready (some j)) u x) rest is_out
        (same, seen, kept) behind ih =
      record {
        item = some i;
        adds = λ p later. ap (λ y. y ∷ (later u).0) same;
        replays = λ later.
            ap
              (λ (o : Output deps).
                and_items deps o.0 (replay deps schedule (answers ++ later) o.1))
              is_out
            ∙ ap (λ l. i ∷ replay deps schedule (l ++ later) v') behind
            ∙ ap (λ y. i ∷ replay deps schedule later y) (sym seen);
        kept = kept;
      }
  round-Answered schedule answers a v (none, v') (returns r u x) rest is_out h behind ih = absurd h
  round-Answered schedule answers a v (some i, v') (returns (ready none) u x) rest is_out h behind
        ih =
      absurd h
  round-Answered schedule answers a v (some i, v') (returns pending u x) rest is_out h behind ih =
      absurd h
  round-Answered schedule answers a v (some i, v') (again u x) rest is_out h behind ih = absurd h

  call-Answered :
      (answers : List (Answer deps)) (fuel : ℕ) (s : EventStream deps) (w : io.World)
      → Takes answers s w
      → length answers < fuel
      → Answered s.reconnect (poll_next deps fuel s w) answers (view deps s) (left_by answers s w)
  unfolding poll_next
  call-Answered answers zero s w takes enough = absurd (omega arith)
  call-Answered [] (suc fuel) s w idle enough =
      idle-Answered s.reconnect (turn deps s w) s (poll_next deps fuel) refl (turn-Idles s w idle)
  call-Answered (a ∷ answers) (suc fuel) s w (given, behind) enough =
      round-Answered s.reconnect answers a (view deps s) (step deps s.reconnect (view deps s) a)
        (turn deps s w) (poll_next deps fuel) refl (turn-Follows deps s a w given) behind
        (λ u x kept takes.
          subst
            (λ r. Answered r (poll_next deps fuel u x) answers (view deps u) (left_by answers u x))
            kept (call-Answered answers fuel u x takes (omega arith)))

  -- Whatever each call of `poll_next` finds ready in its world, the items that a stream yields over these
  -- calls are exactly those that `replay` makes of the answers that the calls take, one by one, from what
  -- the stream has counted and framed and under its schedule. A call takes the answers up to the first
  -- that yields an item, or all until nothing is ready, and has more fuel than it takes answers; between two
  -- calls the world may change.
  pub next_items-eq-replay :
      (fuel : ℕ) (calls : List (List (Answer deps))) (ws : List io.World) (s : EventStream deps)
      → Called fuel calls ws s
      → (next_items deps fuel ws s).0 ≡ replay deps s.reconnect (joined calls) (view deps s)
  unfolding next_items replay
  next_items-eq-replay fuel [] [] s called = refl
  next_items-eq-replay fuel [] (w ∷ ws) s called = absurd called
  next_items-eq-replay fuel (answers ∷ later) [] s called = absurd called
  next_items-eq-replay fuel (answers ∷ later) (w ∷ ws) s (takes, enough, called) =
      let left = left_by answers s w in
      let r = call-Answered answers fuel s w takes enough in
      r.adds s (next_items deps fuel ws)
      ∙ ap (and_items deps r.item) (
          next_items-eq-replay fuel later ws left called
          ∙ ap (λ x. replay deps x (joined later) (view deps left)) r.kept)
      ∙ sym (r.replays (joined later))
