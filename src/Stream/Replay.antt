-- ===== src/Stream/Replay.antt =====
-- `poll_next` against the machine that takes one answer at a time.
use preconfs_client.Prelude.{
  ℕ, zero, suc, ◌≤◌, ◌≡◌, refl, ap, ◌∙◌, subst, arith, Option, none, some, List, [], ◌∷◌, length,
}
use preconfs_client.Reconnect.{Reconnect}
use preconfs_client.Stream.{
  ready, pending, Deps, EventStream, Item, Turn, returns, again, turn, proceed, poll_next,
}
use preconfs_client.Stream.Protocol.{view}
use preconfs_client.Stream.Machine.{
  Answer, Output, step, and_items, replay, behind_turn, Gives, gather_polls, polls,
}
use preconfs_client.Stream.Follows.{Follows, turn-Follows}

module _ {Client Status : Type 0} (deps : Deps Client Status) where
  open deps use {feed, float, io}

  nothing_polled : (fuel : ℕ) (s : EventStream deps) (w : io.World) → polls deps fuel 0 s w ≡ []
  unfolding polls
  nothing_polled fuel s w = refl

  polls_step :
      (fuel n : ℕ) (s u : EventStream deps) (w x : io.World) (item : Item deps)
      → poll_next deps fuel s w ≡ some (ready (some item), u, x)
      → polls deps fuel (suc n) s w ≡ item ∷ polls deps fuel n u x
  unfolding polls
  polls_step fuel n s u w x item e = ap (λ o. gather_polls deps o (polls deps fuel n)) e

  -- A poll that returns an item, with the answers that are left.
  record Reaches (fuel most : ℕ) (schedule : Option (Reconnect float)) (s : EventStream deps)
      (w : io.World) (item : Item deps) (rest : List (Item deps)) : Type 0 where
    stream : EventStream deps
    world : io.World
    left : List (Answer deps)
    polled : poll_next deps fuel s w ≡ some (ready (some item), stream, world)
    given : Gives deps left stream world
    few : length left ≤ most
    kept : stream.reconnect ≡ schedule
    others : replay deps schedule left (view deps stream) ≡ rest

  -- The round that a poll begins with, and what it does behind it.
  Reaches-by :
      (fuel : ℕ) (schedule : Option (Reconnect float)) (answers : List (Answer deps))
      (out : Output deps) (t : Turn deps) (s : EventStream deps) (w : io.World) {item : Item deps}
      {rest : List (Item deps)}
      → turn deps s w ≡ t
      → Follows deps schedule out t
      → Gives deps answers (behind_turn deps t).0 (behind_turn deps t).1
      → and_items deps out.0 (replay deps schedule answers out.1) ≡ item ∷ rest
      → ((u : EventStream deps) (x : io.World)
          → u.reconnect ≡ schedule
          → Gives deps answers u x
          → replay deps schedule answers (view deps u) ≡ item ∷ rest
          → Reaches fuel (length answers) schedule u x item rest)
      → Reaches (suc fuel) (suc (length answers)) schedule s w item rest
  unfolding poll_next proceed
  Reaches-by fuel schedule answers (none, v) (again u x) s w is_t (seen, kept) given e later =
      let r = later u x kept given (ap (replay deps schedule answers) seen ∙ e) in
      record {
        stream = r.stream;
        world = r.world;
        left = r.left;
        polled = ap (proceed deps (poll_next deps fuel)) is_t ∙ r.polled;
        given = r.given;
        few = let few = r.few in omega arith;
        kept = r.kept;
        others = r.others;
      }
  Reaches-by fuel schedule answers (some i, v) (returns (ready (some j)) u x) s w {item} is_t
        (same, seen, kept) given e later =
      let is_item : j ≡ item = cc in
      record {
        stream = u;
        world = x;
        left = answers;
        polled =
            ap (proceed deps (poll_next deps fuel)) is_t
            ∙ ap (λ y. some (ready (some y), u, x)) is_item;
        given = given;
        few = omega arith;
        kept = kept;
        others = ap (replay deps schedule answers) seen ∙ cc;
      }
  Reaches-by fuel schedule answers (none, v) (returns answer u x) s w is_t h given e later =
      absurd h
  Reaches-by fuel schedule answers (some i, v) (returns (ready none) u x) s w is_t h given e later =
      absurd h
  Reaches-by fuel schedule answers (some i, v) (returns pending u x) s w is_t h given e later =
      absurd h
  Reaches-by fuel schedule answers (some i, v) (again u x) s w is_t h given e later = absurd h

  poll-Reaches :
      (answers : List (Answer deps)) (fuel : ℕ) (s : EventStream deps) (w : io.World)
      {item : Item deps} {rest : List (Item deps)}
      → Gives deps answers s w
      → length answers ≤ fuel
      → replay deps s.reconnect answers (view deps s) ≡ item ∷ rest
      → Reaches fuel (length answers) s.reconnect s w item rest
  unfolding replay
  poll-Reaches [] fuel s w given enough e = cc
  poll-Reaches (a ∷ answers) zero s w given enough e = absurd (omega arith)
  poll-Reaches (a ∷ answers) (suc fuel) s w {item} {rest} (now, given) enough e =
      Reaches-by fuel s.reconnect answers (step deps s.reconnect (view deps s) a) (turn deps s w) s
        w refl (turn-Follows deps s a w now) given e
        (λ u x kept given' e'.
          let same = ap (λ r. replay deps r answers (view deps u)) kept ∙ e' in
          subst (λ r. Reaches fuel (length answers) r u x item rest) kept
            (poll-Reaches answers fuel u x given' (omega arith) same))

  polls_all :
      (items : List (Item deps)) (answers : List (Answer deps)) (fuel : ℕ) (s : EventStream deps)
      (w : io.World)
      → Gives deps answers s w
      → length answers ≤ fuel
      → replay deps s.reconnect answers (view deps s) ≡ items
      → polls deps fuel (length items) s w ≡ items
  polls_all [] answers fuel s w given enough e = nothing_polled fuel s w
  polls_all (item ∷ items) answers fuel s w given enough e =
      let r = poll-Reaches answers fuel s w given enough e in
      let few = r.few in
      let same = ap (λ x. replay deps x r.left (view deps r.stream)) r.kept ∙ r.others in
      polls_step fuel (length items) s r.stream w r.world item r.polled
      ∙ ap (λ l. item ∷ l) (polls_all items r.left fuel r.stream r.world r.given (omega arith) same)

  -- Whatever answers the outside has ready for the rounds of the loop, updates, losses, timers and attempts
  -- to resubscribe among them, the items that a stream yields over calls of `poll_next` are exactly those
  -- that `replay` makes of the answers one by one, from what the stream has counted and framed and under its
  -- schedule. A call takes at most one round of its fuel for each answer.
  pub polls-eq-replay :
      (answers : List (Answer deps)) (fuel : ℕ) (s : EventStream deps) (w : io.World)
      → Gives deps answers s w
      → length answers ≤ fuel
      → let items = replay deps s.reconnect answers (view deps s) in
        polls deps fuel (length items) s w ≡ items
  polls-eq-replay answers fuel s w given enough =
      polls_all (replay deps s.reconnect answers (view deps s)) answers fuel s w given enough refl
