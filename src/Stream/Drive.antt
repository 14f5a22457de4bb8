-- ===== src/Stream/Drive.antt =====
-- Polls in a row are a run of the protocol.
use preconfs_client.Prelude.{ℕ, zero, suc, subst, Option, none, some, List, [], ◌∷◌}
use preconfs_client.Proto.{SubscribeRequest}
use preconfs_client.Reconnect.{Reconnect}
use preconfs_client.Stream.{
  new, ready, pending, Deps, EventStream, Item, Turn, returns, again, turn, Outcome, proceed,
  poll_next, gather, next_items,
}
use preconfs_client.Stream.Protocol.{View, view, Step, Run, stop, silent, yields}
use preconfs_client.Stream.Refinement.{SameSetup, item_of, Refines, turn-Refines}

module _ {Client Status : Type 0} (deps : Deps Client Status) where
  open deps use {float, io}

  abbrev items_of : Option (Item deps) → List (Item deps) → List (Item deps)
  items_of none rest = rest
  items_of (some item) rest = item ∷ rest

  one_step :
      (s s' : EventStream deps) (l : Option (Item deps)) {items : List (Item deps)} {v : View}
      → Step deps s.reconnect (view deps s) l (view deps s')
      → SameSetup deps s s'
      → Run deps s'.reconnect (view deps s') items v
      → Run deps s.reconnect (view deps s) (items_of l items) v
  one_step s s' none {items} {v} st kept run =
      silent st (subst (λ r. Run deps r (view deps s') items v) kept.reconnect run)
  one_step s s' (some item) {items} {v} st kept run =
      yields st (subst (λ r. Run deps r (view deps s') items v) kept.reconnect run)

  -- A run that goes on behind what a call of `poll_next` answers begins before the call.
  abbrev Extends : EventStream deps → Option (Outcome deps) → Type 0
  Extends s none = Unit
  Extends s (some (answer, s', w)) =
      (items : List (Item deps)) (v : View)
      → Run deps s'.reconnect (view deps s') items v
      → Run deps s.reconnect (view deps s) (items_of (item_of deps answer) items) v

  silent_Extends :
      (s u : EventStream deps) (o : Option (Outcome deps))
      → Step deps s.reconnect (view deps s) none (view deps u)
      → SameSetup deps s u
      → Extends u o
      → Extends s o
  silent_Extends s u none st kept h = tt
  silent_Extends s u (some (answer, s', w)) st kept h =
      λ items v run. one_step s u none st kept (h items v run)

  proceed-Extends :
      (t : Turn deps) (s : EventStream deps)
      (rest : EventStream deps → io.World → Option (Outcome deps))
      → Refines deps s t
      → ((u : EventStream deps) (x : io.World) → Extends u (rest u x))
      → Extends s (proceed deps rest t)
  unfolding proceed
  proceed-Extends (again u x) s rest (st, kept) h = silent_Extends s u (rest u x) st kept (h u x)
  proceed-Extends (returns answer u x) s rest (st, kept) h =
      λ items v run. one_step s u (item_of deps answer) st kept run

  poll_next-Extends :
      (fuel : ℕ) (s : EventStream deps) (w : io.World) → Extends s (poll_next deps fuel s w)
  unfolding poll_next
  poll_next-Extends zero s w = tt
  poll_next-Extends (suc fuel) s w =
      proceed-Extends (turn deps s w) s (poll_next deps fuel) (turn-Refines deps s w)
        (poll_next-Extends fuel)

  abbrev IsRun : EventStream deps → List (Item deps) × EventStream deps → Type 0
  IsRun s r = Run deps s.reconnect (view deps s) r.0 (view deps r.1)

  gather-Run :
      (o : Option (Outcome deps)) (s : EventStream deps)
      (rest : EventStream deps → List (Item deps) × EventStream deps)
      → Extends s o
      → ((u : EventStream deps) → IsRun u (rest u))
      → IsRun s (gather deps o s rest)
  unfolding gather
  gather-Run none s rest h later = stop
  gather-Run (some (pending, u, w)) s rest h later = h _ _ (later u)
  gather-Run (some (ready none, u, w)) s rest h later = h _ _ (later u)
  gather-Run (some (ready (some item), u, w)) s rest h later = h _ _ (later u)

  -- Whatever the polls answer, the items that a stream yields over any number of calls are those of a
  -- run of the protocol from the stream's view, under its schedule.
  pub next_items-Run :
      (fuel : ℕ) (ws : List io.World) (s : EventStream deps)
      → Run deps s.reconnect
          (view deps s)
          (next_items deps fuel ws s).0
          (view deps (next_items deps fuel ws s).1)
  unfolding next_items
  next_items-Run fuel [] s = stop
  next_items-Run fuel (w ∷ ws) s =
      gather-Run (poll_next deps fuel s w) s (next_items deps fuel ws) (poll_next-Extends fuel s w)
        (next_items-Run fuel ws)

  -- The same from a new stream.
  pub new-Run :
      (client : Client) (request : SubscribeRequest) (schedule : Option (Reconnect float))
      (stream : io.Streaming) (fuel : ℕ) (ws : List io.World)
      → let s = new deps client request schedule stream in
        Run deps schedule
          (view deps s)
          (next_items deps fuel ws s).0
          (view deps (next_items deps fuel ws s).1)
  unfolding new
  new-Run client request schedule stream fuel ws =
      next_items-Run fuel ws (new deps client request schedule stream)
