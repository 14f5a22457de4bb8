-- ===== src/Cli/Follow.antt =====
-- What the loop of the program over a stream logs, against the items that the stream yields.
use preconfs_client.Prelude.{
  ℕ, ◌≡◌, refl, sym, ap, Option, none, some, List, [], ◌∷◌, ◌++◌, Text, ok, err,
}
use preconfs_client.Proto.{SubscribeRequest}
use preconfs_client.Reconnect.{Reconnect}
use preconfs_client.Stream.{
  ended, Deps, EventStream, Item, Outcome, ready, pending, poll_next, gather, next_items, new,
}
use preconfs_client.Stream.Alive.{IsAlive, Polled, poll_next-Polled, ended_silent}
use preconfs_client.Cli.Log.{Line, log_item}
use preconfs_client.Cli.Run.{Ending, unfinished, stream_failed, Report, after, handle, follow}

module _ {Client Status Signature : Type 0} (deps : Deps Client Status)
    (log : List Text → deps.feed.Transaction → Line Signature) where
  -- The lines of the events among some items, in order.
  unfoldable pub lines : List (Item deps) → List (Line Signature)
  lines [] = []
  lines (ok event ∷ rest) = log_item log event ++ lines rest
  lines (err e ∷ rest) = lines rest

  -- How the program stands behind some items: an error among them has ended it.
  unfoldable pub stand : {ConnectFailure : Type 0} → List (Item deps) → Ending ConnectFailure Status
  stand [] = unfinished
  stand (ok event ∷ rest) = stand rest
  stand (err e ∷ rest) = stream_failed e

  abbrev pub report_of :
      {ConnectFailure : Type 0} → List (Item deps) → Report Signature ConnectFailure Status
  report_of items = (lines items, stand items)

  abbrev Rest : Type 0
  Rest = EventStream deps → List (Item deps) × EventStream deps

  handle-gather :
      {ConnectFailure : Type 0} (o : Option (Outcome deps)) (s : EventStream deps)
      (rest : EventStream deps → Report Signature ConnectFailure Status) (items : Rest)
      → Polled deps o
      → ((s' : EventStream deps) → IsAlive s'.state → rest s' ≡ report_of (items s').0)
      → ((s' : EventStream deps) → s'.state ≡ ended → (items s').0 ≡ [])
      → handle deps log o rest ≡ report_of (gather deps o s items).0
  unfolding handle gather lines stand
  handle-gather none s rest items h alive over = refl
  handle-gather (some (pending, s', w)) s rest items h alive over = alive s' h
  handle-gather (some (ready none, s', w)) s rest items h alive over = absurd h
  handle-gather (some (ready (some (err e)), s', w)) s rest items h alive over =
      ap (λ l. (lines l, stream_failed e)) (sym (over s' h))
  handle-gather (some (ready (some (ok event)), s', w)) s rest items h alive over =
      ap (after (log_item log event)) (alive s' h)

  pub follow-report_of :
      {ConnectFailure : Type 0} (fuel : ℕ) (ws : List deps.io.World) (s : EventStream deps)
      → IsAlive s.state
      → follow {ConnectFailure = ConnectFailure} deps log fuel ws s
        ≡ report_of (next_items deps fuel ws s).0
  unfolding follow next_items lines stand
  follow-report_of fuel [] s h = refl
  follow-report_of fuel (w ∷ ws) s h =
      handle-gather (poll_next deps fuel s w) s (follow deps log fuel ws) (next_items deps fuel ws)
        (poll_next-Polled deps fuel s w h) (follow-report_of fuel ws) (ended_silent deps fuel ws)

  -- The loop of the program over a new stream, over any polls in any worlds, logs the line of each event
  -- that the stream yields, in order and no other line; an error that the stream yields is what the
  -- program ends with, and without one it goes on.
  pub follow-eq-report_of :
      {ConnectFailure : Type 0} (client : Client) (request : SubscribeRequest)
      (schedule : Option (Reconnect deps.float)) (stream : deps.io.Streaming) (fuel : ℕ)
      (ws : List deps.io.World)
      → let s = new deps client request schedule stream in
        follow {ConnectFailure = ConnectFailure} deps log fuel ws s
        ≡ report_of (next_items deps fuel ws s).0
  unfolding new
  follow-eq-report_of client request schedule stream fuel ws =
      follow-report_of fuel ws (new deps client request schedule stream) tt
