-- ===== src/Cli/Arms.antt =====
-- The arm of `main` for one feed: a subscription in a region of the feed, and the loop over its stream.
use preconfs_client.Prelude.{
  ℕ, not, ◌≡◌, refl, sym, ap, subst, ◌∙◌, true, List, [], Text, Result, ok, err, if-false,
}
use preconfs_client.Limits.{FilterError}
use preconfs_client.Errors.{Code, SubscribeError, filter, status}
use preconfs_client.Proto.{SubscribeRequest}
use preconfs_client.Feed.{Feed, Region, eq}
use preconfs_client.Region.{feed}
use preconfs_client.Filters.{Filters, into_request}
use preconfs_client.Event.{FeedUpdate}
use preconfs_client.Reconnect.{Float}
use preconfs_client.Connect.{Transport, Client}
use preconfs_client.Stream.{Io, EventStream, next_items, new}
use preconfs_client.Client.{deps, opened, send, subscribe}
use preconfs_client.Cli.Log.{Line}
use preconfs_client.Cli.Run.{subscribe_failed, Report, on_subscribed}
use preconfs_client.Cli.Follow.{report_of, follow-eq-report_of}

eq_refl : (f : Feed) → eq f f ≡ true
unfolding eq
eq_refl Feed.harmonic = refl
eq_refl Feed.bam = refl

module _ {net : Transport} {float : Float} {Status Signature ConnectFailure : Type 0}
    (code : Status → Code) (updates : FeedUpdate) (io : Io (Client net float) Status updates.Update)
    (await : io.Connecting → io.World → Result Status io.Streaming × io.World)
    (log : List Text → updates.Transaction → Line Signature) {Pubkey Sig : Type 0} (usize_max : ℕ)
    (key : Pubkey → Text) (sig : Sig → Text) (self : Client net float) (r : Region)
    (fs : Filters Pubkey Sig) (fuel : ℕ) (polls : io.World → List io.World) (w : io.World) where
  -- What the program reports of a subscription: the error of the filters or of the server, or the events
  -- of a new stream that carries the client, the request of the filters and the client's schedule. It is
  -- polled in the worlds that come behind the one of the server's answer.
  pub data Streamed (report : Report Signature ConnectFailure Status) : Type 0 where
    bad_filters :
        (e : FilterError)
        → into_request usize_max key sig fs r ≡ err e
        → report ≡ ([], subscribe_failed (filter e))
        → Streamed report
    refused :
        (request : SubscribeRequest) (s : Status)
        → into_request usize_max key sig fs r ≡ ok request
        → (await (io.subscribe self request) w).0 ≡ err s
        → report ≡ ([], subscribe_failed (status s))
        → Streamed report
    streamed :
        (request : SubscribeRequest) (stream : io.Streaming) (w' : io.World)
        → into_request usize_max key sig fs r ≡ ok request
        → await (io.subscribe self request) w ≡ (ok stream, w')
        → report
          ≡ report_of (deps code updates io) log (
              (next_items
                (deps code updates io)
                fuel
                (polls w')
                (new (deps code updates io) self request self.reconnect stream)).0)
        → Streamed report

  abbrev reported :
      Result (SubscribeError Status) (EventStream (deps code updates io)) × io.World
      → Report Signature ConnectFailure Status
  reported = on_subscribed (deps code updates io) log fuel polls

  opened-Streamed :
      (request : SubscribeRequest) (a : Result Status io.Streaming × io.World)
      → into_request usize_max key sig fs r ≡ ok request
      → await (io.subscribe self request) w ≡ a
      → Streamed (reported (opened code updates io self request a))
  unfolding opened on_subscribed
  opened-Streamed request (err s, w') built asked =
      refused request s built (ap (λ a. a.0) asked) refl
  opened-Streamed request (ok stream, w') built asked = streamed request stream w' built asked (
      follow-eq-report_of (deps code updates io) log self request self.reconnect stream fuel
        (polls w'))

  send-Streamed :
      (built : Result FilterError SubscribeRequest)
      → into_request usize_max key sig fs r ≡ built
      → Streamed (reported (send code updates io await self built w))
  unfolding send on_subscribed
  send-Streamed (err e) is_built = bad_filters e is_built refl
  send-Streamed (ok request) is_built =
      opened-Streamed request (await (io.subscribe self request) w) is_built refl

  pub subscribe-Streamed :
      (f : Feed)
      → feed r ≡ f
      → Streamed (reported (subscribe code updates io await usize_max key sig self f r fs w))
  unfolding subscribe
  subscribe-Streamed f of_feed =
      let own = ap not (ap (λ x. eq x f) of_feed ∙ eq_refl f) in
      subst (λ x. Streamed (reported x)) (sym (if-false _ _ _ own))
        (send-Streamed (into_request usize_max key sig fs r) refl)
