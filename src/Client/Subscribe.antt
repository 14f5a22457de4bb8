-- ===== src/Client/Subscribe.antt =====
-- Every outcome of a subscription.
use preconfs_client.Prelude.{
  ℕ, not, ◌≤◌, ◌≡◌, ◌≢◌, inl, inr, refl, sym, ap, subst, ◌∙◌, false, Text, Result, ok, err,
  Bool-cases, if-true, if-false, arith,
}
use preconfs_client.Limits.{FilterError}
use preconfs_client.Errors.{Code, SubscribeError, region, filter, status}
use preconfs_client.Proto.{SubscribeRequest}
use preconfs_client.Feed.{Feed, Region, eq, eq-true, wrong_feed}
use preconfs_client.Region.{feed}
use preconfs_client.InstructionFilter.Bounds.{u32_max}
use preconfs_client.Filters.{Filters}
use preconfs_client.Filters.Request.{AllU32, IsServable, SetFault}
use preconfs_client.Filters.Verdict.{IsRequestOf, set_verdict}
use preconfs_client.Event.{FeedUpdate}
use preconfs_client.Reconnect.{Float}
use preconfs_client.Connect.{Transport, Client}
use preconfs_client.Stream.{Io, EventStream, new}
use preconfs_client.Client.{deps, opened, send, subscribe}

eq-false : (a b : Feed) → eq a b ≡ false → a ≢ b
unfolding eq
eq-false a b h = ground arith

module _ {net : Transport} {float : Float} {Status : Type 0} (code : Status → Code)
    (updates : FeedUpdate) (io : Io (Client net float) Status updates.Update)
    (await : io.Connecting → io.World → Result Status io.Streaming × io.World)
    {Pubkey Signature : Type 0} (usize_max : ℕ) (wide : u32_max ≤ usize_max) (key : Pubkey → Text)
    (sig : Signature → Text) (self : Client net float) (f : Feed) (r : Region)
    (fs : Filters Pubkey Signature) (w : io.World) where
  abbrev Answer : Type 0
  Answer = Result (SubscribeError Status) (EventStream (deps code updates io)) × io.World

  -- What the transport answers to a request.
  abbrev asked : SubscribeRequest → Result Status io.Streaming × io.World
  asked request = await (io.subscribe self request) w

  -- The request that is sent: the one of the filters, of a region of the feed.
  pub record IsSent (request : SubscribeRequest) : Type 0 where
    pub of_feed : feed r ≡ f
    pub of_filters : IsRequestOf usize_max wide key sig fs r request
    pub servable : IsServable fs

  pub data Subscribed (answer : Answer) : Type 0 where
    other_feed : feed r ≢ f → answer ≡ (err (region (wrong_feed f r)), w) → Subscribed answer
    bad_filters :
        (e : FilterError)
        → feed r ≡ f
        → SetFault fs e
        → answer ≡ (err (filter e), w)
        → Subscribed answer
    refused :
        (request : SubscribeRequest) (s : Status)
        → IsSent request
        → (asked request).0 ≡ err s
        → answer ≡ (err (status s), (asked request).1)
        → Subscribed answer
    subscribed :
        (request : SubscribeRequest) (stream : io.Streaming)
        → IsSent request
        → (asked request).0 ≡ ok stream
        → answer
          ≡ (ok (new (deps code updates io) self request self.reconnect stream), (asked request).1)
        → Subscribed answer

  answered :
      (request : SubscribeRequest) (a : Result Status io.Streaming × io.World)
      → IsSent request
      → asked request ≡ a
      → Subscribed (opened code updates io self request a)
  unfolding opened
  answered request (err s, w') sent e =
      refused request s sent (ap (λ x. x.0) e) (ap (λ x. (err (status s), x.1)) (sym e))
  answered request (ok stream, w') sent e =
      subscribed request stream sent (ap (λ x. x.0) e) (
        ap (λ x. (ok (new (deps code updates io) self request self.reconnect stream), x.1)) (sym e))

  -- A call of `subscribe` on filters with u32 fields has one of four outcomes. A region of the other
  -- feed and filters that break a rule are refused, with the error that says which, and nothing is
  -- sent. Otherwise the request of the filters is sent once, and an error of the server is returned as
  -- it is; a stream that the server opens carries the client, the request and the client's schedule.
  pub subscribe-Subscribed :
      AllU32 fs → Subscribed (subscribe code updates io await usize_max key sig self f r fs w)
  unfolding subscribe send
  subscribe-Subscribed u = elim (Bool-cases (eq (feed r) f)) [
    | inl same ↦
        let of_feed = eq-true (feed r) f same in
        let goes = if-false _ _ _ (ap not same) in
        elim (set_verdict usize_max wide key sig fs r u) [
          | inr (e, bad, fault) ↦
              bad_filters e of_feed fault (goes ∙ ap (λ x. send code updates io await self x w) bad)
          | inl (request, built, is_request, fits) ↦
              subst Subscribed (sym (goes ∙ ap (λ x. send code updates io await self x w) built)) (
                answered request (asked request)
                  (record { of_feed = of_feed; of_filters = is_request; servable = fits }) refl)
        ]
    | inr other ↦ other_feed (eq-false (feed r) f other) (if-true _ _ _ (ap not other))
  ]
