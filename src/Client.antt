-- ===== src/Client.antt =====
-- preconfs-client/src/connect.rs and stream.rs: what a `Client` does. The generated gRPC clients and
-- the health client are the parameter `Services`.
pub mod Tests
pub mod Subscribe
use preconfs_client.Prelude.{
  ℕ, ℤ, not, Option, none, some, Text, codes, Result, ok, err, ◌>>=◌, if◌then◌else◌,
}
use preconfs_client.Limits.{FilterError}
use preconfs_client.Errors.{Code, SubscribeError, region, filter, status}
use preconfs_client.Proto.{SubscribeRequest, HarmonicUpdate, BamUpdate}
use preconfs_client.Feed.{Feed, Region, eq, wrong_feed}
use preconfs_client.Region.{feed}
use preconfs_client.Filters.{Filters, into_request}
use preconfs_client.Event.{FeedUpdate}
use preconfs_client.Event.Mapping.{harmonic_feed, bam_feed}
use preconfs_client.Reconnect.{Float, Reconnect}
use preconfs_client.Connect.{Transport, TokenInterceptor, Client}
use preconfs_client.Stream.{Deps, Io, EventStream, new}

-- preconfs.proto: VersionResponse
pub record VersionResponse : Type 0 where
  pub version : Text
  pub region : Text

-- tonic_health's ServingStatus
pub data ServingStatus : Type 0 where
  unknown serving not_serving service_unknown : ServingStatus

-- A generated client of a gRPC service, made over a channel with an interceptor.
pub record Stub (net : Transport) (float : Float) : Type 1 where
  pub Rpc : Type 0
  pub with_interceptor : net.Channel → TokenInterceptor net float → Rpc
  pub accept_compressed : net.Encoding → Rpc → Rpc

-- The calls that are made over them; a response is given as the message in it.
pub record Services (net : Transport) (float : Float) (Status : Type 0) : Type 1 where
  pub harmonic_client : Stub net float
  pub bam_client : Stub net float
  pub health_client : Stub net float
  pub get_version : harmonic_client.Rpc → net.World → Result Status VersionResponse × net.World
  pub check : health_client.Rpc → Text → net.World → Result Status ℤ × net.World
  pub serving_status_try_from : ℤ → Option ServingStatus

module _ {net : Transport} {float : Float} where
  -- `match self.compression`, in `harmonic` and `bam`
  abbrev pub compressed : (stub : Stub net float) → Option net.Encoding → stub.Rpc → stub.Rpc
  compressed stub none client = client
  compressed stub (some encoding) client = stub.accept_compressed encoding client

  module _ {Status : Type 0} (rpc : Services net float Status) where
    unfoldable pub harmonic : Client net float → rpc.harmonic_client.Rpc
    harmonic self =
        compressed rpc.harmonic_client self.compression
          (rpc.harmonic_client.with_interceptor self.channel self.interceptor)

    unfoldable pub bam : Client net float → rpc.bam_client.Rpc
    bam self =
        compressed rpc.bam_client self.compression
          (rpc.bam_client.with_interceptor self.channel self.interceptor)

    -- `HarmonicUpdate::subscribe` and `BamUpdate::subscribe`: `subscribe` is the call of the generated
    -- client, and gives the future of the raw stream.
    unfoldable pub harmonic_subscribe :
        {Connecting : Type 0}
        → (rpc.harmonic_client.Rpc → SubscribeRequest → Connecting)
        → Client net float
        → SubscribeRequest
        → Connecting
    unfolding harmonic
    harmonic_subscribe subscribe client request = subscribe (harmonic client) request

    unfoldable pub bam_subscribe :
        {Connecting : Type 0}
        → (rpc.bam_client.Rpc → SubscribeRequest → Connecting)
        → Client net float
        → SubscribeRequest
        → Connecting
    unfolding bam
    bam_subscribe subscribe client request = subscribe (bam client) request

    -- The transport of a feed as a `Client` uses it: what is subscribed is the generated client.
    abbrev pub harmonic_io :
        Io rpc.harmonic_client.Rpc Status HarmonicUpdate
        → Io (Client net float) Status HarmonicUpdate
    harmonic_io raw = record {
      World = raw.World;
      Streaming = raw.Streaming;
      Connecting = raw.Connecting;
      Sleep = raw.Sleep;
      sleep = raw.sleep;
      subscribe = harmonic_subscribe raw.subscribe;
      poll_sleep = raw.poll_sleep;
      poll_connecting = raw.poll_connecting;
      poll_stream = raw.poll_stream;
    }

    abbrev pub bam_io :
        Io rpc.bam_client.Rpc Status BamUpdate → Io (Client net float) Status BamUpdate
    bam_io raw = record {
      World = raw.World;
      Streaming = raw.Streaming;
      Connecting = raw.Connecting;
      Sleep = raw.Sleep;
      sleep = raw.sleep;
      subscribe = bam_subscribe raw.subscribe;
      poll_sleep = raw.poll_sleep;
      poll_connecting = raw.poll_connecting;
      poll_stream = raw.poll_stream;
    }

    unfoldable pub version :
        Client net float → net.World → Result Status VersionResponse × net.World
    unfolding harmonic
    version self w = rpc.get_version (harmonic self) w

    -- `ServingStatus::try_from(..).unwrap_or(ServingStatus::Unknown)`
    abbrev pub serving_status : ℤ → ServingStatus
    serving_status n = elim (rpc.serving_status_try_from n) [ none ↦ unknown | some s ↦ s ]

    unfoldable pub health : Client net float → net.World → Result Status ServingStatus × net.World
    health self w =
        let (answer, w') =
          rpc.check (rpc.health_client.with_interceptor self.channel self.interceptor) (codes "")
            w in
        (answer >>= λ n. ok (serving_status n), w')

-- `Client::subscribe` is generic in the feed: `io` opens a stream of it and `await` waits for one.
module _ {net : Transport} {float : Float} {Status : Type 0} (code : Status → Code)
    (updates : FeedUpdate) (io : Io (Client net float) Status updates.Update) where
  abbrev pub deps : Deps (Client net float) Status
  deps = record { code = code; feed = updates; float = float; io = io }

  unfoldable pub opened :
      Client net float
      → SubscribeRequest
      → Result Status io.Streaming × io.World
      → Result (SubscribeError Status) (EventStream deps) × io.World
  unfolding new
  opened self request (err s, w) = (err (status s), w)
  opened self request (ok stream, w) = (ok (new deps self request self.reconnect stream), w)

  module _ (await : io.Connecting → io.World → Result Status io.Streaming × io.World) where
    -- the call of the transport, on the request that the filters make
    unfoldable pub send :
        Client net float
        → Result FilterError SubscribeRequest
        → io.World
        → Result (SubscribeError Status) (EventStream deps) × io.World
    unfolding opened
    send self (err e) w = (err (filter e), w)
    send self (ok request) w = opened self request (await (io.subscribe self request) w)

    -- `usize_max`, `key` and `sig` are those of `Filters::into_request`.
    unfoldable pub subscribe :
        {Pubkey Signature : Type 0}
        → ℕ
        → (Pubkey → Text)
        → (Signature → Text)
        → Client net float
        → Feed
        → Region
        → Filters Pubkey Signature
        → io.World
        → Result (SubscribeError Status) (EventStream deps) × io.World
    unfolding send
    subscribe usize_max key sig self f r filters w =
        if not (eq (feed r) f)
        then (err (region (wrong_feed f r)), w)
        else send self (into_request usize_max key sig filters r) w

module _ {net : Transport} {float : Float} {Status : Type 0} (code : Status → Code) where
  unfoldable pub subscribe_harmonic :
      (io : Io (Client net float) Status HarmonicUpdate)
      → (io.Connecting → io.World → Result Status io.Streaming × io.World)
      → {Pubkey Signature : Type 0} → ℕ
      → (Pubkey → Text)
      → (Signature → Text)
      → Client net float
      → Region
      → Filters Pubkey Signature
      → io.World
      → Result (SubscribeError Status) (EventStream (deps code harmonic_feed io)) × io.World
  unfolding subscribe
  subscribe_harmonic io await usize_max key sig self r filters w =
      subscribe code harmonic_feed io await usize_max key sig self Feed.harmonic r filters w

  unfoldable pub subscribe_bam :
      (io : Io (Client net float) Status BamUpdate)
      → (io.Connecting → io.World → Result Status io.Streaming × io.World)
      → {Pubkey Signature : Type 0} → ℕ
      → (Pubkey → Text)
      → (Signature → Text)
      → Client net float
      → Region
      → Filters Pubkey Signature
      → io.World
      → Result (SubscribeError Status) (EventStream (deps code bam_feed io)) × io.World
  unfolding subscribe
  subscribe_bam io await usize_max key sig self r filters w =
      subscribe code bam_feed io await usize_max key sig self Feed.bam r filters w
