-- ===== src/Cli/Run.antt =====
-- examples/rust/src/main.rs: `main`, from the arguments to the end of the stream. The services, the
-- transport and the worlds in which the stream is polled are the parameter `Setting`.
use preconfs_client.Prelude.{ℕ, Option, none, some, List, [], ◌∷◌, ◌++◌, Text, Result, ok, err}
use preconfs_client.Errors.{Code, ConnectError, SubscribeError, StreamError}
use preconfs_client.Proto.{HarmonicUpdate, BamUpdate}
use preconfs_client.Feed.{Feed}
use preconfs_client.Region.{feed}
use preconfs_client.Reconnect.{Float}
use preconfs_client.Outcome.{Generated}
use preconfs_client.Parse.{Codec}
use preconfs_client.Event.Mapping.{harmonic_feed, bam_feed}
use preconfs_client.Connect.{Transport, Client, connect}
use preconfs_client.Stream.{Io, Deps, EventStream, Outcome, ready, pending, poll_next}
use preconfs_client.Client.{
  harmonic_io, bam_io, Services, VersionResponse, deps, version, subscribe_harmonic, subscribe_bam,
}
use preconfs_client.Cli.Args.{Args, filters, connector}
use preconfs_client.Cli.Log.{Line, connected, stream_ended, log_harmonic, log_bam, log_item}

-- How one feed is reached by its generated client: the transport, the world as the stream finds it once
-- a client is connected, and the worlds of the polls to come behind the one that the subscription
-- leaves.
pub record Wire (World Rpc Status Update : Type 0) : Type 1 where
  pub raw : Io Rpc Status Update
  pub await : raw.Connecting → raw.World → Result Status raw.Streaming × raw.World
  pub enter : World → raw.World
  pub polls : raw.World → List raw.World

pub record Setting (Pubkey Signature : Type 0) : Type 1 where
  pub net : Transport
  pub float : Float
  pub Status : Type 0
  pub code : Status → Code
  pub rpc : Services net float Status
  pub prost : Generated
  pub codec : Codec Signature Pubkey
  pub usize_max : ℕ
  pub key : Pubkey → Text
  pub sig : Signature → Text
  pub harmonic : Wire net.World rpc.harmonic_client.Rpc Status HarmonicUpdate
  pub bam : Wire net.World rpc.bam_client.Rpc Status BamUpdate

-- What `main` ends with: `unfinished` when the polls or the fuel run out while the stream goes on.
pub data Ending (ConnectFailure Status : Type 0) : Type 0 where
  done unfinished : Ending ConnectFailure Status
  connect_failed : ConnectFailure → Ending ConnectFailure Status
  version_failed : Status → Ending ConnectFailure Status
  subscribe_failed : SubscribeError Status → Ending ConnectFailure Status
  stream_failed : StreamError Status → Ending ConnectFailure Status

-- The lines that are logged, and how it ends.
abbrev pub Report : Type 0 → Type 0 → Type 0 → Type 0
Report Signature ConnectFailure Status = List (Line Signature) × Ending ConnectFailure Status

-- lines in front of a report
abbrev pub after :
    {Signature ConnectFailure Status : Type 0}
    → List (Line Signature)
    → Report Signature ConnectFailure Status
    → Report Signature ConnectFailure Status
after lines report = (lines ++ report.0, report.1)

module _ {Client Status Signature ConnectFailure : Type 0} (deps : Deps Client Status)
    (log : List Text → deps.feed.Transaction → Line Signature) where
  -- one answer to a poll, in the loop over the stream; `rest` goes on with the stream it leaves
  unfoldable pub handle :
      Option (Outcome deps)
      → (EventStream deps → Report Signature ConnectFailure Status)
      → Report Signature ConnectFailure Status
  unfolding log_item
  handle none rest = ([], unfinished)
  handle (some (pending, stream, w)) rest = rest stream
  handle (some (ready none, stream, w)) rest = (stream_ended ∷ [], done)
  handle (some (ready (some (err e)), stream, w)) rest = ([], stream_failed e)
  handle (some (ready (some (ok event)), stream, w)) rest = after (log_item log event) (rest stream)

  -- the loop over the stream, one poll in each world, and the line behind it
  unfoldable pub follow :
      ℕ → List deps.io.World → EventStream deps → Report Signature ConnectFailure Status
  unfolding handle
  follow fuel [] stream = ([], unfinished)
  follow fuel (w ∷ ws) stream = handle (poll_next deps fuel stream w) (follow fuel ws)

  -- the `?` on the subscription
  unfoldable pub on_subscribed :
      ℕ
      → (deps.io.World → List deps.io.World)
      → Result (SubscribeError Status) (EventStream deps) × deps.io.World
      → Report Signature ConnectFailure Status
  unfolding follow
  on_subscribed fuel polls (err e, w) = ([], subscribe_failed e)
  on_subscribed fuel polls (ok stream, w) = follow fuel (polls w) stream

module _ {Pubkey Signature : Type 0} (env : Setting Pubkey Signature) where
  open env use {net, float, Status, code, rpc, prost, codec, usize_max, key, sig, harmonic, bam}

  abbrev pub ConnectFailure : Type 0
  ConnectFailure = ConnectError net.InvalidUri net.Failure

  -- the two arms of the match on the feed
  unfoldable pub arm :
      Feed
      → ℕ
      → Args Pubkey Signature
      → Client net float
      → net.World
      → Report Signature ConnectFailure Status
  unfolding on_subscribed log_harmonic log_bam filters
  arm Feed.harmonic fuel args client w =
      on_subscribed (deps code harmonic_feed (harmonic_io rpc harmonic.raw))
        (log_harmonic codec prost) fuel harmonic.polls
        (subscribe_harmonic code (harmonic_io rpc harmonic.raw) harmonic.await usize_max key sig
          client args.region (filters args) (harmonic.enter w))
  arm Feed.bam fuel args client w =
      on_subscribed (deps code bam_feed (bam_io rpc bam.raw)) (log_bam codec prost) fuel bam.polls (
        subscribe_bam code (bam_io rpc bam.raw) bam.await usize_max key sig client args.region
          (filters args) (bam.enter w))

  -- the `?` on the version
  unfoldable pub on_version :
      ℕ
      → Args Pubkey Signature
      → Client net float
      → Result Status VersionResponse × net.World
      → Report Signature ConnectFailure Status
  unfolding arm
  on_version fuel args client (err s, w) = ([], version_failed s)
  on_version fuel args client (ok v, w) =
      after (connected v ∷ []) (arm (feed args.region) fuel args client w)

  -- the `?` on the connection
  unfoldable pub on_client :
      ℕ
      → Args Pubkey Signature
      → Result ConnectFailure (Client net float) × net.World
      → Report Signature ConnectFailure Status
  unfolding on_version
  on_client fuel args (err e, w) = ([], connect_failed e)
  on_client fuel args (ok client, w) = on_version fuel args client (version rpc client w)

  unfoldable pub main :
      ℕ → Args Pubkey Signature → net.World → Report Signature ConnectFailure Status
  unfolding on_client connector
  main fuel args w = on_client fuel args (connect net float (connector net float args) w)
