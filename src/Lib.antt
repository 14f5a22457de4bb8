-- ===== src/Lib.antt =====
-- A model of the Triton Preconfs client and of the proofs that make it correct. The client connects to a
-- server over gRPC, checks the caller's filters against the server's limits, subscribes to one feed in
-- one region, and yields the feed's messages as events over a stream that resubscribes by itself.
--
-- Parts and files:
--   preconfs-proto/proto/preconfs.proto, the messages        Proto
--   preconfs-proto/src/lib.rs, checked outcomes               Outcome
--   preconfs-client/src/feed.rs, feeds and regions            Feed, Region
--   preconfs-client/src/filter.rs, limits and filters         Limits, InstructionFilter, Filter, Filters
--   preconfs-client/src/error.rs, error types                 Errors
--   the texts of the errors of all these files                Texts
--   preconfs-client/src/reconnect.rs, the retry schedule      Reconnect
--   preconfs-client/src/stream.rs, updates and events         Event
--   preconfs-client/src/stream.rs, EventStream                Stream
--   preconfs-client/src/connect.rs, Connector                 Connect
--   preconfs-client/src/connect.rs, Client                    Client
--   preconfs-client/src/parse.rs, transaction bytes           Parse
--   examples/rust/src/main.rs, the --instruction argument     Cli
--   examples/rust/src/main.rs, arguments, lines and main      Cli.Args, Cli.Log, Cli.Run
-- Prelude and HashMap hold what they share: lists, bytes, results, integers, and std's map as far as it
-- is used (`insert` and `get`). A function keeps the name of the source; one that a file splits off a
-- longer function (an arm of a match, a round of a loop, the test before it) stands under a comment that
-- says which. Folders hold the theorems of a file; each `Tests` and `Scenarios` runs them on concrete
-- values. Each `Suite` holds the unit tests of a source file: a test is the product of what it asserts
-- (`Prelude.Asserts`), and stands with a proof that it passes.
--
-- How the parts interact: `Connect.connect` makes a client, `Client.subscribe` checks the region's feed,
-- has `Filters.into_request` validate the filters (`Filter.validate`, `InstructionFilter.validate`) and
-- build the request, opens the raw stream and hands it to `Stream.new`. `Stream.poll_next` polls the raw
-- stream, maps updates with the feed's `into_event`, and turns failures into waits and new requests by
-- the schedule of `Reconnect`. `Cli.Run.main` puts the parts together as the example program does: it
-- makes the filters and the connector of its arguments, connects, subscribes, and logs a line for each
-- event.
--
-- State: an `EventStream` is a record; `fail`, `resubscribe` and the arms of the loop of `poll_next`
-- take it and return the next, together with the state of the world outside. `Stream.turn` is one round
-- of the loop. `Stream.Protocol` says what a stream promises without the transport: a step relation on
-- the phase, the count of failures and the framing flag. `Stream.Refinement` relates rounds to its steps
-- and `Stream.Drive` polls to its runs, on which the theorems about items stand; `Stream.Machine` is the
-- stream as a function of the answers that it receives, and `Stream.Replay` and `Stream.Calls` relate
-- the polls to it; `Stream.Delivery` reads it on updates alone, `Stream.GivingUp` on an outage that
-- lasts, and `Stream.Recovery` follows an outage over the rounds of `Stream.Rounds`. `Filters.Abstract`
-- takes a set of filters without the order of its filters, as a quotient, to the table of filters that
-- the server sees. `Filter.Meaning` says which transactions a filter asks for, as the client documents
-- it and as the schema does, `Region.Wire` and `Filter.Message` what the request holds of a region and of
-- a filter. `Connect.Channels` says how a channel is opened, with a dial override and without.
--
-- Parameters, for code of other crates: the transport and the timer (`Stream.Io`, `Connect.Transport`,
-- `Client.Services`), f64 and the conversions of Duration (`Reconnect.Float`; what IEEE 754 and the
-- standard library say of them is `Reconnect.Backoff.FloatLaws`, with nothing on powi), the codec
-- of transactions (`Parse.Codec`), what prost generates for ExecutionResult (`Outcome.Generated`, with
-- its documented laws), public keys and signatures (any types, with their text forms), and the size of
-- usize (`usize_max`, at least the largest u32 where a theorem needs it). `Cli.Run.Setting` gathers them
-- for the program, with the worlds in which its stream is polled. Theorems take as hypotheses that the
-- text forms of keys and of signatures tell any two apart (`Filter.Wire.Injective`) and that metadata
-- keeps what is inserted (`Connect.Tokens.MetadataLaws`). The trait FeedUpdate is a record with the law
-- that no message of a feed is taken for a reconnect; both feeds are instances, in Event.Mapping.
--
-- Numbers: a u32 or u64 field is a natural number, with its bound as a hypothesis where it matters;
-- `attempts` wraps at 2^32, as a release build does (a debug build stops there instead). A Duration is
-- its number of nanoseconds. A string is its list of UTF-8 bytes.
--
-- Fuel: `poll_next` runs its loop on fuel, one for each round. It is enough to have more than the world
-- has answers ready, for every round but the last takes one (`Stream.Returns`). `next_items` polls a
-- stream once in each world of a list, which stands for what `next` does over time: the world may change
-- between two polls, and a poll that is pending is repeated by the next.
--
-- Not modelled: the Debug forms of values, what is generated from the schema and its wire encoding,
-- wakers, and of the example program clap's reading of the arguments and the set-up of the logger.
pub mod Prelude
pub mod HashMap
pub mod Proto
pub mod Feed
pub mod Region
pub mod Limits
pub mod InstructionFilter
pub mod Filter
pub mod Filters
pub mod Errors
pub mod Reconnect
pub mod Event
pub mod Stream
pub mod Texts
pub mod Connect
pub mod Client
pub mod Parse
pub mod Outcome
pub mod Cli
