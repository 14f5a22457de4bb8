-- ===== src/Cli/Sessions.antt =====
-- Whole runs of the program, one for each feed.
use preconfs_client.Prelude.{
  ℕ, ◌≡◌, refl, true, none, some, Option, List, [], ◌∷◌, codes, Result, ok, pos,
}
use preconfs_client.Errors.{Code, closed}
use preconfs_client.Proto.{BamUpdate, BamPayload, BamRegion, success, empty_message}
use preconfs_client.Feed.{Region, eq}
use preconfs_client.Region.{feed}
use preconfs_client.Reconnect.{default}
use preconfs_client.Event.{harmonic_event, harmonic_payload_event, bam_event, bam_payload_event}
use preconfs_client.HashMap.{insert}
use preconfs_client.InstructionFilter
use preconfs_client.Filter
use preconfs_client.Filters
use preconfs_client.Connect
use preconfs_client.Client
use preconfs_client.Outcome.{bam_result}
use preconfs_client.Parse.{parse, first_signature, parse_signature}
use preconfs_client.Stream.{
  Poll, ready, pending, new, poll_next, proceed, turn, turn_in, on_stream, on_update, deliver,
  after_fail, fail, fail_in,
}
use preconfs_client.Cli.Args.{Args, filters, filter, sized, connector}
use preconfs_client.Cli.Log.{
  connected, bam_txn, slot_started, log_item, log_event, log_harmonic, log_bam,
}
use preconfs_client.Cli.Run.{
  Wire, Setting, stream_failed, handle, follow, on_subscribed, arm, on_version, on_client, main,
}
use preconfs_client.Cli.Scenarios.{setting, args}

-- What the BAM stream of a run answers, one poll after the other.
abbrev Answers : Type 0
Answers = List (Option (Result Code BamUpdate))

abbrev poll_stream : ℕ → Answers → Poll (Option (Result Code BamUpdate)) × ℕ × Answers
poll_stream stream [] = (pending, stream, [])
poll_stream stream (answer ∷ w) = (ready answer, stream, w)

-- A ping and a transaction, and the end, which the second call of `next` finds.
abbrev bundle : Answers
bundle =
    some (ok (record { filters = []; payload = some (BamPayload.ping empty_message) }))
    ∷ some (
        ok (record {
          filters = codes "default" ∷ [];
          payload = some (
              BamPayload.transaction (record {
                transaction = 6 ∷ [];
                slot = 9;
                is_revert_on_error = true;
                node = codes "n";
                sequence = 3;
                bundle_position = 0;
                result = some (pos 0);
              }));
        }))
    ∷ none
    ∷ []

abbrev bundled : Wire ℕ ℕ Code BamUpdate
bundled = record {
  raw = record {
    World = Answers;
    Streaming = ℕ;
    Connecting = ℕ;
    Sleep = ℕ;
    sleep = λ d w. (d, w);
    subscribe = λ c r. 1;
    poll_sleep = λ t w. (pending, t, w);
    poll_connecting = λ f w. (pending, f, w);
    poll_stream = poll_stream;
  };
  await = λ future w. (ok future, w);
  enter = λ w. bundle;
  polls = λ w. w ∷ (none ∷ []) ∷ [];
}

abbrev on_bam : Setting ℕ ℕ
on_bam = record setting { bam = bundled }

abbrev bam_args : Args ℕ ℕ
bam_args = record args { region = Region.bam BamRegion.fra }

-- The slot of the scripted server, and the close that ends the program.
harmonic_session : main setting 4 args 0 ≡ (
  connected (record { version = codes "1"; region = codes "ams" }) ∷ slot_started 7 ∷ [],
  stream_failed closed,
)
unfolding main on_client on_version arm on_subscribed follow handle log_item log_event connector
    filters filter sized feed eq default insert new poll_next proceed turn turn_in on_stream
    on_update deliver after_fail fail fail_in harmonic_event harmonic_payload_event log_harmonic
    Filters.single Filters.new Filters.with Filters.into_request Filters.collect
    Filter.execution_results Filter.signatures Filter.instructions Filter.exclude_signers
    Filter.signers Filter.exclude_accounts Filter.require Filter.accounts Filter.new Filter.validate
    Filter.check_instructions Filter.selects_nothing Filter.into_proto InstructionFilter.validate
    InstructionFilter.data_size InstructionFilter.data_bytes InstructionFilter.check_memcmps
    InstructionFilter.into_proto Connect.new Connect.connect Connect.endpoint Connect.client
    Connect.no_reconnect Connect.x_token Connect.dial Connect.dialer Client.version Client.subscribe
    Client.send Client.opened Client.subscribe_harmonic Client.subscribe_bam Client.harmonic
    Client.bam
harmonic_session = refl

bam_session : main on_bam 4 bam_args 0 ≡ (
  connected (record { version = codes "1"; region = codes "ams" })
      ∷ bam_txn (record {
        slot = 9;
        node = codes "n";
        sequence = 3;
        revert_on_error = true;
        result = some success;
        signature = some 6;
        filters = codes "default" ∷ [];
      })
      ∷ [],
  stream_failed closed,
)
unfolding main on_client on_version arm on_subscribed follow handle log_item log_event connector
    filters filter sized feed eq default insert new poll_next proceed turn turn_in on_stream
    on_update deliver after_fail fail fail_in harmonic_event harmonic_payload_event log_harmonic
    Filters.single Filters.new Filters.with Filters.into_request Filters.collect
    Filter.execution_results Filter.signatures Filter.instructions Filter.exclude_signers
    Filter.signers Filter.exclude_accounts Filter.require Filter.accounts Filter.new Filter.validate
    Filter.check_instructions Filter.selects_nothing Filter.into_proto InstructionFilter.validate
    InstructionFilter.data_size InstructionFilter.data_bytes InstructionFilter.check_memcmps
    InstructionFilter.into_proto Connect.new Connect.connect Connect.endpoint Connect.client
    Connect.no_reconnect Connect.x_token Connect.dial Connect.dialer Client.version Client.subscribe
    Client.send Client.opened Client.subscribe_harmonic Client.subscribe_bam Client.harmonic
    Client.bam bam_event bam_payload_event bam_result parse first_signature parse_signature log_bam
bam_session = refl
