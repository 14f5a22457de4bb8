-- ===== src/Cli/Scenarios.antt =====
-- Runs of the theorems on the program, over a scripted server.
use preconfs_client.Prelude.{
  ℕ, ◌≡◌, refl, true, none, some, List, [], ◌∷◌, Text, codes, Result, ok, err, All,
}
use preconfs_client.Errors.{Code, unavailable, closed}
use preconfs_client.Proto.{HarmonicUpdate, BamUpdate, HarmonicTransaction, SubscribeRequest}
use preconfs_client.Region.{into_proto}
use preconfs_client.Reconnect.Tests.{numbers}
use preconfs_client.Outcome.Tests.{prost}
use preconfs_client.Parse.Tests.{signatures_only}
use preconfs_client.Connect.Tests.{wired}
use preconfs_client.HashMap.{insert}
use preconfs_client.InstructionFilter
use preconfs_client.Filter
use preconfs_client.Filters
use preconfs_client.Filters.{into_request}
use preconfs_client.Event.{harmonic_event, harmonic_payload_event}
use preconfs_client.Stream.{
  pending, next_items, new, poll_next, proceed, turn, turn_in, on_stream, on_update, deliver,
  after_fail, fail, fail_in,
}
use preconfs_client.Stream.Script.{
  opened, sent, slot, Script, poll_sleep, poll_connecting, poll_stream, request, twice, deps,
}
use preconfs_client.Client.{Services, Stub}
use preconfs_client.Client.Tests.{usize_max, key, tokyo}
use preconfs_client.Cli.Args.{Args, filters, filter, sized}
use preconfs_client.Cli.Log.{Line, slot_started, log_harmonic, log_item, log_event}
use preconfs_client.Cli.Run.{Wire, Setting, stream_failed, handle, follow, main}
use preconfs_client.Cli.Follow.{report_of, follow-eq-report_of}
use preconfs_client.Cli.Whole.{Reported, main-Reported}
use preconfs_client.Cli.Never.{IsError, NoReconnect, main-IsError, main-NoReconnect}
use preconfs_client.Cli.Selection.{message, into_request-filters}

abbrev await : ℕ → Script → Result Code ℕ × Script
await future (opened r ∷ w) = (r, w)
await future w = (err unavailable, w)

-- A poll in each rest of a script.
abbrev tails : Script → List Script
tails [] = [] ∷ []
tails (answer ∷ w) = (answer ∷ w) ∷ tails w

-- The server opens a stream, starts a slot, and closes the stream.
abbrev script : Script
script = opened (ok 1) ∷ slot 7 ∷ sent none ∷ []

abbrev scripted : Wire ℕ ℕ Code HarmonicUpdate
scripted = record {
  raw = record {
    World = Script;
    Streaming = ℕ;
    Connecting = ℕ;
    Sleep = ℕ;
    sleep = λ d w. (d, w);
    subscribe = λ c r. 1;
    poll_sleep = poll_sleep;
    poll_connecting = poll_connecting;
    poll_stream = poll_stream;
  };
  await = await;
  enter = λ w. script;
  polls = tails;
}

abbrev silent : Wire ℕ ℕ Code BamUpdate
silent = record {
  raw = record {
    World = ℕ;
    Streaming = ℕ;
    Connecting = ℕ;
    Sleep = ℕ;
    sleep = λ d w. (d, w);
    subscribe = λ c r. 1;
    poll_sleep = λ t w. (pending, t, w);
    poll_connecting = λ f w. (pending, f, w);
    poll_stream = λ t w. (pending, t, w);
  };
  await = λ future w. (ok future, w);
  enter = λ w. w;
  polls = λ w. w ∷ [];
}

abbrev stub : Stub wired numbers
stub = record { Rpc = ℕ; with_interceptor = λ c i. 0; accept_compressed = λ e r. r }

abbrev services : Services wired numbers Code
services = record {
  harmonic_client = stub;
  bam_client = stub;
  health_client = stub;
  get_version = λ r w. (ok (record { version = codes "1"; region = codes "ams" }), w);
  check = λ r s w. (err unavailable, w);
  serving_status_try_from = λ n. none;
}

abbrev pub setting : Setting ℕ ℕ
setting = record {
  net = wired;
  float = numbers;
  Status = Code;
  code = λ c. c;
  rpc = services;
  prost = prost;
  codec = signatures_only;
  usize_max = usize_max;
  key = key;
  sig = key;
  harmonic = scripted;
  bam = silent;
}

abbrev pub args : Args ℕ ℕ
args = record {
  endpoint = codes "https://p";
  x_token = some (codes "t");
  dial = some (codes "h:1");
  region = tokyo;
  accounts = 1 ∷ [];
  required = [];
  excluded = [];
  signers = [];
  excluded_signers = [];
  instructions = record { program_id = 3; memcmp = []; data_size = none } ∷ [];
  data_size = some 9;
  signatures = [];
  results = [];
  no_reconnect = true;
}

main-Reported_example : Reported setting 4 args 0 (main setting 4 args 0)
main-Reported_example = main-Reported setting 4 args 0

main-IsError_example : IsError (main setting 4 args 0).1
main-IsError_example = main-IsError setting 4 args 0

main-NoReconnect_example : All NoReconnect (main setting 4 args 0).0
main-NoReconnect_example = main-NoReconnect setting 4 args 0 refl

abbrev log : List Text → HarmonicTransaction → Line ℕ
log = log_harmonic signatures_only prost

follow-eq-report_of_example :
    follow {ConnectFailure = ℕ} deps log 4 (tails script) (new deps 0 request (some twice) 1)
    ≡ report_of deps log (next_items deps 4 (tails script) (new deps 0 request (some twice) 1)).0
follow-eq-report_of_example = follow-eq-report_of deps log 0 request (some twice) 1 4 (tails script)

abbrev asked : SubscribeRequest
asked = record {
  transactions =
      (
        codes "default",
        record {
          account_include = key 1 ∷ [];
          account_exclude = [];
          account_required = [];
          signature = [];
          execution_results = [];
          signer_include = [];
          signer_exclude = [];
          instructions = record { program_id = key 3; memcmp = []; data_size = some 9 } ∷ [];
        },
      )
      ∷ [];
  region = some (into_proto tokyo);
}

asked_for : into_request usize_max key key (filters args) tokyo ≡ ok asked
unfolding into_request filters filter sized Filters.single Filters.new Filters.with Filters.collect
    Filter.execution_results Filter.signatures Filter.instructions Filter.exclude_signers
    Filter.signers Filter.exclude_accounts Filter.require Filter.accounts Filter.new Filter.validate
    Filter.check_instructions Filter.selects_nothing Filter.into_proto InstructionFilter.validate
    InstructionFilter.data_size InstructionFilter.data_bytes InstructionFilter.check_memcmps
    InstructionFilter.into_proto insert
asked_for = refl

into_request-filters_example : asked ≡ record {
  transactions = (codes "default", message key key args) ∷ [];
  region = some (into_proto tokyo);
}
into_request-filters_example = into_request-filters key key args usize_max asked_for

-- A slot starts, and the stream that is closed ends the program.
followed :
    follow {ConnectFailure = ℕ} deps log 4
      (tails (slot 7 ∷ sent none ∷ []))
      (new deps 0 request none 1)
    ≡ (slot_started 7 ∷ [], stream_failed closed)
unfolding follow handle log_item log_event new poll_next proceed turn turn_in on_stream on_update
    deliver after_fail fail fail_in harmonic_event harmonic_payload_event
followed = refl
