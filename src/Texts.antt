-- ===== src/Texts.antt =====
-- The texts of the errors, as thiserror and `fmt` write them: preconfs-client/src/filter.rs, feed.rs,
-- error.rs and parse.rs, and preconfs-proto/src/lib.rs. The Debug form of a string (`{:?}`) and the texts
-- of other crates' errors are parameters.
mod Tests
use preconfs_client.Prelude.{
  ℕ, zero, suc, ◌+◌, ◌/◌, ◌%◌, List, [], ◌∷◌, ◌++◌, Text, codes, ltb, if◌then◌else◌,
}
use preconfs_client.Limits.{
  FilterError, no_filters, too_many_filters, too_many_instruction_filters, name_too_long,
  too_many_accounts, too_many_signatures, too_many_memcmps, memcmp_length, memcmp_out_of_range,
  data_size_too_large, empty, max_filters, max_filter_name_bytes, max_accounts_per_list,
  max_signatures_per_filter, max_instruction_filters, max_memcmps_per_instruction, max_memcmp_bytes,
  max_instruction_data_bytes,
}
use preconfs_client.Feed.{
  RegionError, unknown_feed, unknown_region, format, wrong_feed, display as display_feed,
}
use preconfs_client.Region.{display as display_region}
use preconfs_client.Errors.{
  ConnectError, uri, token, tls, transport, SubscribeError, StreamError, closed,
}
use preconfs_client.Outcome.{UnknownExecutionResult, unknown_execution_result}
use preconfs_client.Parse.{ParseError, malformed, no_signature}

-- `Display` of a usize, a digit for each unit of fuel: 20 are enough for 64 bits.
unfoldable pub decimal : ℕ → ℕ → Text
decimal zero n = []
decimal (suc fuel) n =
    let rest = decimal fuel (n / 10) in
    if ltb n 10 then (b'0' + n) ∷ [] else rest ++ ((b'0' + n % 10) ∷ [])

abbrev pub number : ℕ → Text
number n = decimal 20 n

-- The parts of a format string.
abbrev concat : List Text → Text
concat [] = []
concat (part ∷ parts) = part ++ concat parts

unfoldable pub of_filter : Text → List Text → Text
of_filter name parts = concat (codes "filter " ∷ name ∷ codes ": " ∷ parts)

module _ (debug : Text → Text) where
  unfoldable pub filter_error : FilterError → Text
  unfolding of_filter
  filter_error no_filters = codes "at least one filter is required"
  filter_error too_many_filters =
      concat (codes "too many filters (max " ∷ number max_filters ∷ codes ")" ∷ [])
  filter_error (name_too_long name) = concat (
      codes "filter name "
      ∷ debug name
      ∷ codes " is longer than "
      ∷ number max_filter_name_bytes
      ∷ codes " bytes"
      ∷ [])
  filter_error (too_many_accounts name) =
      of_filter name
        (codes "too many accounts (max " ∷ number max_accounts_per_list ∷ codes ")" ∷ [])
  filter_error (too_many_signatures name) =
      of_filter name
        (codes "too many signatures (max " ∷ number max_signatures_per_filter ∷ codes ")" ∷ [])
  filter_error too_many_instruction_filters = concat (
      codes "too many instruction filters (max "
      ∷ number max_instruction_filters
      ∷ codes " per stream)"
      ∷ [])
  filter_error (too_many_memcmps name) = of_filter name (
      codes "too many memcmps on an instruction (max "
      ∷ number max_memcmps_per_instruction
      ∷ codes ")"
      ∷ [])
  filter_error (memcmp_length name) =
      of_filter name
        (codes "memcmp bytes must be 1 to " ∷ number max_memcmp_bytes ∷ codes " long" ∷ [])
  filter_error (memcmp_out_of_range name) =
      of_filter name (codes "memcmp reaches past the instruction data" ∷ [])
  filter_error (data_size_too_large name) =
      of_filter name (codes "data_size over " ∷ number max_instruction_data_bytes ∷ [])
  filter_error (empty name) = of_filter name (
      codes "set account_include, account_required, signer_include, instructions or signatures"
      ∷ codes " (the exclude lists only narrow them); full-feed subscriptions are refused"
      ∷ [])

  unfoldable pub region_error : RegionError → Text
  region_error (unknown_feed name) =
      concat (codes "unknown feed " ∷ name ∷ codes "; expected harmonic or bam" ∷ [])
  region_error (unknown_region feed name expected) = concat (
      codes "unknown "
      ∷ display_feed feed
      ∷ codes " region "
      ∷ name
      ∷ codes "; expected one of "
      ∷ expected
      ∷ [])
  region_error (format text) =
      concat (codes "expected feed:region such as harmonic:ams, got " ∷ debug text ∷ [])
  region_error (wrong_feed expected region) =
      concat
        (display_region region ∷ codes " is not a " ∷ display_feed expected ∷ codes " region" ∷ [])

  unfoldable pub unknown_result : UnknownExecutionResult → Text
  unknown_result (unknown_execution_result name) = concat (
      codes "unknown execution result "
      ∷ debug name
      ∷ codes "; expected success, execution_failure or fees_only"
      ∷ [])

  module _ {Status : Type 0} (status_text : Status → Text) where
    unfoldable pub subscribe_error : SubscribeError Status → Text
    unfolding filter_error region_error
    subscribe_error (SubscribeError.region e) = region_error e
    subscribe_error (SubscribeError.filter e) = filter_error e
    subscribe_error (SubscribeError.status s) =
        concat (codes "subscribe refused: " ∷ status_text s ∷ [])

unfoldable pub stream_error : {Status : Type 0} → (Status → Text) → StreamError Status → Text
stream_error status_text (StreamError.status s) =
    concat (codes "stream ended: " ∷ status_text s ∷ [])
stream_error status_text closed = codes "the server closed the stream"

unfoldable pub connect_error :
    {InvalidUri Failure : Type 0}
    → (InvalidUri → Text)
    → (Failure → Text)
    → ConnectError InvalidUri Failure
    → Text
connect_error uri_text failure_text (uri e) =
    concat (codes "endpoint is not a valid uri: " ∷ uri_text e ∷ [])
connect_error uri_text failure_text token = codes "x-token is not valid ascii metadata"
connect_error uri_text failure_text (tls e) = concat (codes "tls setup: " ∷ failure_text e ∷ [])
connect_error uri_text failure_text (transport e) = concat (codes "connect: " ∷ failure_text e ∷ [])

unfoldable pub parse_error : {ReadError : Type 0} → (ReadError → Text) → ParseError ReadError → Text
parse_error read_text (malformed e) = concat (codes "malformed transaction: " ∷ read_text e ∷ [])
parse_error read_text no_signature = codes "transaction has no signatures"
