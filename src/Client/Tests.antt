-- ===== src/Client/Tests.antt =====
-- A run of the theorem on subscriptions.
use preconfs_client.Prelude.{ℕ, ◌≤◌, arith, [], ◌∷◌, Text, codes, Result, ok}
use preconfs_client.Errors.{Code}
use preconfs_client.Proto.{HarmonicUpdate, HarmonicRegion}
use preconfs_client.Feed.{Feed, Region}
use preconfs_client.Filters.{Filters}
use preconfs_client.InstructionFilter.Bounds.{u32_max}
use preconfs_client.Event.Mapping.{harmonic_feed}
use preconfs_client.Reconnect.Tests.{numbers}
use preconfs_client.Connect.{Client}
use preconfs_client.Connect.Tests.{wired, dialed}
use preconfs_client.Stream.{pending, Io}
use preconfs_client.Client.{subscribe}
use preconfs_client.Client.Subscribe.{Subscribed, subscribe-Subscribed}

abbrev pub usize_max : ℕ
usize_max = 18446744073709551615

wide : u32_max ≤ usize_max
wide = omega arith

abbrev quiet : Io (Client wired numbers) Code HarmonicUpdate
quiet = record {
  World = ℕ;
  Streaming = ℕ;
  Connecting = ℕ;
  Sleep = ℕ;
  sleep = λ d w. (d, w);
  subscribe = λ c r. 5;
  poll_sleep = λ t w. (pending, t, w);
  poll_connecting = λ f w. (pending, f, w);
  poll_stream = λ t w. (pending, t, w);
}

abbrev await : ℕ → ℕ → Result Code ℕ × ℕ
await future w = (ok future, w)

abbrev pub key : ℕ → Text
key n = n ∷ []

abbrev one_filter : Filters ℕ ℕ
one_filter = record {
  filters =
      (
        codes "dex",
        record {
          account_include = 1 ∷ [];
          account_exclude = [];
          account_required = [];
          signer_include = [];
          signer_exclude = [];
          instructions = [];
          signatures = [];
          execution_results = [];
        },
      )
      ∷ [];
}

abbrev pub tokyo : Region
tokyo = Region.harmonic HarmonicRegion.tyo

subscribe-Subscribed_example :
    Subscribed
      (λ c. c)
      harmonic_feed
      quiet
      await
      usize_max
      wide
      key
      key
      dialed
      Feed.harmonic
      tokyo
      one_filter
      0
      (subscribe
        (λ c. c)
        harmonic_feed
        quiet
        await
        usize_max
        key
        key
        dialed
        Feed.harmonic
        tokyo
        one_filter
        0)
subscribe-Subscribed_example =
    subscribe-Subscribed (λ c. c) harmonic_feed quiet await usize_max wide key key dialed
      Feed.harmonic tokyo one_filter 0 (tt, tt)
