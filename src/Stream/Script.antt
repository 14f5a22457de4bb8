-- ===== src/Stream/Script.antt =====
-- A world that is a script of the answers to come, and a stream in it.
use preconfs_client.Prelude.{
  ℕ, ◌<◌, ◌≡◌, Option, none, some, List, [], ◌∷◌, Result, ok, arith, length, codes,
}
use preconfs_client.HashMap
use preconfs_client.Errors.{Code}
use preconfs_client.Proto.{SubscribeRequest, HarmonicUpdate, HarmonicPayload}
use preconfs_client.Event.Mapping.{harmonic_feed}
use preconfs_client.Reconnect.{Reconnect}
use preconfs_client.Reconnect.Tests.{numbers}
use preconfs_client.Stream.{Poll, ready, pending, Io, Deps}
use preconfs_client.Stream.Returns.{FinitelyReady}

pub data Answer : Type 0 where
  fired : Answer
  opened : Result Code ℕ → Answer
  sent : Option (Result Code HarmonicUpdate) → Answer

abbrev pub Script : Type 0
Script = List Answer

abbrev pub poll_sleep : ℕ → Script → Poll (Unit {0}) × ℕ × Script
poll_sleep t (fired ∷ w) = (ready tt, t, w)
poll_sleep t w = (pending, t, w)

abbrev pub poll_connecting : ℕ → Script → Poll (Result Code ℕ) × ℕ × Script
poll_connecting f (opened r ∷ w) = (ready r, f, w)
poll_connecting f w = (pending, f, w)

abbrev pub poll_stream : ℕ → Script → Poll (Option (Result Code HarmonicUpdate)) × ℕ × Script
poll_stream t (sent r ∷ w) = (ready r, t, w)
poll_stream t w = (pending, t, w)

abbrev pub scripted : Io ℕ Code HarmonicUpdate
scripted = record {
  World = Script;
  Streaming = ℕ;
  Connecting = ℕ;
  Sleep = ℕ;
  sleep = λ d w. (d, w);
  subscribe = λ c r. c;
  poll_sleep = poll_sleep;
  poll_connecting = poll_connecting;
  poll_stream = poll_stream;
}

abbrev pub deps : Deps ℕ Code
deps = record { code = λ c. c; feed = harmonic_feed; float = numbers; io = scripted }

pub sleep_lt :
    (t : ℕ) (w : Script) (u : Unit {0})
    → (poll_sleep t w).0 ≡ ready u
    → length (poll_sleep t w).2 < length w
sleep_lt t (fired ∷ w) u h = omega arith
sleep_lt t [] u h = cc
sleep_lt t (opened r ∷ w) u h = cc
sleep_lt t (sent r ∷ w) u h = cc

pub connecting_lt :
    (f : ℕ) (w : Script) (r : Result Code ℕ)
    → (poll_connecting f w).0 ≡ ready r
    → length (poll_connecting f w).2 < length w
connecting_lt f (opened x ∷ w) r h = omega arith
connecting_lt f [] r h = cc
connecting_lt f (fired ∷ w) r h = cc
connecting_lt f (sent x ∷ w) r h = cc

pub stream_lt :
    (t : ℕ) (w : Script) (r : Option (Result Code HarmonicUpdate))
    → (poll_stream t w).0 ≡ ready r
    → length (poll_stream t w).2 < length w
stream_lt t (sent x ∷ w) r h = omega arith
stream_lt t [] r h = cc
stream_lt t (fired ∷ w) r h = cc
stream_lt t (opened x ∷ w) r h = cc

abbrev pub finite : FinitelyReady deps
finite = record {
  answers = length;
  sleep_le = λ d w. omega arith;
  sleep_lt = sleep_lt;
  connecting_lt = connecting_lt;
  stream_lt = stream_lt;
}

-- At most two retries.
abbrev pub twice : Reconnect numbers
twice = record { initial_interval = 5; multiplier = 2; max_interval = 100; max_retries = some 2 }

abbrev pub request : SubscribeRequest
request = record { transactions = HashMap.empty; region = none }

abbrev pub slot : ℕ → Answer
slot n = sent (
    some (
      ok (record {
        filters = [];
        payload = some (HarmonicPayload.slot_start (record { slot = n; region = codes "ams" }));
      })))
