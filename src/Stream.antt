-- ===== src/Stream.antt =====
-- preconfs-client/src/stream.rs: `EventStream`, its failure handling and `poll_next`. The transport
-- and the timer are the parameter `Io`: what a poll answers depends on the state of the world, which
-- each call may change.
pub mod Script
mod Tests
mod Scenarios
pub mod Protocol
pub mod Refinement
pub mod Drive
pub mod Framing
pub mod Retries
pub mod Endings
pub mod Ends
pub mod Alive
pub mod Rounds
pub mod Delivery
pub mod Invariant
pub mod Redials
pub mod Recovery
pub mod GivingUp
pub mod Returns
pub mod Machine
pub mod Follows
pub mod Replay
pub mod Calls
pub mod Failure
use preconfs_client.Prelude.{
  ℕ, zero, suc, ◌+◌, ◌%◌, Bool, true, false, not, ◌&&◌, ◌||◌, Option, none, some, List, [], ◌∷◌,
  Result, ok, err, if◌then◌else◌,
}
use preconfs_client.Errors.{Code, StreamError, closed}
use preconfs_client.Proto.{SubscribeRequest}
use preconfs_client.Reconnect.{Float, Reconnect, interval, exhausted, retryable}
use preconfs_client.Event.{Event, slot_start, reconnected, FeedUpdate}

pub data Poll (A : Type 0) : Type 0 where
  ready : A → Poll A
  pending : Poll A

-- tonic's stream, the future that opens it, and tokio's timer.
pub record Io (Client Status Update : Type 0) : Type 1 where
  pub World : Type 0
  pub Streaming : Type 0
  pub Connecting : Type 0
  pub Sleep : Type 0
  pub sleep : ℕ → World → Sleep × World
  pub subscribe : Client → SubscribeRequest → Connecting
  pub poll_sleep : Sleep → World → Poll (Unit {0}) × Sleep × World
  pub poll_connecting : Connecting → World → Poll (Result Status Streaming) × Connecting × World
  pub poll_stream : Streaming → World → Poll (Option (Result Status Update)) × Streaming × World

pub data State (Streaming Sleep Connecting : Type 0) : Type 0 where
  streaming : Streaming → State Streaming Sleep Connecting
  waiting : Sleep → State Streaming Sleep Connecting
  connecting : Connecting → State Streaming Sleep Connecting
  ended : State Streaming Sleep Connecting

-- `attempts` is a u32.
abbrev pub u32_mod : ℕ
u32_mod = 4294967296

abbrev pub is_slot_start : {T : Type 0} → Event T → Bool
is_slot_start (slot_start slot) = true
is_slot_start _ = false

-- What a stream is built on: the codes of tonic's statuses, the feed, f64 and the transport.
pub record Deps (Client Status : Type 0) : Type 1 where
  pub code : Status → Code
  pub feed : FeedUpdate
  pub float : Float
  pub io : Io Client Status feed.Update

module _ {Client Status : Type 0} (deps : Deps Client Status) where
  open deps use {code, feed, float, io}
  open feed use {Update, Transaction, slot_framing, into_event}
  open io use {
    World, Streaming, Connecting, Sleep, sleep, subscribe, poll_sleep, poll_connecting, poll_stream,
  }

  pub record EventStream : Type 0 where
    pub client : Client
    pub request : SubscribeRequest
    pub reconnect : Option (Reconnect float)
    pub state : State Streaming Sleep Connecting
    pub attempts : ℕ
    pub framed : Bool

  abbrev pub Item : Type 0
  Item = Result (StreamError Status) (Event Transaction)

  unfoldable pub new :
      Client → SubscribeRequest → Option (Reconnect float) → Streaming → EventStream
  new client request reconnect stream = record {
    client = client;
    request = request;
    reconnect = reconnect;
    state = streaming stream;
    attempts = 0;
    framed = not slot_framing;
  }

  -- `fail` past the test for a schedule, with the count already raised
  unfoldable pub fail_with :
      Reconnect float
      → EventStream
      → StreamError Status
      → World
      → Option (StreamError Status) × EventStream × World
  fail_with reconnect self error w =
      if not (retryable code error) || exhausted float reconnect self.attempts
      then (some error, record self { state = ended }, w)
      else let (timer, w') = sleep (interval float reconnect self.attempts) w in
        (none, record self { state = waiting timer }, w')

  -- the test for a schedule
  unfoldable pub fail_in :
      Option (Reconnect float)
      → EventStream
      → StreamError Status
      → World
      → Option (StreamError Status) × EventStream × World
  fail_in none self error w = (some error, record self { state = ended }, w)
  fail_in (some reconnect) self error w =
      fail_with reconnect (record self { attempts = (self.attempts + 1) % u32_mod }) error w

  unfoldable pub fail :
      EventStream → StreamError Status → World → Option (StreamError Status) × EventStream × World
  fail self error w = fail_in self.reconnect self error w

  unfoldable pub resubscribe : EventStream → EventStream
  resubscribe self = record self { state = connecting (subscribe self.client self.request) }

  -- One round of the loop: it returns from `poll_next`, or goes round again.
  pub data Turn : Type 0 where
    returns : Poll (Option Item) → EventStream → World → Turn
    again : EventStream → World → Turn

  -- the end of an arm that calls `fail`
  unfoldable pub after_fail : Option (StreamError Status) × EventStream × World → Turn
  after_fail (none, self, w) = again self w
  after_fail (some error, self, w) = returns (ready (some (err error))) self w

  -- the arm of an update that is an event
  unfoldable pub deliver : EventStream → Event Transaction → World → Turn
  deliver self event w =
      if not self.framed && not (is_slot_start event)
      then again self w
      else returns (ready (some (ok event))) (record self { framed = true; attempts = 0 }) w

  unfoldable pub on_update : EventStream → Option (Event Transaction) → World → Turn
  on_update self none w = again self w
  on_update self (some event) w = deliver self event w

  unfoldable pub on_stream :
      EventStream → Poll (Option (Result Status Update)) × Streaming × World → Turn
  on_stream self (pending, stream, w) = returns pending (record self { state = streaming stream }) w
  on_stream self (ready none, stream, w) =
      after_fail (fail (record self { state = streaming stream }) closed w)
  on_stream self (ready (some (err status)), stream, w) =
      after_fail (fail (record self { state = streaming stream }) (StreamError.status status) w)
  on_stream self (ready (some (ok update)), stream, w) =
      on_update (record self { state = streaming stream }) (into_event update) w

  unfoldable pub on_connecting :
      EventStream → Poll (Result Status Streaming) × Connecting × World → Turn
  on_connecting self (pending, future, w) =
      returns pending (record self { state = connecting future }) w
  on_connecting self (ready (ok stream), future, w) =
      returns (ready (some (ok (reconnected self.attempts))))
        (record self { state = streaming stream; framed = not slot_framing }) w
  on_connecting self (ready (err status), future, w) =
      after_fail (fail (record self { state = connecting future }) (StreamError.status status) w)

  unfoldable pub on_sleep : EventStream → Poll (Unit {0}) × Sleep × World → Turn
  on_sleep self (pending, timer, w) = returns pending (record self { state = waiting timer }) w
  on_sleep self (ready u, timer, w) = again (resubscribe (record self { state = waiting timer })) w

  unfoldable pub turn_in : State Streaming Sleep Connecting → EventStream → World → Turn
  turn_in ended self w = returns (ready none) self w
  turn_in (waiting timer) self w = on_sleep self (poll_sleep timer w)
  turn_in (connecting future) self w = on_connecting self (poll_connecting future w)
  turn_in (streaming stream) self w = on_stream self (poll_stream stream w)

  -- the match on `this.state`
  unfoldable pub turn : EventStream → World → Turn
  turn self w = turn_in self.state self w

  -- What one call of `poll_next` gives: the answer, the stream and the world behind it.
  abbrev pub Outcome : Type 0
  Outcome = Poll (Option Item) × EventStream × World

  -- What a round makes of the rest of the loop.
  unfoldable pub proceed : (EventStream → World → Option Outcome) → Turn → Option Outcome
  proceed rest (returns answer self w) = some (answer, self, w)
  proceed rest (again self w) = rest self w

  -- The loop, on fuel: `none` when the fuel runs out.
  unfoldable pub poll_next : ℕ → EventStream → World → Option Outcome
  unfolding proceed
  poll_next zero self w = none
  poll_next (suc fuel) self w = proceed (poll_next fuel) (turn self w)

  -- What a call of `poll_next` adds to the items, and the stream that it leaves.
  unfoldable pub gather :
      Option Outcome
      → EventStream
      → (EventStream → List Item × EventStream)
      → List Item × EventStream
  gather none self rest = ([], self)
  gather (some (pending, self', w)) self rest = rest self'
  gather (some (ready none, self', w)) self rest = rest self'
  gather (some (ready (some item), self', w)) self rest =
      let later = rest self' in (item ∷ later.0, later.1)

  -- The items that `next` returns over polls in the given worlds, one poll in each. Between two polls
  -- the world changes by itself; a poll that answers `pending` is repeated by the next.
  unfoldable pub next_items : ℕ → List World → EventStream → List Item × EventStream
  unfolding gather
  next_items fuel [] self = ([], self)
  next_items fuel (w ∷ ws) self = gather (poll_next fuel self w) self (next_items fuel ws)
