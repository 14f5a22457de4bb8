-- ===== src/Errors.antt =====
-- preconfs-client/src/error.rs: the error types, one for each step. tonic's `Status`, its `Code` and
-- the errors of the transport are third-party types: a status is a value of any type, read only
-- through its code, whose variants are those that reconnect.rs matches on.
use preconfs_client.Feed.{RegionError}
use preconfs_client.Limits.{FilterError}

-- tonic::Code
pub data Code : Type 0 where
  ok cancelled unknown invalid_argument deadline_exceeded not_found already_exists : Code
  permission_denied resource_exhausted failed_precondition aborted out_of_range : Code
  unimplemented internal unavailable data_loss unauthenticated : Code

pub data ConnectError (InvalidUri TransportError : Type 0) : Type 0 where
  uri : InvalidUri → ConnectError InvalidUri TransportError
  token : ConnectError InvalidUri TransportError
  tls transport : TransportError → ConnectError InvalidUri TransportError

pub data SubscribeError (Status : Type 0) : Type 0 where
  region : RegionError → SubscribeError Status
  filter : FilterError → SubscribeError Status
  status : Status → SubscribeError Status

pub data StreamError (Status : Type 0) : Type 0 where
  status : Status → StreamError Status
  closed : StreamError Status
