-- ===== src/Connect.antt =====
-- preconfs-client/src/connect.rs: `TokenInterceptor`, `Connector` with its dialer, and the making of a
-- `Client`. The transport (tonic and TCP) is the parameter `Transport`; an awaited call takes the state of
-- the world and gives the next.
pub mod Tests
pub mod Channels
pub mod Endpoints
pub mod Verdict
pub mod Tokens
use preconfs_client.Prelude.{
  ℕ, Bool, true, false, if◌then◌else◌, Option, none, some, Text, codes, text_eq, Result, ok, err,
  ◌>>=◌, map_err,
}
use preconfs_client.Errors.{ConnectError, uri, token, tls, transport}
use preconfs_client.Reconnect.{Float, Reconnect, default, from_secs}

-- What is used of `tonic::transport` and of `MetadataMap`.
pub record Transport : Type 1 where
  pub World : Type 0
  pub Uri : Type 0
  pub Endpoint : Type 0
  pub Channel : Type 0
  pub TlsConfig : Type 0
  pub Encoding : Type 0
  pub Token : Type 0
  pub Metadata : Type 0
  pub InvalidUri : Type 0
  pub Failure : Type 0
  pub IoError : Type 0
  pub TcpStream : Type 0
  pub Tcp : Type 0  -- TokioIo<TcpStream>
  pub tcp_connect : Text → World → Result IoError TcpStream × World
  pub tokio_io : TcpStream → Tcp
  pub parse_uri : Text → Result InvalidUri Uri
  pub scheme_str : Uri → Option Text
  pub parse_token : Text → Option Token
  pub native_roots : TlsConfig
  pub builder : Uri → Endpoint
  pub connect_timeout : ℕ → Endpoint → Endpoint
  pub http2_keep_alive_interval : ℕ → Endpoint → Endpoint
  pub keep_alive_timeout : ℕ → Endpoint → Endpoint
  pub keep_alive_while_idle : Bool → Endpoint → Endpoint
  pub http2_adaptive_window : Bool → Endpoint → Endpoint
  pub tls_config : TlsConfig → Endpoint → Result Failure Endpoint
  pub connect : Endpoint → World → Result Failure Channel × World
  pub connect_with_connector :
      Endpoint → (Uri → World → Result IoError Tcp × World) → World → Result Failure Channel × World
  pub connect_lazy : Endpoint → Channel
  pub connect_with_connector_lazy : Endpoint → (Uri → World → Result IoError Tcp × World) → Channel
  pub insert : Text → Token → Metadata → Metadata

module _ (net : Transport) (float : Float) where
  open net use {
    World, Uri, Endpoint, Channel, TlsConfig, Encoding, Token, Metadata, InvalidUri, Failure,
  }

  pub record TokenInterceptor : Type 0 where
    pub token : Option Token

  -- `Interceptor::call`, on the metadata of the request; it never fails
  unfoldable pub call : TokenInterceptor → Metadata → Metadata
  call self request = elim self.token [
    | none ↦ request
    | some t ↦ net.insert (codes "x-token") t request
  ]

  pub record Connector : Type 0 where
    pub endpoint : Text
    pub token : Option Text
    pub dial : Option Text
    pub connect_timeout : ℕ
    pub tls : Option TlsConfig
    pub reconnect : Option (Reconnect float)
    pub compression : Option Encoding

  pub record Client : Type 0 where
    pub channel : Channel
    pub interceptor : TokenInterceptor
    pub reconnect : Option (Reconnect float)
    pub compression : Option Encoding

  unfoldable pub new : Text → Connector
  unfolding default
  new address = record {
    endpoint = address;
    token = none;
    dial = none;
    connect_timeout = from_secs 10;
    tls = none;
    reconnect = some (default float);
    compression = none;
  }

  unfoldable pub x_token : Connector → Option Text → Connector
  x_token self t = record self { token = t }

  unfoldable pub dial : Connector → Text → Connector
  dial self address = record self { dial = some address }

  unfoldable pub connect_timeout : Connector → ℕ → Connector
  connect_timeout self timeout = record self { connect_timeout = timeout }

  unfoldable pub tls_config : Connector → TlsConfig → Connector
  tls_config self config = record self { tls = some config }

  unfoldable pub reconnect : Connector → Reconnect float → Connector
  reconnect self schedule = record self { reconnect = some schedule }

  unfoldable pub no_reconnect : Connector → Connector
  no_reconnect self = record self { reconnect = none }

  unfoldable pub accept_compressed : Connector → Encoding → Connector
  accept_compressed self encoding = record self { compression = some encoding }

  -- `uri.scheme_str() == Some("https")`
  abbrev pub is_https : Option Text → Bool
  is_https none = false
  is_https (some scheme) = text_eq scheme (codes "https")

  -- the settings that every endpoint gets
  unfoldable pub tuned : Connector → Uri → Endpoint
  tuned self address = net.http2_adaptive_window true (
      net.keep_alive_while_idle true (
        net.keep_alive_timeout (from_secs 10) (
          net.http2_keep_alive_interval (from_secs 30)
            (net.connect_timeout self.connect_timeout (net.builder address)))))

  -- `self.tls.clone().unwrap_or_else(..)`
  abbrev pub tls_or_native : Option TlsConfig → TlsConfig
  tls_or_native none = net.native_roots
  tls_or_native (some config) = config

  unfoldable pub endpoint : Connector → Result (ConnectError InvalidUri Failure) Endpoint
  endpoint self = do
    address ← map_err uri (net.parse_uri self.endpoint)
    if is_https (net.scheme_str address)
        then map_err tls (net.tls_config (tls_or_native self.tls) (tuned self address))
        else ok (tuned self address)

  -- `token.as_deref().map(str::parse).transpose()`
  abbrev pub parsed_token : Option Text → Result (ConnectError InvalidUri Failure) (Option Token)
  parsed_token none = ok none
  parsed_token (some text) = elim (net.parse_token text) [
    | none ↦ err ConnectError.token
    | some t ↦ ok (some t)
  ]

  unfoldable pub client : Connector → Channel → Result (ConnectError InvalidUri Failure) Client
  client self channel = do
    t ← parsed_token self.token
    ok (record {
      channel = channel;
      interceptor = record { token = t };
      reconnect = self.reconnect;
      compression = self.compression;
    })

  -- `Connector::dialer`, a service that takes the URI of the endpoint
  unfoldable pub dialer : Text → net.Uri → World → Result net.IoError net.Tcp × World
  dialer address target w =
      let (answer, w') = net.tcp_connect address w in
      (answer >>= λ stream. ok (net.tokio_io stream), w')

  -- the match on `self.dial` in `connect`
  unfoldable pub open_channel : Option Text → Endpoint → World → Result Failure Channel × World
  open_channel none point w = net.connect point w
  open_channel (some address) point w = net.connect_with_connector point (dialer address) w

  unfoldable pub connect_to :
      Connector
      → Result (ConnectError InvalidUri Failure) Endpoint
      → World
      → Result (ConnectError InvalidUri Failure) Client × World
  unfolding client open_channel
  connect_to self (err e) w = (err e, w)
  connect_to self (ok point) w =
      let (answer, w') = open_channel self.dial point w in
      (map_err transport answer >>= client self, w')

  unfoldable pub connect :
      Connector → World → Result (ConnectError InvalidUri Failure) Client × World
  unfolding connect_to endpoint
  connect self w = connect_to self (endpoint self) w

  -- the match on `self.dial` in `connect_lazy`
  unfoldable pub lazy_channel : Option Text → Endpoint → Channel
  lazy_channel none point = net.connect_lazy point
  lazy_channel (some address) point = net.connect_with_connector_lazy point (dialer address)

  unfoldable pub connect_lazy : Connector → Result (ConnectError InvalidUri Failure) Client
  unfolding endpoint client lazy_channel
  connect_lazy self = do point ← endpoint self; client self (lazy_channel self.dial point)
