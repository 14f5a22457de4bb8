-- ===== src/Connect/Tests.antt =====
-- Runs of the theorems on connecting, over a transport whose channel is the address it was opened to.
use preconfs_client.Prelude.{Option, [], ◌∷◌, ℕ, ◌≡◌, refl, none, some, Text, codes, ok, err}
use preconfs_client.HashMap
use preconfs_client.HashMap.{HashMap}
use preconfs_client.Reconnect.Tests.{numbers}
use preconfs_client.Connect.{
  parsed_token, call, Transport, Connector, Client, connect, connect_lazy, dialer,
}
use preconfs_client.Connect.Tokens.{MetadataLaws, Carries, connect-Carries}
use preconfs_client.Connect.Verdict.{Connected, connect-Connected}

abbrev pub wired : Transport
wired = record {
  World = ℕ;
  Uri = Text;
  Endpoint = Text;
  Channel = Text;
  TlsConfig = ℕ;
  Encoding = ℕ;
  Token = Text;
  Metadata = HashMap Text;
  InvalidUri = ℕ;
  Failure = ℕ;
  IoError = ℕ;
  TcpStream = Text;
  Tcp = Text;
  tcp_connect = λ a w. (ok a, w);
  tokio_io = λ s. s;
  parse_uri = λ s. ok s;
  scheme_str = λ u. some (codes "https");
  parse_token = λ s. some s;
  native_roots = 0;
  builder = λ u. u;
  connect_timeout = λ d e. e;
  http2_keep_alive_interval = λ d e. e;
  keep_alive_timeout = λ d e. e;
  keep_alive_while_idle = λ b e. e;
  http2_adaptive_window = λ b e. e;
  tls_config = λ t e. ok e;
  connect = λ e w. (ok e, w);
  connect_with_connector = λ e service w. service e w;
  connect_lazy = λ e. e;
  connect_with_connector_lazy =
      λ e service. elim (service e 0).0 [ ok stream ↦ stream | err x ↦ e ];
  insert = HashMap.insert;
}

abbrev connector : Connector wired numbers
connector = record {
  endpoint = codes "https://p";
  token = some (codes "t");
  dial = some (codes "h:1");
  connect_timeout = 1;
  tls = none;
  reconnect = none;
  compression = none;
}

abbrev pub dialed : Client wired numbers
dialed = record {
  channel = codes "h:1";
  interceptor = record { token = some (codes "t") };
  reconnect = none;
  compression = none;
}

connected : (connect wired numbers connector 0).0 ≡ ok dialed
unfolding connect dialer
connected = refl

lazily_connected : connect_lazy wired numbers connector ≡ ok dialed
unfolding connect_lazy dialer
lazily_connected = refl

connect-Connected_example : Connected wired numbers connector 0 (connect wired numbers connector 0)
connect-Connected_example = connect-Connected wired numbers connector 0

abbrev laws : MetadataLaws wired
laws = record { get = HashMap.get; get-insert = HashMap.get-insert }

-- Metadata that has a token already.
abbrev metadata : HashMap Text
metadata = (codes "x-token", codes "old") ∷ []

connect-Carries_example :
    (token : Option Text) × (parsed_token wired numbers (some (codes "t")) ≡ ok token)
    × Carries wired numbers laws token metadata (call wired numbers dialed.interceptor metadata)
connect-Carries_example = connect-Carries wired numbers laws connector 0 metadata connected

token_replaced : call wired numbers dialed.interceptor metadata ≡ (codes "x-token", codes "t") ∷ []
unfolding call HashMap.insert
token_replaced = refl
