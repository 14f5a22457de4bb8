-- ===== src/Connect/Channels.antt =====
-- How a channel is opened: to the endpoint, or over a stream to the dial override.
use preconfs_client.Prelude.{◌≡◌, refl, Option, none, some, Text, Result, ok, err, ◌>>=◌}
use preconfs_client.Reconnect.{Float}
use preconfs_client.Connect.{Transport, dialer, open_channel, lazy_channel}

module _ (net : Transport) where
  -- What a service answers that dials an address: a TCP stream to the address, or the error of the dial.
  pub data Dials (address : Text) (w : net.World) (answer : Result net.IoError net.Tcp × net.World)
      : Type 0 where
    reached :
        (stream : net.TcpStream) (w' : net.World)
        → net.tcp_connect address w ≡ (ok stream, w')
        → answer ≡ (ok (net.tokio_io stream), w')
        → Dials address w answer
    unreached :
        (e : net.IoError) (w' : net.World)
        → net.tcp_connect address w ≡ (err e, w')
        → answer ≡ (err e, w')
        → Dials address w answer

  -- A service that dials an address whatever URI it is asked for.
  abbrev pub IsDialerOf :
      Text → (net.Uri → net.World → Result net.IoError net.Tcp × net.World) → Type 0
  IsDialerOf address service = (u : net.Uri) (w : net.World) → Dials address w (service u w)

  -- Without a dial override the transport connects to the endpoint; with one it connects through a
  -- service that dials the override.
  pub data Opens (dial : Option Text) (point : net.Endpoint) (w : net.World)
      (answer : Result net.Failure net.Channel × net.World) : Type 0 where
    straight : dial ≡ none → net.connect point w ≡ answer → Opens dial point w answer
    through :
        (address : Text) (service : net.Uri → net.World → Result net.IoError net.Tcp × net.World)
        → dial ≡ some address
        → IsDialerOf address service
        → net.connect_with_connector point service w ≡ answer
        → Opens dial point w answer

  -- The same of a channel that connects when it is first used.
  pub data OpensLazily (dial : Option Text) (point : net.Endpoint) (channel : net.Channel)
      : Type 0 where
    lazily : dial ≡ none → net.connect_lazy point ≡ channel → OpensLazily dial point channel
    lazily_through :
        (address : Text) (service : net.Uri → net.World → Result net.IoError net.Tcp × net.World)
        → dial ≡ some address
        → IsDialerOf address service
        → net.connect_with_connector_lazy point service ≡ channel
        → OpensLazily dial point channel

  answer-Dials :
      (address : Text) (w : net.World) (a : Result net.IoError net.TcpStream × net.World)
      → net.tcp_connect address w ≡ a
      → Dials address w (a.0 >>= λ stream. ok (net.tokio_io stream), a.1)
  answer-Dials address w (ok stream, w') h = reached stream w' h refl
  answer-Dials address w (err e, w') h = unreached e w' h refl

module _ (net : Transport) (float : Float) where
  dialer-IsDialerOf : (address : Text) → IsDialerOf net address (dialer net float address)
  unfolding dialer
  dialer-IsDialerOf address u w = answer-Dials net address w (net.tcp_connect address w) refl

  pub open_channel-Opens :
      (dial : Option Text) (point : net.Endpoint) (w : net.World)
      {a : Result net.Failure net.Channel × net.World}
      → open_channel net float dial point w ≡ a
      → Opens net dial point w a
  unfolding open_channel
  open_channel-Opens none point w h = straight refl h
  open_channel-Opens (some address) point w h =
      through address (dialer net float address) refl (dialer-IsDialerOf address) h

  pub lazy_channel-OpensLazily :
      (dial : Option Text) (point : net.Endpoint)
      → OpensLazily net dial point (lazy_channel net float dial point)
  unfolding lazy_channel
  lazy_channel-OpensLazily none point = lazily refl refl
  lazy_channel-OpensLazily (some address) point =
      lazily_through address (dialer net float address) refl (dialer-IsDialerOf address) refl
