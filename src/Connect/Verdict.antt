-- ===== src/Connect/Verdict.antt =====
-- Every outcome of `Connector::connect`.
use preconfs_client.Prelude.{
  ◌≡◌, inl, inr, refl, sym, ap, subst, ◌∙◌, Option, none, some, Text, codes, Result, ok, err,
  map_err, map_err-ok, map_err-err, ◌>>=◌, >>=-err, Bool-cases, if-true, if-false, ok-ne-err,
  err-injective, Option-cases,
}
use preconfs_client.Errors.{ConnectError, uri, token, tls, transport}
use preconfs_client.Reconnect.{Float}
use preconfs_client.Connect.{
  Transport, Connector, Client, is_https, tls_or_native, endpoint, parsed_token, client,
  open_channel, connect_to, connect,
}
use preconfs_client.Connect.Channels.{Opens, open_channel-Opens}
use preconfs_client.Connect.Endpoints.{
  settled, IsTlsOf, is_https-true, tls_or_native-IsTlsOf, tuned-settled, IsEndpointOf, IsClientOf,
  endpoint-ok, client-ok,
}

module _ (net : Transport) (float : Float) (self : Connector net float) where
  abbrev Failure : Type 0
  Failure = ConnectError net.InvalidUri net.Failure

  -- What is wrong with an endpoint: its URI, or the TLS settings that an https one needs.
  pub data EndpointFault (e : Failure) : Type 0 where
    bad_uri :
        (x : net.InvalidUri) → net.parse_uri self.endpoint ≡ err x → e ≡ uri x → EndpointFault e
    bad_tls :
        (address : net.Uri) (x : net.Failure)
        → net.parse_uri self.endpoint ≡ ok address
        → net.scheme_str address ≡ some (codes "https")
        → (config : net.TlsConfig) → IsTlsOf net self.tls config
        → net.tls_config config (settled net self.connect_timeout address) ≡ err x
        → e ≡ tls x
        → EndpointFault e

  endpoint-err : {e : Failure} → endpoint net float self ≡ err e → EndpointFault e
  unfolding endpoint
  endpoint-err h = elim (>>=-err (map_err uri (net.parse_uri self.endpoint)) _ h) [
    | inl bad ↦ let (x, is_x, same) = map_err-err uri _ bad in bad_uri x is_x same
    | inr (address, parsed, rest) ↦
        elim (Bool-cases (is_https net float (net.scheme_str address))) [
          | inl https ↦
              let (x, is_x, same) = map_err-err tls _ (sym (if-true _ _ _ https) ∙ rest) in
              bad_tls address x (map_err-ok uri _ parsed) (is_https-true net float _ https)
                (tls_or_native net float self.tls) (tls_or_native-IsTlsOf net float self.tls)
                (subst (λ e. net.tls_config (tls_or_native net float self.tls) e ≡ err x)
                  (tuned-settled net float self address) is_x)
                same
          | inr plain ↦ absurd (ok-ne-err (sym (if-false _ _ _ plain) ∙ rest))
        ]
  ]

  parsed_token-err :
      (t : Option Text) {e : Failure}
      → parsed_token net float t ≡ err e
      → (text : Text) × (t ≡ some text) × (net.parse_token text ≡ none) × (e ≡ token)
  parsed_token-err none h = cc
  parsed_token-err (some text) {e} h = elim (Option-cases (net.parse_token text)) [
    | inl is_none ↦
        let same : err token ≡ err e = rw (is_none, parsed_token) at h in
        (text, refl, is_none, sym (err-injective same))
    | inr (t, is_t) ↦
        let same : ok (some t) ≡ err e = rw (is_t, parsed_token) at h in absurd (ok-ne-err same)
  ]

  -- The outcomes, in the order of the steps. The world is as it was until the channel is opened.
  pub data Connected (w : net.World) (answer : Result Failure (Client net float) × net.World)
      : Type 0 where
    bad_endpoint : (e : Failure) → EndpointFault e → answer ≡ (err e, w) → Connected w answer
    unreachable :
        (point : net.Endpoint) (x : net.Failure) (w' : net.World)
        → IsEndpointOf net float self point
        → Opens net self.dial point w (err x, w')
        → answer ≡ (err (transport x), w')
        → Connected w answer
    bad_token :
        (point : net.Endpoint) (channel : net.Channel) (w' : net.World) (text : Text)
        → IsEndpointOf net float self point
        → Opens net self.dial point w (ok channel, w')
        → self.token ≡ some text
        → net.parse_token text ≡ none
        → answer ≡ (err token, w')
        → Connected w answer
    connected :
        (point : net.Endpoint) (channel : net.Channel) (w' : net.World) (c : Client net float)
        → IsEndpointOf net float self point
        → Opens net self.dial point w (ok channel, w')
        → IsClientOf net float self channel c
        → answer ≡ (ok c, w')
        → Connected w answer

  client-Connected :
      (w : net.World) (point : net.Endpoint) (channel : net.Channel) (w' : net.World)
      (r : Result Failure (Client net float))
      → IsEndpointOf net float self point
      → Opens net self.dial point w (ok channel, w')
      → client net float self channel ≡ r
      → Connected w (r, w')
  unfolding client
  client-Connected w point channel w' (ok c) at opened made =
      connected point channel w' c at opened (client-ok net float self channel made) refl
  client-Connected w point channel w' (err e) at opened made =
      elim (>>=-err (parsed_token net float self.token) _ made) [
        | inl bad ↦
            let (text, is_text, unparsed, same) = parsed_token-err self.token bad in
            bad_token point channel w' text at opened is_text unparsed (ap (λ e. (err e, w')) same)
        | inr (t, _, fine) ↦ absurd (ok-ne-err fine)
      ]

  opened-Connected :
      (w : net.World) (point : net.Endpoint) (a : Result net.Failure net.Channel × net.World)
      → IsEndpointOf net float self point
      → Opens net self.dial point w a
      → Connected w (map_err transport a.0 >>= client net float self, a.1)
  opened-Connected w point (ok channel, w') at opened =
      client-Connected w point channel w' (client net float self channel) at opened refl
  opened-Connected w point (err x, w') at opened = unreachable point x w' at opened refl

  connect_to-Connected :
      (w : net.World) (r : Result Failure net.Endpoint)
      → endpoint net float self ≡ r
      → Connected w (connect_to net float self r w)
  unfolding connect_to
  connect_to-Connected w (err e) bad = bad_endpoint e (endpoint-err bad) refl
  connect_to-Connected w (ok point) made =
      opened-Connected w point (open_channel net float self.dial point w)
        (endpoint-ok net float self made) (open_channel-Opens net float self.dial point w refl)

  -- A call of `connect` has one of five outcomes. A URI that is refused, or TLS settings that are refused
  -- for a URI of scheme https, are its error, and nothing is opened. Otherwise a channel is opened once,
  -- to the endpoint of the URI with the connector's timeout, a keepalive of 30 and 10 seconds that runs
  -- when idle too, and the adaptive window, over the connector's TLS settings or the native roots if the
  -- scheme is https. With a dial override it is opened through a service that makes a TCP stream to the
  -- override, whatever URI it is asked for, and without one by the transport itself. The transport's
  -- error is the call's error, and so is a token that is no header value, which is seen only then. A
  -- client that is returned is on that channel and carries the token, the schedule and the compression.
  pub connect-Connected : (w : net.World) → Connected w (connect net float self w)
  unfolding connect
  connect-Connected w = connect_to-Connected w (endpoint net float self) refl
