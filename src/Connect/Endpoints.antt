-- ===== src/Connect/Endpoints.antt =====
-- What a connection that is made was made to, and what its client carries.
use preconfs_client.Prelude.{
  ℕ, ◌≡◌, ◌≢◌, ◌⊎◌, inl, inr, refl, sym, ap, subst, ◌∙◌, true, false, Option, none, some, Text,
  codes, text_eq_iff, Result, ok, err, map_err, map_err-ok, >>=-ok, ok-injective, err-ne-ok,
  Bool-cases, Option-cases, if-true, if-false,
}
use preconfs_client.Errors.{ConnectError, uri, token, tls, transport}
use preconfs_client.Reconnect.{Float}
use preconfs_client.Connect.{
  Transport, Connector, Client, is_https, tuned, tls_or_native, endpoint, parsed_token, client,
  open_channel, connect_to, connect, connect_lazy,
}
use preconfs_client.Connect.Channels.{OpensLazily, lazy_channel-OpensLazily}

module _ (net : Transport) where
  -- The settings that every endpoint gets, durations in nanoseconds: the connector's timeout, a
  -- keepalive every 30 seconds with 10 seconds for the answer, sent when idle too, and the adaptive
  -- window.
  abbrev pub settled : ℕ → net.Uri → net.Endpoint
  settled timeout address = net.http2_adaptive_window true (
      net.keep_alive_while_idle true (
        net.keep_alive_timeout 10000000000 (
          net.http2_keep_alive_interval 30000000000
            (net.connect_timeout timeout (net.builder address)))))

  -- The TLS settings that are used: the connector's own, or the native roots.
  abbrev pub IsTlsOf : Option net.TlsConfig → net.TlsConfig → Type 0
  IsTlsOf none used = used ≡ net.native_roots
  IsTlsOf (some own) used = used ≡ own

  -- The token that a text is read as.
  abbrev pub IsTokenOf : Option Text → Option net.Token → Type 0
  IsTokenOf none t = t ≡ none
  IsTokenOf (some text) t =
      (value : net.Token) × (net.parse_token text ≡ some value) × (t ≡ some value)

module _ (net : Transport) (float : Float) where
  -- The endpoint of a connector: that of its URI with the settings, over TLS for https.
  pub record IsEndpointOf (self : Connector net float) (point : net.Endpoint) : Type 0 where
    pub address : net.Uri
    pub parsed : net.parse_uri self.endpoint ≡ ok address
    pub secured :
        ((net.scheme_str address ≡ some (codes "https"))
          × (config : net.TlsConfig) × IsTlsOf net self.tls config
          × (net.tls_config config (settled net self.connect_timeout address) ≡ ok point))
        ⊎ ((net.scheme_str address ≢ some (codes "https"))
            × (point ≡ settled net self.connect_timeout address))

  -- A client that carries what the connector was given: the parsed token, the schedule and the
  -- compression, on the channel.
  pub record IsClientOf (self : Connector net float) (channel : net.Channel) (c : Client net float)
      : Type 0 where
    pub on_channel : c.channel ≡ channel
    pub token_is : IsTokenOf net self.token c.interceptor.token
    pub reconnect_is : c.reconnect ≡ self.reconnect
    pub compression_is : c.compression ≡ self.compression

  pub is_https-true : (o : Option Text) → is_https net float o ≡ true → o ≡ some (codes "https")
  is_https-true none h = cc
  is_https-true (some scheme) h = ap some ((text_eq_iff scheme (codes "https")).0 h)

  is_https-false : (o : Option Text) → is_https net float o ≡ false → o ≢ some (codes "https")
  is_https-false o h same = let yes : true ≡ false = ap (is_https net float) (sym same) ∙ h in cc

  pub tls_or_native-IsTlsOf : (o : Option net.TlsConfig) → IsTlsOf net o (tls_or_native net float o)
  tls_or_native-IsTlsOf none = refl
  tls_or_native-IsTlsOf (some own) = refl

  pub tuned-settled :
      (self : Connector net float) (address : net.Uri)
      → tuned net float self address ≡ settled net self.connect_timeout address
  unfolding tuned
  tuned-settled self address = refl

  parsed_token-IsTokenOf :
      (o : Option Text) {t : Option net.Token} → parsed_token net float o ≡ ok t → IsTokenOf net o t
  parsed_token-IsTokenOf none h = sym (ok-injective h)
  parsed_token-IsTokenOf (some text) {t} h = elim (Option-cases (net.parse_token text)) [
    | inl is_none ↦
        let bad : err token ≡ ok t = rw (is_none, parsed_token) at h in absurd (err-ne-ok bad)
    | inr (value, is_value) ↦
        let same : ok (some value) ≡ ok t = rw (is_value, parsed_token) at h in
        (value, is_value, sym (ok-injective same))
  ]

  pub IsTokenOf-parsed_token :
      (o : Option Text) {t : Option net.Token} → IsTokenOf net o t → parsed_token net float o ≡ ok t
  IsTokenOf-parsed_token none h = ap ok (sym h)
  IsTokenOf-parsed_token (some text) (value, is_value, same) = rw (parsed_token, is_value, same)

  pub endpoint-ok :
      (self : Connector net float) {point : net.Endpoint}
      → endpoint net float self ≡ ok point
      → IsEndpointOf self point
  unfolding endpoint
  endpoint-ok self {point} h =
      let (address, is_address, rest) = >>=-ok (map_err uri (net.parse_uri self.endpoint)) _ h in
      let same = tuned-settled self address in
      record {
        address = address;
        parsed = map_err-ok uri _ is_address;
        secured = elim (Bool-cases (is_https net float (net.scheme_str address))) [
          | inl https ↦ inl (
            is_https-true _ https,
            tls_or_native net float self.tls,
            tls_or_native-IsTlsOf self.tls,
            subst (λ e. net.tls_config (tls_or_native net float self.tls) e ≡ ok point) same
                (map_err-ok tls _ (sym (if-true _ _ _ https) ∙ rest)),
          )
          | inr plain ↦ inr (
            is_https-false _ plain,
            sym (ok-injective (sym (if-false _ _ _ plain) ∙ rest)) ∙ same,
          )
        ];
      }

  pub client-ok :
      (self : Connector net float) (channel : net.Channel) {c : Client net float}
      → client net float self channel ≡ ok c
      → IsClientOf self channel c
  unfolding client
  client-ok self channel h =
      let (t, is_t, rest) = >>=-ok (parsed_token net float self.token) _ h in
      let same = ok-injective rest in
      record {
        on_channel = sym (ap (λ c. c.channel) same);
        token_is = parsed_token-IsTokenOf self.token (is_t ∙ ap (λ c. ok c.interceptor.token) same);
        reconnect_is = sym (ap (λ c. c.reconnect) same);
        compression_is = sym (ap (λ c. c.compression) same);
      }

  connect_to-ok :
      (self : Connector net float)
      (r : Result (ConnectError net.InvalidUri net.Failure) net.Endpoint) (w : net.World)
      {c : Client net float}
      → (connect_to net float self r w).0 ≡ ok c
      → (channel : net.Channel) × IsClientOf self channel c
  unfolding connect_to
  connect_to-ok self (err e) w h = absurd (err-ne-ok h)
  connect_to-ok self (ok point) w h =
      let (channel, is_channel, rest) =
        >>=-ok (map_err transport (open_channel net float self.dial point w).0) _ h in
      (channel, client-ok self channel rest)

  -- The client of a connection that succeeds carries the token, the schedule and the compression.
  pub connect-IsClientOf :
      (self : Connector net float) (w : net.World) {c : Client net float}
      → (connect net float self w).0 ≡ ok c
      → (channel : net.Channel) × IsClientOf self channel c
  unfolding connect
  connect-IsClientOf self w h = connect_to-ok self (endpoint net float self) w h

  -- A lazy client that is returned is on a lazy channel to the connector's endpoint, through the dial
  -- override if there is one, and carries the token, the schedule and the compression.
  pub connect_lazy-IsClientOf :
      (self : Connector net float) {c : Client net float}
      → connect_lazy net float self ≡ ok c
      → (point : net.Endpoint) × IsEndpointOf self point
        × OpensLazily net self.dial point c.channel
        × IsClientOf self c.channel c
  unfolding connect_lazy
  connect_lazy-IsClientOf self {c} h =
      let (point, is_point, rest) = >>=-ok (endpoint net float self) _ h in
      let made = client-ok self _ rest in
      (
        point,
        endpoint-ok self is_point,
        subst (OpensLazily net self.dial point) (sym made.on_channel)
            (lazy_channel-OpensLazily net float self.dial point),
        record {
          on_channel = refl;
          token_is = made.token_is;
          reconnect_is = made.reconnect_is;
          compression_is = made.compression_is;
        },
      )
