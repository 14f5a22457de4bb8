-- ===== src/Connect/Tokens.antt =====
-- The token of a connector on the requests of its client.
use preconfs_client.Prelude.{
  ◌≡◌, refl, ◌∙◌, false, Option, none, some, Text, codes, text_eq, text_eq_refl, ok, if◌then◌else◌,
  if-true, if-false,
}
use preconfs_client.Reconnect.{Float}
use preconfs_client.Connect.{Transport, Connector, Client, parsed_token, call, connect}
use preconfs_client.Connect.Endpoints.{connect-IsClientOf, IsTokenOf-parsed_token}

-- What `MetadataMap` documents of `get` behind `insert`: the value of a key is replaced.
pub record MetadataLaws (net : Transport) : Type 0 where
  pub get : Text → net.Metadata → Option net.Token
  pub get-insert :
      (k j : Text) (t : net.Token) (m : net.Metadata)
      → get j (net.insert k t m) ≡ (if text_eq k j then some t else get j m)

module _ (net : Transport) (float : Float) (laws : MetadataLaws net) where
  -- A request before and after the interceptor: the token is its "x-token", and nothing else changes.
  pub record Carries (token : Option net.Token) (m m' : net.Metadata) : Type 0 where
    pub sent : (t : net.Token) → token ≡ some t → laws.get (codes "x-token") m' ≡ some t
    pub untouched : token ≡ none → m' ≡ m
    pub others : (j : Text) → text_eq (codes "x-token") j ≡ false → laws.get j m' ≡ laws.get j m

  call-Carries :
      (token : Option net.Token) (m : net.Metadata)
      → Carries token m (call net float (record { token = token }) m)
  unfolding call
  call-Carries none m = record { sent = λ t h. cc; untouched = λ h. refl; others = λ j h. refl }
  call-Carries (some t) m = record {
    sent = λ u h.
        laws.get-insert (codes "x-token") (codes "x-token") t m
        ∙ if-true _ (some t) (laws.get (codes "x-token") m) (text_eq_refl (codes "x-token"))
        ∙ h;
    untouched = λ h. cc;
    others = λ j h. laws.get-insert (codes "x-token") j t m ∙ if-false _ _ _ h;
  }

  -- On any metadata, which keeps what is inserted, the interceptor of a client that a connector has
  -- made sets "x-token" to the connector's token, in place of any value that was there, and leaves
  -- every other key as it was; without a token it changes nothing.
  pub connect-Carries :
      (self : Connector net float) (w : net.World) {c : Client net float} (m : net.Metadata)
      → (connect net float self w).0 ≡ ok c
      → (token : Option net.Token) × (parsed_token net float self.token ≡ ok token)
        × Carries token m (call net float c.interceptor m)
  connect-Carries self w {c} m h =
      let (channel, made) = connect-IsClientOf net float self w h in
      (
        c.interceptor.token,
        IsTokenOf-parsed_token net float self.token made.token_is,
        call-Carries c.interceptor.token m,
      )
