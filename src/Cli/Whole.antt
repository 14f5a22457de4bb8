-- ===== src/Cli/Whole.antt =====
-- Every run of the program, from its arguments to what it has logged and ended with.
use preconfs_client.Prelude.{ℕ, ◌≡◌, refl, ap, [], ◌∷◌, Result, ok, err}
use preconfs_client.Feed.{Feed}
use preconfs_client.Region.{feed}
use preconfs_client.Event.Mapping.{harmonic_feed, bam_feed}
use preconfs_client.Connect.{Client, connect}
use preconfs_client.Client.{
  harmonic_io, bam_io, VersionResponse, version, subscribe_harmonic, subscribe_bam,
}
use preconfs_client.Cli.Args.{Args, filters, connector}
use preconfs_client.Cli.Log.{connected, log_harmonic, log_bam}
use preconfs_client.Cli.Run.{
  Setting, Report, ConnectFailure, connect_failed, version_failed, after, arm, on_version,
  on_client, main,
}
use preconfs_client.Cli.Arms.{Streamed, subscribe-Streamed}

module _ {Pubkey Signature : Type 0} (env : Setting Pubkey Signature) where
  open env use {net, float, Status, code, rpc, prost, codec, usize_max, key, sig, harmonic, bam}

  abbrev Told : Type 0
  Told = Report Signature (ConnectFailure env) Status

  module _ (fuel : ℕ) (args : Args Pubkey Signature) where
    -- What the arm of the region's feed reports.
    pub data Armed (client : Client net float) (w : net.World) (report : Told) : Type 0 where
      on_harmonic :
          feed args.region ≡ Feed.harmonic
          → Streamed code harmonic_feed
              (harmonic_io rpc harmonic.raw)
              harmonic.await
              (log_harmonic codec prost)
              usize_max
              key
              sig
              client
              args.region
              (filters args)
              fuel
              harmonic.polls
              (harmonic.enter w)
              report
          → Armed client w report
      on_bam :
          feed args.region ≡ Feed.bam
          → Streamed code bam_feed
              (bam_io rpc bam.raw)
              bam.await
              (log_bam codec prost)
              usize_max
              key
              sig
              client
              args.region
              (filters args)
              fuel
              bam.polls
              (bam.enter w)
              report
          → Armed client w report

    arm-Armed :
        (f : Feed) (client : Client net float) (w : net.World)
        → feed args.region ≡ f
        → Armed client w (arm env f fuel args client w)
    unfolding arm subscribe_harmonic subscribe_bam
    arm-Armed Feed.harmonic client w of_feed = on_harmonic of_feed (
        subscribe-Streamed code harmonic_feed (harmonic_io rpc harmonic.raw) harmonic.await
          (log_harmonic codec prost) usize_max key sig client args.region (filters args) fuel
          harmonic.polls (harmonic.enter w) Feed.harmonic of_feed)
    arm-Armed Feed.bam client w of_feed = on_bam of_feed (
        subscribe-Streamed code bam_feed (bam_io rpc bam.raw) bam.await (log_bam codec prost)
          usize_max key sig client args.region (filters args) fuel bam.polls (bam.enter w) Feed.bam
          of_feed)

    -- The three steps of a run: connecting, asking for the version, and the subscription with its stream.
    pub data Reported (w : net.World) (report : Told) : Type 0 where
      no_client :
          (e : ConnectFailure env)
          → (connect net float (connector net float args) w).0 ≡ err e
          → report ≡ ([], connect_failed e)
          → Reported w report
      no_version :
          (client : Client net float) (w' : net.World) (s : Status)
          → connect net float (connector net float args) w ≡ (ok client, w')
          → (version rpc client w').0 ≡ err s
          → report ≡ ([], version_failed s)
          → Reported w report
      subscribed :
          (client : Client net float) (w' : net.World) (v : VersionResponse) (w'' : net.World)
          (later : Told)
          → connect net float (connector net float args) w ≡ (ok client, w')
          → version rpc client w' ≡ (ok v, w'')
          → Armed client w'' later
          → report ≡ after (connected v ∷ []) later
          → Reported w report

    on_version-Reported :
        (w : net.World) (client : Client net float) (w' : net.World)
        (a : Result Status VersionResponse × net.World)
        → connect net float (connector net float args) w ≡ (ok client, w')
        → version rpc client w' ≡ a
        → Reported w (on_version env fuel args client a)
    unfolding on_version
    on_version-Reported w client w' (err s, w'') made asked =
        no_version client w' s made (ap (λ a. a.0) asked) refl
    on_version-Reported w client w' (ok v, w'') made asked =
        subscribed client w' v w'' (arm env (feed args.region) fuel args client w'') made asked
          (arm-Armed (feed args.region) client w'' refl) refl

    on_client-Reported :
        (w : net.World) (a : Result (ConnectFailure env) (Client net float) × net.World)
        → connect net float (connector net float args) w ≡ a
        → Reported w (on_client env fuel args a)
    unfolding on_client
    on_client-Reported w (err e, w') made = no_client e (ap (λ a. a.0) made) refl
    on_client-Reported w (ok client, w') made =
        on_version-Reported w client w' (version rpc client w') made refl

    -- A run of the program stops at the first step that fails, with the error of that step:
    -- connecting, asking for the version, making the request of the arguments' filters, or the
    -- server's answer to the request. When all succeed it logs that it is connected and then, in
    -- order, the line of each event that a new stream of the region's feed yields, a stream of that
    -- request with the client's schedule, polled once in each of the worlds that the setting gives
    -- behind the server's answer; it ends with the error that the stream yields, if there is one.
    pub main-Reported : (w : net.World) → Reported w (main env fuel args w)
    unfolding main
    main-Reported w = on_client-Reported w (connect net float (connector net float args) w) refl
