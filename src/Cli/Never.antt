-- ===== src/Cli/Never.antt =====
-- What a run of the program never does: end without an error, be refused its own region, or go on behind
-- a lost connection when its arguments say not to.
use preconfs_client.Prelude.{
  ℕ, ◌≡◌, sym, ap, subst, ◌∙◌, true, none, List, [], ◌∷◌, Text, Result, ok, err, if-true, All,
  All-append,
}
use preconfs_client.Errors.{Code, SubscribeError}
use preconfs_client.Proto.{HarmonicTransaction, BamTransaction}
use preconfs_client.Feed.{Region}
use preconfs_client.Filters.{Filters}
use preconfs_client.Event.{FeedUpdate, Event, slot_start, transaction, slot_end, clip, reconnected}
use preconfs_client.Reconnect.{Float}
use preconfs_client.Connect.{Transport, Connector, Client, no_reconnect}
use preconfs_client.Connect.Endpoints.{connect-IsClientOf}
use preconfs_client.Stream.{Io, Deps, Item, new, next_items}
use preconfs_client.Client.{deps as client_deps}
use preconfs_client.Stream.Ends.{NoNotice, next_items-NoNotice}
use preconfs_client.Cli.Args.{Args, connector}
use preconfs_client.Cli.Log.{Line, reconnected_again, log_item, log_event, log_harmonic, log_bam}
use preconfs_client.Cli.Run.{Setting, Ending, Report, ConnectFailure, done, subscribe_failed, main}
use preconfs_client.Cli.Follow.{lines, stand}
use preconfs_client.Cli.Arms.{Streamed, bad_filters, refused, streamed}
use preconfs_client.Cli.Whole.{
  Armed, on_harmonic, on_bam, Reported, no_client, no_version, subscribed, main-Reported,
}

-- An ending that is an error, but not that the region is one of the other feed, or no ending yet.
abbrev pub IsError : {ConnectFailure Status : Type 0} → Ending ConnectFailure Status → Type 0
IsError done = ⊥
IsError (subscribe_failed (SubscribeError.region e)) = ⊥
IsError _ = Unit

abbrev pub NoReconnect : {Signature : Type 0} → Line Signature → Type 0
NoReconnect (reconnected_again n) = ⊥
NoReconnect _ = Unit

module _ {Client Status Signature : Type 0} (deps : Deps Client Status)
    (log : List Text → deps.feed.Transaction → Line Signature) where
  stand-IsError :
      (ConnectFailure : Type 0) (items : List (Item deps))
      → IsError (stand deps log {ConnectFailure = ConnectFailure} items)
  unfolding stand
  stand-IsError Failed [] = tt
  stand-IsError Failed (ok event ∷ rest) = stand-IsError Failed rest
  stand-IsError Failed (err e ∷ rest) = tt

module _ {Client Status Signature : Type 0} (deps : Deps Client Status)
    (log : List Text → deps.feed.Transaction → Line Signature)
    (plain : (fs : List Text) (t : deps.feed.Transaction) → NoReconnect (log fs t)) where
  log_item-NoReconnect :
      (event : Event deps.feed.Transaction)
      → NoNotice deps (ok event)
      → All NoReconnect (log_item log event)
  unfolding log_item log_event
  log_item-NoReconnect (transaction m) h = (plain m.filters m.transaction, tt)
  log_item-NoReconnect (slot_start slot) h = (tt, tt)
  log_item-NoReconnect (slot_end slot) h = (tt, tt)
  log_item-NoReconnect (clip n) h = (tt, tt)
  log_item-NoReconnect (reconnected n) h = absurd h

  lines-NoReconnect :
      (items : List (Item deps))
      → All (NoNotice deps) items
      → All NoReconnect (lines deps log items)
  unfolding lines
  lines-NoReconnect [] h = tt
  lines-NoReconnect (ok event ∷ rest) h =
      All-append NoReconnect (log_item log event) (lines deps log rest)
        (log_item-NoReconnect event h.0) (lines-NoReconnect rest h.1)
  lines-NoReconnect (err e ∷ rest) h = lines-NoReconnect rest h.1

module _ {net : Transport} {float : Float} {Status Signature ConnectFailure : Type 0}
    {code : Status → Code} {updates : FeedUpdate} {io : Io (Client net float) Status updates.Update}
    {await : io.Connecting → io.World → Result Status io.Streaming × io.World}
    {log : List Text → updates.Transaction → Line Signature} {Pubkey Sig : Type 0} {usize_max : ℕ}
    {key : Pubkey → Text} {sig : Sig → Text} {self : Client net float} {r : Region}
    {fs : Filters Pubkey Sig} {fuel : ℕ} {polls : io.World → List io.World} {w : io.World}
    {report : Report Signature ConnectFailure Status} where
  Streamed-IsError :
      Streamed code updates io await log usize_max key sig self r fs fuel polls w report
      → IsError report.1
  Streamed-IsError (bad_filters e _ same) = subst (λ p. IsError p.1) (sym same) tt
  Streamed-IsError (refused request s _ _ same) = subst (λ p. IsError p.1) (sym same) tt
  Streamed-IsError (streamed request stream w' _ _ same) =
      subst (λ p. IsError p.1) (sym same)
        (stand-IsError (client_deps code updates io) log ConnectFailure
          (next_items (client_deps code updates io) fuel (polls w')
            (new (client_deps code updates io) self request self.reconnect stream)).0)

  Streamed-NoReconnect :
      ((fs : List Text) (t : updates.Transaction) → NoReconnect (log fs t))
      → self.reconnect ≡ none
      → Streamed code updates io await log usize_max key sig self r fs fuel polls w report
      → All NoReconnect report.0
  Streamed-NoReconnect plain off (bad_filters e _ same) =
      subst (λ p. All NoReconnect p.0) (sym same) tt
  Streamed-NoReconnect plain off (refused request s _ _ same) =
      subst (λ p. All NoReconnect p.0) (sym same) tt
  Streamed-NoReconnect plain off (streamed request stream w' _ _ same) =
      let d = client_deps code updates io in
      subst (λ p. All NoReconnect p.0) (sym same)
        (lines-NoReconnect d log plain
          (next_items d fuel (polls w') (new d self request self.reconnect stream)).0
          (subst
            (λ schedule.
              All (NoNotice d)
                (next_items d fuel (polls w') (new d self request schedule stream)).0)
            (sym off) (next_items-NoNotice d self request stream fuel (polls w'))))

module _ {Pubkey Signature : Type 0} (env : Setting Pubkey Signature) where
  open env use {net, float, Status, codec, prost}

  harmonic_plain :
      (fs : List Text) (t : HarmonicTransaction) → NoReconnect (log_harmonic codec prost fs t)
  unfolding log_harmonic
  harmonic_plain fs t = tt

  bam_plain : (fs : List Text) (t : BamTransaction) → NoReconnect (log_bam codec prost fs t)
  unfolding log_bam
  bam_plain fs t = tt

  module _ (fuel : ℕ) (args : Args Pubkey Signature) where
    Armed-IsError :
        {client : Client net float} {w : net.World}
        {report : Report Signature (ConnectFailure env) Status}
        → Armed env fuel args client w report
        → IsError report.1
    Armed-IsError (on_harmonic _ s) = Streamed-IsError s
    Armed-IsError (on_bam _ s) = Streamed-IsError s

    Armed-NoReconnect :
        {client : Client net float} {w : net.World}
        {report : Report Signature (ConnectFailure env) Status}
        → client.reconnect ≡ none
        → Armed env fuel args client w report
        → All NoReconnect report.0
    Armed-NoReconnect off (on_harmonic _ s) = Streamed-NoReconnect harmonic_plain off s
    Armed-NoReconnect off (on_bam _ s) = Streamed-NoReconnect bam_plain off s

    Reported-IsError :
        {w : net.World} {report : Report Signature (ConnectFailure env) Status}
        → Reported env fuel args w report
        → IsError report.1
    Reported-IsError (no_client e _ same) = subst (λ p. IsError p.1) (sym same) tt
    Reported-IsError (no_version client w' s _ _ same) = subst (λ p. IsError p.1) (sym same) tt
    Reported-IsError (subscribed client w' v w'' later _ _ armed same) =
        subst (λ p. IsError p.1) (sym same) (Armed-IsError armed)

    -- A run of the program never ends without an error, and never with the error that the region is
    -- one of the other feed.
    pub main-IsError : (w : net.World) → IsError (main env fuel args w).1
    main-IsError w = Reported-IsError (main-Reported env fuel args w)

    connector-none : args.no_reconnect ≡ true → (connector net float args).reconnect ≡ none
    unfolding connector no_reconnect
    connector-none h = ap (λ (c : Connector net float). c.reconnect) (if-true _ _ _ h)

    Reported-NoReconnect :
        {w : net.World} {report : Report Signature (ConnectFailure env) Status}
        → args.no_reconnect ≡ true
        → Reported env fuel args w report
        → All NoReconnect report.0
    Reported-NoReconnect h (no_client e _ same) = subst (λ p. All NoReconnect p.0) (sym same) tt
    Reported-NoReconnect h (no_version client w' s _ _ same) =
        subst (λ p. All NoReconnect p.0) (sym same) tt
    Reported-NoReconnect {w} h (subscribed client w' v w'' later made _ armed same) =
        let (channel, carries) =
          connect-IsClientOf net float (connector net float args) w (ap (λ a. a.0) made) in
        subst (λ p. All NoReconnect p.0) (sym same)
          (tt, Armed-NoReconnect (carries.reconnect_is ∙ connector-none h) armed)

    -- With the argument `no_reconnect`, a run of the program never logs a reconnect.
    pub main-NoReconnect :
        (w : net.World) → args.no_reconnect ≡ true → All NoReconnect (main env fuel args w).0
    main-NoReconnect w h = Reported-NoReconnect h (main-Reported env fuel args w)
