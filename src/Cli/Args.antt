-- ===== src/Cli/Args.antt =====
-- examples/rust/src/main.rs: the arguments of the command line, and what `main` makes of them before it
-- connects. clap fills the record, so its defaults and the environment are behind it.

use preconfs_client.Prelude.{ℕ, Bool, Option, none, some, List, Text, map, if◌then◌else◌}
use preconfs_client.Proto.{ExecutionResult}
use preconfs_client.Feed.{Region}
use preconfs_client.InstructionFilter.{InstructionFilter, data_size}
use preconfs_client.Filter.{
  Filter, new as new_filter, accounts, require, exclude_accounts, signers, exclude_signers,
  instructions, signatures, execution_results,
}
use preconfs_client.Filters.{Filters, single}
use preconfs_client.Reconnect.{Float}
use preconfs_client.Connect.{Transport, Connector, new, x_token, dial, no_reconnect}

pub record Args (Pubkey Signature : Type 0) : Type 0 where
  pub endpoint : Text
  pub x_token : Option Text
  pub dial : Option Text
  pub region : Region
  pub accounts : List Pubkey
  pub required : List Pubkey
  pub excluded : List Pubkey
  pub signers : List Pubkey
  pub excluded_signers : List Pubkey
  pub instructions : List (InstructionFilter Pubkey)
  pub data_size : Option ℕ
  pub signatures : List Signature
  pub results : List ExecutionResult
  pub no_reconnect : Bool

-- the closure that is mapped over `args.instructions`
unfoldable pub sized :
    {Pubkey : Type 0} → Option ℕ → InstructionFilter Pubkey → InstructionFilter Pubkey
sized none instruction = instruction
sized (some size) instruction = data_size instruction size

-- `if let Some(dial) = &args.dial`
unfoldable pub dialed :
    {net : Transport} {float : Float} → Option Text → Connector net float → Connector net float
dialed none made = made
dialed {net} {float} (some address) made = dial net float made address

module _ {Pubkey Signature : Type 0} where
  unfoldable pub filter : Args Pubkey Signature → Filter Pubkey Signature
  filter args =
      let chosen = map (sized args.data_size) args.instructions in
      let any_of = accounts new_filter args.accounts in
      let all_of = require any_of args.required in
      let none_of = exclude_accounts all_of args.excluded in
      let signed = signers none_of args.signers in
      let not_signed = exclude_signers signed args.excluded_signers in
      execution_results (signatures (instructions not_signed chosen) args.signatures) args.results

  unfoldable pub filters : Args Pubkey Signature → Filters Pubkey Signature
  unfolding filter
  filters args = single (filter args)

  module _ (net : Transport) (float : Float) where
    unfoldable pub connector : Args Pubkey Signature → Connector net float
    unfolding dialed
    connector args =
        let made =
          dialed args.dial (x_token net float (new net float args.endpoint) args.x_token) in
        if args.no_reconnect then no_reconnect net float made else made
