-- ===== src/Cli/Selection.antt =====
-- What the arguments of the command line ask the server for.
use preconfs_client.Prelude.{
  ℕ, ◌≡◌, refl, sym, ap, ◌∙◌, Option, none, some, List, [], ◌∷◌, map, Text, codes, ok, >>=-ok,
  ok-injective, Bool-cases, inl, inr, ltb, err-ne-ok, if-true, if-false, ap₂,
}
use preconfs_client.HashMap
use preconfs_client.HashMap.{HashMap}
use preconfs_client.Proto
use preconfs_client.Proto.{TransactionFilter, SubscribeRequest, result_discriminant}
use preconfs_client.Region.{into_proto}
use preconfs_client.InstructionFilter.{
  InstructionFilter, Memcmp, data_size, into_proto as instruction_into_proto,
}
use preconfs_client.Filter.{
  Filter, new, accounts, require, exclude_accounts, signers, exclude_signers, instructions,
  signatures, execution_results, validate, into_proto as filter_into_proto,
}
use preconfs_client.Filters.{
  collect, into_request, single, with, new as new_filters, instruction_count,
}
use preconfs_client.Limits.{max_instruction_filters}
use preconfs_client.Cli.Args.{Args, sized, filter, filters}

-- The size that an instruction filter must have: that of `--data-size`, which stands for its own.
abbrev pub size_of : Option ℕ → Option ℕ → Option ℕ
size_of none own = own
size_of (some size) own = some size

collect_one :
    {Pubkey Signature : Type 0} (usize_max : ℕ) (key : Pubkey → Text) (sig : Signature → Text)
    (name : Text) (f : Filter Pubkey Signature) {t : HashMap TransactionFilter}
    → collect usize_max key sig HashMap.empty ((name, f) ∷ []) ≡ ok t
    → t ≡ (name, filter_into_proto key sig f) ∷ []
unfolding collect HashMap.insert
collect_one usize_max key sig name f h =
    let (u, valid, same) =
      >>=-ok (validate usize_max f name) (λ _. ok ((name, filter_into_proto key sig f) ∷ [])) h in
    sym (ok-injective same)

module _ {Pubkey Signature : Type 0} (key : Pubkey → Text) (sig : Signature → Text)
    (args : Args Pubkey Signature) where
  abbrev pub instruction_message : InstructionFilter Pubkey → Proto.InstructionFilter
  instruction_message i = record {
    program_id = key i.program_id;
    memcmp = map (λ (m : Memcmp). record { offset = m.offset; bytes = m.bytes }) i.memcmp;
    data_size = size_of args.data_size i.data_size;
  }

  -- The filter message with each list of the arguments in its place.
  abbrev pub message : TransactionFilter
  message = record {
    account_include = map key args.accounts;
    account_exclude = map key args.excluded;
    account_required = map key args.required;
    signature = map sig args.signatures;
    execution_results = map result_discriminant args.results;
    signer_include = map key args.signers;
    signer_exclude = map key args.excluded_signers;
    instructions = map instruction_message args.instructions;
  }

  sized_message :
      (size : Option ℕ) (i : InstructionFilter Pubkey)
      → instruction_into_proto key (sized size i) ≡ record {
        program_id = key i.program_id;
        memcmp = map (λ (m : Memcmp). record { offset = m.offset; bytes = m.bytes }) i.memcmp;
        data_size = size_of size i.data_size;
      }
  unfolding instruction_into_proto sized data_size
  sized_message none i = refl
  sized_message (some size) i = refl

  sized_messages :
      (is : List (InstructionFilter Pubkey))
      → map (instruction_into_proto key) (map (sized args.data_size) is)
        ≡ map instruction_message is
  sized_messages [] = refl
  sized_messages (i ∷ is) = ap₂ (λ x l. x ∷ l) (sized_message args.data_size i) (sized_messages is)

  filter-message : filter_into_proto key sig (filter args) ≡ message
  unfolding filter_into_proto filter new accounts require exclude_accounts signers exclude_signers
      instructions signatures execution_results
  filter-message = ap (λ l. record message { instructions = l }) (sized_messages args.instructions)

  abbrev asked : HashMap TransactionFilter → SubscribeRequest
  asked t = record { transactions = t; region = some (into_proto args.region) }

  -- A request that is made of the arguments is of their region and has one filter, under the name
  -- "default": each list of the arguments stands in its field, and with a data size every instruction
  -- filter asks for that size, instead of its own if it has one.
  pub into_request-filters :
      (usize_max : ℕ) {request : SubscribeRequest}
      → into_request usize_max key sig (filters args) args.region ≡ ok request
      → request ≡ record {
        transactions = (codes "default", message) ∷ [];
        region = some (into_proto args.region);
      }
  unfolding into_request filters single with new_filters collect HashMap.insert
  into_request-filters usize_max h =
      elim (Bool-cases (ltb max_instruction_filters (instruction_count (filters args).filters))) [
        | inl over ↦ absurd (err-ne-ok (sym (if-true _ _ _ over) ∙ h))
        | inr fits ↦
            let (t, collected, rest) =
              >>=-ok (collect usize_max key sig HashMap.empty ((codes "default", filter args) ∷ []))
                (λ t. ok (asked t)) (sym (if-false _ _ _ fits) ∙ h) in
            sym (ok-injective rest)
            ∙ ap asked (collect_one usize_max key sig (codes "default") (filter args) collected)
            ∙ ap (λ t. asked ((codes "default", t) ∷ [])) filter-message
      ]
