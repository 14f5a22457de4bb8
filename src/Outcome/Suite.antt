-- ===== src/Outcome/Suite.antt =====
-- preconfs-proto/src/lib.rs: the unit tests of the crate, each as the product of what it asserts. They
-- pass with every `Generated` that keeps to its laws.
use preconfs_client.Prelude.{
  ℤ, pos, negsuc, ◌≡◌, refl, sym, ◌∙◌, inl, inr, Option, none, some, Option-cases, none-ne-some,
  List, [], ◌∷◌, Text, codes, All, Unwrapped, is_err, true, false,
}
use preconfs_client.Proto.{
  ExecutionResult, success, execution_failure, fees_only, HarmonicTransaction, BamTransaction,
}
use preconfs_client.Outcome.{
  Generated, proto_name, harmonic_result, bam_result, from_str, short_name,
}
use preconfs_client.Outcome.Names.{pick}
use preconfs_client.Outcome.Tests.{of_number, of_number_iff, of_name_iff}

module _ (prost : Generated) where
  abbrev ExecutionResultsParseShortAndProtoNames : Type 0
  ExecutionResultsParseShortAndProtoNames =
      Unwrapped (from_str prost (codes "fees_only")) (λ result. result ≡ fees_only)
      × Unwrapped (from_str prost (codes "EXECUTION_RESULT_SUCCESS")) (λ result. result ≡ success)
      × Unwrapped (from_str prost (codes "Success")) (λ result. result ≡ success)
      × (is_err (from_str prost (codes "landed")) ≡ true)

  -- the closures of the second test
  abbrev harmonic : Option ℤ → HarmonicTransaction
  harmonic result = record { transaction = []; slot = 0; result = result; region = []; seq = 0 }

  abbrev bam : Option ℤ → BamTransaction
  bam result = record {
    transaction = [];
    slot = 0;
    is_revert_on_error = false;
    node = [];
    sequence = 0;
    bundle_position = 0;
    result = result;
  }

  abbrev cases : List (Option ℤ × Option ExecutionResult)
  cases =
      (none, none)
      ∷ (some (pos 0), some success)
      ∷ (some (pos 1), some execution_failure)
      ∷ (some (pos 2), some fees_only)
      ∷ (some (pos 3), none)
      ∷ (some (negsuc 0), none)
      ∷ []

  -- `accessor` is the `result()` that prost generates.
  abbrev ExecutionResultIsChecked : (HarmonicTransaction → ExecutionResult) → Type 0
  ExecutionResultIsChecked accessor =
      All (λ c. (harmonic_result prost (harmonic c.0) ≡ c.1) × (bam_result prost (bam c.0) ≡ c.1))
        cases
      × (accessor (harmonic (some (pos 3))) ≡ success)

-- Two partial functions that return the same values agree.
partial_ext :
    {A B : Type 0} (f g : A → Option B)
    → ((a : A) (b : B) → f a ≡ some b → g a ≡ some b)
    → ((a : A) (b : B) → g a ≡ some b → f a ≡ some b)
    → (a : A) → f a ≡ g a
partial_ext f g to from a = elim (Option-cases (f a)) [
  | inr (b, is_b) ↦ is_b ∙ sym (to a b is_b)
  | inl nothing ↦ elim (Option-cases (g a)) [
    | inr (b, is_b) ↦ absurd (none-ne-some (sym nothing ∙ from a b is_b))
    | inl nothing' ↦ nothing ∙ sym nothing'
  ]
]

module _ (prost : Generated) where
  numbers_agree : (n : ℤ) → prost.try_from n ≡ of_number n
  numbers_agree =
      partial_ext prost.try_from of_number
        (λ n r h. (of_number_iff n r).1 ((prost.try_from_iff n r).0 h))
        (λ n r h. (prost.try_from_iff n r).1 ((of_number_iff n r).0 h))

  names_agree : (s : Text) → prost.from_str_name s ≡ pick proto_name s
  names_agree =
      partial_ext prost.from_str_name (pick proto_name)
        (λ s r h. (of_name_iff s r).1 ((prost.from_str_name_iff s r).0 h))
        (λ s r h. (prost.from_str_name_iff s r).1 ((of_name_iff s r).0 h))

  execution_results_parse_short_and_proto_names : ExecutionResultsParseShortAndProtoNames prost
  unfolding from_str short_name
  execution_results_parse_short_and_proto_names =
      rw (names_agree (codes "EXECUTION_RESULT_SUCCESS"), names_agree (codes "landed"))
        (refl, refl, refl, refl)

  -- The accessor gives the zero value for a number that is no outcome.
  execution_result_is_checked :
      (accessor : HarmonicTransaction → ExecutionResult)
      → ((t : HarmonicTransaction) (n : ℤ)
          → t.result ≡ some n
          → prost.try_from n ≡ none
          → accessor t ≡ success)
      → ExecutionResultIsChecked prost accessor
  unfolding harmonic_result bam_result
  execution_result_is_checked accessor zero_value =
      let read = numbers_agree in
      (
        (
          (refl, refl),
          (
            (read (pos 0), read (pos 0)),
            (
              (read (pos 1), read (pos 1)),
              (
                (read (pos 2), read (pos 2)),
                ((read (pos 3), read (pos 3)), ((read (negsuc 0), read (negsuc 0)), tt)),
              ),
            ),
          ),
        ),
        zero_value _ (pos 3) refl (read (pos 3)),
      )
