-- ===== src/Outcome/Names.antt =====
-- Which outcomes are known, and which names an outcome is read from.
use preconfs_client.Prelude.{
  ℤ, true, ◌≡◌, ◌↔◌, ◌⊎◌, inl, inr, refl, sym, ap, ◌∙◌, Option, if◌then◌else◌, none, some, Text,
  codes, text_eq, text_eq_iff, to_ascii_lowercase, ok, ok_or, ok_or-ok, Option-cases, Bool-cases,
  if-true, if-false, some-injective, none-ne-some,
}
use preconfs_client.Proto.{
  ExecutionResult, success, execution_failure, fees_only, result_discriminant, HarmonicTransaction,
  BamTransaction,
}
use preconfs_client.Outcome.{
  Generated, proto_name, and_then, or_else, short_name, harmonic_result, bam_result, from_str,
  unknown_execution_result,
}

-- The short names.
abbrev pub lower_name : ExecutionResult → Text
lower_name success = codes "success"
lower_name execution_failure = codes "execution_failure"
lower_name fees_only = codes "fees_only"

-- The outcome of a name, in a spelling.
abbrev pub pick : (ExecutionResult → Text) → Text → Option ExecutionResult
pick spelling s =
    if text_eq s (spelling success)
    then some success
    else if text_eq s (spelling execution_failure)
    then some execution_failure
    else if text_eq s (spelling fees_only)
    then some fees_only
    else none

pub pick-ok :
    (spelling : ExecutionResult → Text) (s : Text) (r : ExecutionResult)
    → pick spelling s ≡ some r
    → s ≡ spelling r
pick-ok spelling s r h = elim (Bool-cases (text_eq s (spelling success))) [
  | inl t ↦ named success t (sym (if-true _ _ _ t) ∙ h)
  | inr f ↦ elim (Bool-cases (text_eq s (spelling execution_failure))) [
    | inl t ↦ named execution_failure t (sym (if-false _ _ _ f ∙ if-true _ _ _ t) ∙ h)
    | inr g ↦ elim (Bool-cases (text_eq s (spelling fees_only))) [
      | inl t ↦ named fees_only t (sym (if-false _ _ _ f ∙ if-false _ _ _ g ∙ if-true _ _ _ t) ∙ h)
      | inr k ↦
          absurd (none-ne-some (sym (if-false _ _ _ f ∙ if-false _ _ _ g ∙ if-false _ _ _ k) ∙ h))
    ]
  ]
]
  where
    named : (q : ExecutionResult) → text_eq s (spelling q) ≡ true → some q ≡ some r → s ≡ spelling r
    named q t e = (text_eq_iff _ _).0 t ∙ ap spelling (some-injective e)

short_name-ok : (s : Text) (r : ExecutionResult) → short_name s ≡ some r → s ≡ lower_name r
unfolding short_name
short_name-ok = pick-ok lower_name

short_name-lower_name : (r : ExecutionResult) → short_name (lower_name r) ≡ some r
unfolding short_name
short_name-lower_name success = refl
short_name-lower_name execution_failure = refl
short_name-lower_name fees_only = refl

short_name-proto_name :
    (r : ExecutionResult) → short_name (to_ascii_lowercase (proto_name r)) ≡ none
unfolding short_name
short_name-proto_name success = refl
short_name-proto_name execution_failure = refl
short_name-proto_name fees_only = refl

module _ (prost : Generated) where
  -- The outcome of a Harmonic and of a BAM transaction is known exactly when its field is set to the
  -- number of an outcome: an unset field or another number is never read as an outcome.
  pub execution_result_iff :
      (h : HarmonicTransaction) (b : BamTransaction) (r : ExecutionResult)
      → ((harmonic_result prost h ≡ some r) ↔ (h.result ≡ some (result_discriminant r)))
        × ((bam_result prost b ≡ some r) ↔ (b.result ≡ some (result_discriminant r)))
  unfolding harmonic_result bam_result
  execution_result_iff h b r = (checked h.result, checked b.result)
    where
      checked :
          (o : Option ℤ) → (and_then o prost.try_from ≡ some r) ↔ (o ≡ some (result_discriminant r))
      checked none = ((λ e. absurd (none-ne-some e)), (λ e. absurd (none-ne-some e)))
      checked (some n) = (
        (λ e. ap some ((prost.try_from_iff n r).0 e)),
        (λ e. (prost.try_from_iff n r).1 (some-injective e)),
      )

  -- `from_str` once the short name is known.
  reads :
      (s : Text) {o : Option ExecutionResult}
      → short_name (to_ascii_lowercase s) ≡ o
      → from_str prost s ≡ ok_or (or_else o (prost.from_str_name s)) (unknown_execution_result s)
  unfolding from_str
  reads s e = ap (λ x. ok_or (or_else x (prost.from_str_name s)) (unknown_execution_result s)) e

  -- `from_str` reads an outcome from its short name in any case and from its name in the proto, and
  -- from nothing else.
  pub result_from_str_iff :
      (s : Text) (r : ExecutionResult)
      → (from_str prost s ≡ ok r) ↔ ((to_ascii_lowercase s ≡ lower_name r) ⊎ (s ≡ proto_name r))
  result_from_str_iff s r = (
    λ h. elim (Option-cases (short_name (to_ascii_lowercase s))) [
      | inr (q, short) ↦ inl (
          short_name-ok _ r
            (short ∙ ok_or-ok (some q) (unknown_execution_result s) (sym (reads s short) ∙ h)))
      | inl long ↦ inr (
          (prost.from_str_name_iff s r).0
            (ok_or-ok _ (unknown_execution_result s) (sym (reads s long) ∙ h)))
    ],
    λ h. elim h [
      | inl short ↦ reads s (ap short_name short ∙ short_name-lower_name r)
      | inr long ↦
          reads s (ap (λ x. short_name (to_ascii_lowercase x)) long ∙ short_name-proto_name r)
          ∙ ap (λ o. ok_or o (unknown_execution_result s)) ((prost.from_str_name_iff s r).1 long)
    ],
  )
