-- ===== src/Filter/Wire.antt =====
-- The filter message asks for the transactions that the filter asks for.
use mathlib.Core.Option
use mathlib.Core.List.Memᴰ
use mathlib.Core.List.{Memᴰ}
use preconfs_client.Prelude.{
  ℕ, ◌≡◌, ◌↔◌, refl, sym, ap, subst, Option, none, some, List, [], ◌∷◌, map, Text, All, ℤ, arith,
}
use preconfs_client.Proto.{ExecutionResult, result_discriminant}
use preconfs_client.InstructionFilter.{InstructionFilter, into_proto as instruction_into_proto}
use preconfs_client.Filter.{Filter, into_proto}
use preconfs_client.Filter.Meaning.{
  Candidate, listed, Common, AnyOf, AllOf, NoneOf, AnyCall, Invokes, Matches, MessageHolds,
  MessageInvokes, MessageMatches,
}

-- A text form that tells any two values apart.
abbrev pub Injective : {A B : Type 0} → (A → B) → Type 0
Injective {A} f = (x y : A) → f x ≡ f y → x ≡ y

result_discriminant-Injective : Injective result_discriminant
result_discriminant-Injective x y h = ground arith

module _ {A B : Type 0} (f : A → B) (inj : Injective f) where
  Memᴰ-unmap : {a : A} (l : List A) → Memᴰ (f a) (map f l) → Memᴰ a l
  Memᴰ-unmap {a} l m =
      let (x, there, same) = Memᴰ.of_map f l m in Memᴰ.cast (sym (inj x a same)) there

  Common-map : (ws xs : List A) → Common ws xs ↔ Common (map f ws) (map f xs)
  Common-map ws xs = (
    λ c. (f c.0, Memᴰ.map f c.1, Memᴰ.map f c.2),
    λ c.
        let (a, wanted, same) = Memᴰ.of_map f ws c.1 in
        (a, wanted, Memᴰ-unmap xs (Memᴰ.cast same c.2)),
  )

  AnyOf-map : (ws xs : List A) → AnyOf ws xs ↔ AnyOf (map f ws) (map f xs)
  AnyOf-map [] xs = (λ u. u, λ u. u)
  AnyOf-map (w ∷ ws) xs = Common-map (w ∷ ws) xs

  NoneOf-map : (ws xs : List A) → NoneOf ws xs ↔ NoneOf (map f ws) (map f xs)
  NoneOf-map ws xs = (λ n c. n ((Common-map ws xs).1 c), λ n c. n ((Common-map ws xs).0 c))

  AllOf-map : (ws xs : List A) → AllOf ws xs ↔ AllOf (map f ws) (map f xs)
  AllOf-map ws xs = (
    λ h b m.
        let (a, wanted, same) = Memᴰ.of_map f ws m in
        Memᴰ.cast (sym same) (Memᴰ.map f (h a wanted)),
    λ h a m. Memᴰ-unmap xs (h (f a) (Memᴰ.map f m)),
  )

listed-map : {A B : Type 0} (f : A → B) (o : Option A) → listed (Option.map f o) ≡ map f (listed o)
listed-map f none = refl
listed-map f (some a) = refl

module _ {A B : Type 0} (P : B → Type 0) (f : A → B) where
  All-of-map : (l : List A) → All (λ a. P (f a)) l → All P (map f l)
  All-of-map [] h = tt
  All-of-map (a ∷ l) h = (h.0, All-of-map l h.1)

  All-map-of : (l : List A) → All P (map f l) → All (λ a. P (f a)) l
  All-map-of [] h = tt
  All-map-of (a ∷ l) h = (h.0, All-map-of l h.1)

module _ {I J C D : Type 0} (asks : C → I → Type 0) (requests : D → J → Type 0) (f : I → J)
    (g : C → D) (same : (c : C) (i : I) → asks c i ↔ requests (g c) (f i)) where
  AnyCall-map :
      (is : List I) (cs : List C) → AnyCall asks is cs ↔ AnyCall requests (map f is) (map g cs)
  AnyCall-map [] cs = (λ u. u, λ u. u)
  AnyCall-map (i ∷ is) cs = (
    λ h.
        let (j, at, c, there, ask) = h in
        (f j, Memᴰ.map f at, g c, Memᴰ.map g there, (same c j).0 ask),
    λ h.
        let (j, at, d, there, ask) = h in
        let (i', is_i, j_is) = Memᴰ.of_map f (i ∷ is) at in
        let (c, is_c, d_is) = Memᴰ.of_map g cs there in
        (
          i',
          is_i,
          c,
          is_c,
          (same c i').1
              (subst (λ x. requests x (f i')) (sym d_is) (subst (requests d) (sym j_is) ask)),
        ),
  )

module _ {Pubkey Signature : Type 0} (key : Pubkey → Text) (sig : Signature → Text) where
  -- A transaction with its keys and its signature as texts, and its outcome as the number of it.
  abbrev pub on_wire : Candidate Pubkey Signature ExecutionResult → Candidate Text Text ℤ
  on_wire t = record {
    keys = map key t.keys;
    signers = map key t.signers;
    signature = sig t.signature;
    outcome = Option.map result_discriminant t.outcome;
    instructions = map (λ call. (key call.0, call.1)) t.instructions;
  }

module _ {Pubkey Signature : Type 0} (key : Pubkey → Text) (sig : Signature → Text)
    (keys_differ : Injective key) (signatures_differ : Injective sig) where
  Invokes-message :
      (call : Pubkey × List ℕ) (i : InstructionFilter Pubkey)
      → Invokes call i ↔ MessageInvokes (key call.0, call.1) (instruction_into_proto key i)
  unfolding instruction_into_proto
  Invokes-message call i = (
    λ h. (ap key h.0, All-of-map (MessageHolds call.1) _ i.memcmp h.1.0, h.1.1),
    λ h. (keys_differ _ _ h.0, (All-map-of (MessageHolds call.1) _ i.memcmp h.1, h.2)),
  )

  -- The filter message that `into_proto` makes matches a transaction, as the schema says it, exactly when
  -- the filter matches the transaction, as the client says it; a condition on keys or signatures is
  -- the same on their texts, which tell any two apart.
  pub into_proto-Matches :
      (f : Filter Pubkey Signature) (t : Candidate Pubkey Signature ExecutionResult)
      → Matches f t ↔ MessageMatches (into_proto key sig f) (on_wire key sig t)
  unfolding into_proto
  into_proto-Matches f t =
      let on_keys = AnyOf-map key keys_differ in
      let no_keys = NoneOf-map key keys_differ in
      let all_keys = AllOf-map key keys_differ in
      let on_signatures = AnyOf-map sig signatures_differ f.signatures (t.signature ∷ []) in
      let outcomes =
        AnyOf-map result_discriminant result_discriminant-Injective f.execution_results
          (listed t.outcome) in
      let calls =
        AnyCall-map Invokes MessageInvokes (instruction_into_proto key) (λ c. (key c.0, c.1))
          Invokes-message f.instructions t.instructions in
      let is_listed = listed-map result_discriminant t.outcome in
      (
        λ (h : Matches f t). record {
          include = (on_keys f.account_include t.keys).0 h.include;
          exclude = (no_keys f.account_exclude t.keys).0 h.exclude;
          required = (all_keys f.account_required t.keys).0 h.required;
          signature = on_signatures.0 h.signature;
          outcome =
              subst (AnyOf (map result_discriminant f.execution_results)) (sym is_listed)
                (outcomes.0 h.outcome);
          signed = (on_keys f.signer_include t.signers).0 h.signed;
          not_signed = (no_keys f.signer_exclude t.signers).0 h.not_signed;
          invokes = calls.0 h.invokes;
        },
        λ (h : MessageMatches (into_proto key sig f) (on_wire key sig t)). record {
          include = (on_keys f.account_include t.keys).1 h.include;
          exclude = (no_keys f.account_exclude t.keys).1 h.exclude;
          required = (all_keys f.account_required t.keys).1 h.required;
          signed = (on_keys f.signer_include t.signers).1 h.signed;
          not_signed = (no_keys f.signer_exclude t.signers).1 h.not_signed;
          invokes = calls.1 h.invokes;
          signature = on_signatures.1 h.signature;
          outcome =
              outcomes.1
                (subst (AnyOf (map result_discriminant f.execution_results)) is_listed h.outcome);
        },
      )
