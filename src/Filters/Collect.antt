-- ===== src/Filters/Collect.antt =====
-- The loop of `Filters::into_request` over the filters: the map that it fills, or its first error.
use mathlib.Core.Option
use preconfs_client.Prelude.{
  ℕ, ◌≤◌, ◌≡◌, ◌⊎◌, inl, inr, refl, ap, ◌∙◌, Option, none, some, List, [], ◌∷◌, arith, Text, ok,
  err, All,
}
use preconfs_client.HashMap
use preconfs_client.HashMap.{HashMap, get-insert}
use preconfs_client.Limits.{FilterError}
use preconfs_client.InstructionFilter.Bounds.{u32_max}
use preconfs_client.Proto.{TransactionFilter}
use preconfs_client.Filter.{Filter, into_proto as filter_into_proto}
use preconfs_client.Filter.Limits.{HasU32, InLimits}
use preconfs_client.Filter.Verdict.{filter_verdict}
use preconfs_client.Filters.{collect}
use preconfs_client.Filters.Request.{or_else, last_named, FirstFilter}

pub or_else-none : (o : Option TransactionFilter) → or_else o none ≡ o
or_else-none none = refl
or_else-none (some a) = refl

module _ {Pubkey Signature : Type 0} (usize_max : ℕ) (wide : u32_max ≤ usize_max)
    (key : Pubkey → Text) (sig : Signature → Text) where
  -- What the map holds after the loop: the last filter of each name, over what it held before.
  abbrev pub Holds :
      HashMap TransactionFilter
      → List (Text × Filter Pubkey Signature)
      → HashMap TransactionFilter
      → Type 0
  Holds m fs t =
      (k : Text)
      → HashMap.get k t
        ≡ or_else (Option.map (filter_into_proto key sig) (last_named k fs)) (HashMap.get k m)

  -- The loop either fills the map with each filter that was added last under its name, all within
  -- their limits, or fails with the error of the first filter out of its limits.
  pub collect_verdict :
      (m : HashMap TransactionFilter) (fs : List (Text × Filter Pubkey Signature))
      → All (λ f. HasU32 f.1) fs
      → ((t : HashMap TransactionFilter) × (collect usize_max key sig m fs ≡ ok t)
          × Holds m fs t
          × All (λ f. InLimits f.0 f.1) fs)
        ⊎ ((e : FilterError) × (collect usize_max key sig m fs ≡ err e) × FirstFilter fs e)
  unfolding collect last_named
  collect_verdict m [] u = inl (m, refl, (λ k. refl), tt)
  collect_verdict m ((name, f) ∷ fs) u = elim (filter_verdict usize_max wide name f u.0) [
    | inr (e, bad, fault) ↦ inr (
      e,
      rw bad,
      record {
        before = [];
        culprit = (name, f);
        after = fs;
        split = refl;
        fine = tt;
        fault = fault;
      },
    )
    | inl (fine, fits) ↦
        elim (collect_verdict (HashMap.insert name (filter_into_proto key sig f) m) fs u.1) [
          | inr (e, bad, first) ↦ inr (
            e,
            rw fine bad,
            record {
              before = (name, f) ∷ first.before;
              culprit = first.culprit;
              after = first.after;
              split = ap (λ t. (name, f) ∷ t) first.split;
              fine = (fits, first.fine);
              fault = first.fault;
            },
          )
          | inl (t, built, holds, rest) ↦ inl (
            t,
            rw fine built,
            (λ k. holds k ∙ ground (arith, get-insert name k (filter_into_proto key sig f) m)),
            (fits, rest),
          )
        ]
  ]
