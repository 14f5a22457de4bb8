-- ===== src/InstructionFilter/Errors.antt =====
-- What each error of `InstructionFilter::validate` says of the filter.
use preconfs_client.Prelude.{
  ℕ, ◌+◌, ◌≤◌, ◌<◌, ◌≡◌, refl, ap, sym, ◌∙◌, subst, inl, inr, some, none, Option, List, [], ◌∷◌,
  ◌++◌, arith, tests, Text, length, ltb, err, All, All-middle, Bool-cases, Result-cases, ◌>>=◌,
  ok-ne-err, err-injective,
}
use preconfs_client.Limits.{
  FilterError, blamed, too_many_memcmps, memcmp_length, memcmp_out_of_range, data_size_too_large,
  max_memcmps_per_instruction, max_memcmp_bytes, max_instruction_data_bytes,
}
use preconfs_client.InstructionFilter.{
  Memcmp, InstructionFilter, check_memcmp, check_memcmps, data_bytes, validate,
}
use preconfs_client.InstructionFilter.Bounds.{
  u32_max, MemcmpIsU32, SizeIsU32, IsU32, SizeInRange, data_limit, MemcmpInRange, InRange,
  check_memcmp_iff, as_usize_u32, data_limit_le, data_bytes_iff,
}

-- A memcmp that breaks a rule, with the error that names the rule.
pub data MemcmpFault (name : Text) (limit : ℕ) (m : Memcmp) (e : FilterError) : Type 0 where
  no_bytes : length m.bytes ≡ 0 → e ≡ memcmp_length name → MemcmpFault name limit m e
  too_long : max_memcmp_bytes < length m.bytes → e ≡ memcmp_length name → MemcmpFault name limit m e
  out_of_range :
      1 ≤ length m.bytes
      → length m.bytes ≤ max_memcmp_bytes
      → limit < m.offset + length m.bytes
      → e ≡ memcmp_out_of_range name
      → MemcmpFault name limit m e

-- The first memcmp that breaks a rule.
pub record FirstFault (name : Text) (limit : ℕ) (ms : List Memcmp) (e : FilterError) : Type 0 where
  pub before : List Memcmp
  pub culprit : Memcmp
  pub after : List Memcmp
  pub split : ms ≡ before ++ culprit ∷ after
  pub fine : All (MemcmpInRange limit) before
  pub fault : MemcmpFault name limit culprit e

-- The rule of an instruction filter that is broken, in the order of the tests.
pub data Fault {Pubkey : Type 0} (name : Text) (i : InstructionFilter Pubkey) (e : FilterError)
    : Type 0 where
  many : max_memcmps_per_instruction < length i.memcmp → e ≡ too_many_memcmps name → Fault name i e
  large :
      (size : ℕ)
      → length i.memcmp ≤ max_memcmps_per_instruction
      → i.data_size ≡ some size
      → max_instruction_data_bytes < size
      → e ≡ data_size_too_large name
      → Fault name i e
  memcmp :
      length i.memcmp ≤ max_memcmps_per_instruction
      → SizeInRange i.data_size
      → FirstFault name (data_limit i.data_size) i.memcmp e
      → Fault name i e

pub Fault-not-InRange :
    {Pubkey : Type 0} {i : InstructionFilter Pubkey} {name : Text} {e : FilterError}
    → Fault name i e
    → ¬ InRange i
Fault-not-InRange (many over is_e) r = omega arith
Fault-not-InRange (large size few is_size over is_e) r =
    let sized : SizeInRange (some size) = subst SizeInRange is_size r.1 in omega arith
Fault-not-InRange {i} {name} {e} (memcmp few fits first) r = culprit first.fault (
    All-middle (MemcmpInRange (data_limit i.data_size)) first.before _ _
      (subst (All (MemcmpInRange (data_limit i.data_size))) first.split r.2))
  where
    culprit :
        {m : Memcmp}
        → MemcmpFault name (data_limit i.data_size) m e
        → ¬ MemcmpInRange (data_limit i.data_size) m
    culprit (no_bytes none_there is_e) h = omega arith
    culprit (too_long over is_e) h = omega arith
    culprit (out_of_range some_there fits over is_e) h = omega arith

pub Fault-blamed :
    {Pubkey : Type 0} {i : InstructionFilter Pubkey} {name : Text} {e : FilterError}
    → Fault name i e
    → blamed e ≡ some name
Fault-blamed (many over is_e) = ap blamed is_e
Fault-blamed (large size few is_size over is_e) = ap blamed is_e
Fault-blamed {name} {e} (memcmp few fits first) = culprit first.fault
  where
    culprit : {limit : ℕ} {m : Memcmp} → MemcmpFault name limit m e → blamed e ≡ some name
    culprit (no_bytes none_there is_e) = ap blamed is_e
    culprit (too_long over is_e) = ap blamed is_e
    culprit (out_of_range some_there fits over is_e) = ap blamed is_e

module _ (usize_max : ℕ) (wide : u32_max ≤ usize_max) (name : Text) where
  check_memcmp-err :
      (limit : ℕ) (m : Memcmp) {e : FilterError}
      → limit ≤ max_instruction_data_bytes
      → MemcmpIsU32 m
      → check_memcmp usize_max limit name m ≡ err e
      → MemcmpFault name limit m e
  unfolding check_memcmp
  check_memcmp-err limit m l u h = grind (arith, no_bytes, too_long, out_of_range)

  check_memcmps-err :
      (limit : ℕ) (ms : List Memcmp) {e : FilterError}
      → limit ≤ max_instruction_data_bytes
      → All MemcmpIsU32 ms
      → check_memcmps usize_max limit name ms ≡ err e
      → FirstFault name limit ms e
  unfolding check_memcmps
  check_memcmps-err limit [] l u h = absurd (ok-ne-err h)
  check_memcmps-err limit (m ∷ ms) {e} l u h =
      elim (Result-cases (check_memcmp usize_max limit name m)) [
        | inl (_, fine) ↦
            let rest = check_memcmps-err limit ms l u.1 (rw fine at h) in
            record {
              before = m ∷ rest.before;
              culprit = rest.culprit;
              after = rest.after;
              split = ap (λ t. m ∷ t) rest.split;
              fine = ((check_memcmp_iff usize_max wide name limit m l u.0).0 fine, rest.fine);
              fault = rest.fault;
            }
        | inr (x, bad) ↦ record {
          before = [];
          culprit = m;
          after = ms;
          split = refl;
          fine = tt;
          fault =
              subst (MemcmpFault name limit m) (err-injective (rw bad at h))
                (check_memcmp-err limit m l u.0 bad);
        }
      ]

  data_bytes-err :
      (size : Option ℕ) {e : FilterError}
      → SizeIsU32 size
      → data_bytes usize_max name size ≡ err e
      → (n : ℕ) × (size ≡ some n)
        × (max_instruction_data_bytes < n)
        × (e ≡ data_size_too_large name)
  unfolding data_bytes
  data_bytes-err none u h = absurd (ok-ne-err h)
  data_bytes-err (some n) u h = (
    n,
    refl,
    ground (arith, as_usize_u32 usize_max wide name n),
    ground (arith, as_usize_u32 usize_max wide name n),
  )

  sized :
      {Pubkey : Type 0} (i : InstructionFilter Pubkey) {e : FilterError}
      → IsU32 i
      → length i.memcmp ≤ max_memcmps_per_instruction
      → (data_bytes usize_max name i.data_size >>= λ size.
          check_memcmps usize_max size name i.memcmp)
        ≡ err e
      → Fault name i e
  sized i {e} u few h = elim (Result-cases (data_bytes usize_max name i.data_size)) [
    | inl (size, is_size) ↦
        let (fits, same) = (data_bytes_iff usize_max wide name i.data_size u.1).0 is_size in
        let rest : check_memcmps usize_max size name i.memcmp ≡ err e = rw is_size at h in
        memcmp few fits (
          check_memcmps-err _ i.memcmp (data_limit_le usize_max wide name i.data_size fits) u.0
            (subst (λ l. check_memcmps usize_max l name i.memcmp ≡ err e) (sym same) rest))
    | inr (x, bad) ↦
        let (n, is_n, over, is_x) = data_bytes-err i.data_size u.1 bad in
        large n few is_n over (sym (err-injective {A = Unit {0}} (rw bad at h)) ∙ is_x)
  ]

  -- An error of `validate`, on an instruction filter of u32 fields, tells the rule that is broken: it is that of the first test that fails, and
  -- an error about a memcmp is that of the first memcmp that is out of its limits.
  pub validate-err :
      {Pubkey : Type 0} (i : InstructionFilter Pubkey) {e : FilterError}
      → IsU32 i
      → validate usize_max i name ≡ err e
      → Fault name i e
  unfolding validate
  validate-err i {e} u h = elim (Bool-cases (ltb max_memcmps_per_instruction (length i.memcmp))) [
    | inl t ↦ many (omega tests) (err-injective (sym (rw t at h)))
    | inr f ↦ sized i u (omega tests) (rw f at h)
  ]
