-- ===== src/InstructionFilter/Bounds.antt =====
-- `InstructionFilter::validate` accepts exactly the filters within the limits, on every target whose
-- usize holds a u32.
use native.Mathlib.Nat.{mod-eq_of_lt}
use preconfs_client.Prelude.{
  ℕ, ◌+◌, ◌≤◌, ◌≡◌, ◌↔◌, refl, Option, none, some, List, [], ◌∷◌, arith, Text, length, ltb,
  Bool-cases, inl, inr, subst, sym, tests, err-ne-ok, ok, All, >>=-ok,
}
use preconfs_client.Limits.{
  max_memcmps_per_instruction, max_memcmp_bytes, max_instruction_data_bytes,
}
use preconfs_client.InstructionFilter.{
  Memcmp, InstructionFilter, as_usize, check_memcmp, check_memcmps, data_bytes, validate,
}

abbrev pub u32_max : ℕ
u32_max = 4294967295

-- Fields that are u32 values.
abbrev pub SizeIsU32 : Option ℕ → Type 0
SizeIsU32 none = Unit
SizeIsU32 (some size) = size ≤ u32_max

abbrev pub MemcmpIsU32 : Memcmp → Type 0
MemcmpIsU32 m = m.offset ≤ u32_max

abbrev pub IsU32 : {Pubkey : Type 0} → InstructionFilter Pubkey → Type 0
IsU32 i = All MemcmpIsU32 i.memcmp × SizeIsU32 i.data_size

-- The limits, as the constants state them.
abbrev pub SizeInRange : Option ℕ → Type 0
SizeInRange none = Unit
SizeInRange (some size) = size ≤ max_instruction_data_bytes

-- The instruction data that a data size allows, at most.
abbrev pub data_limit : Option ℕ → ℕ
data_limit none = max_instruction_data_bytes
data_limit (some size) = size

abbrev pub MemcmpInRange : ℕ → Memcmp → Type 0
MemcmpInRange limit m =
    (1 ≤ length m.bytes) × (length m.bytes ≤ max_memcmp_bytes) × (m.offset + length m.bytes ≤ limit)

abbrev pub InRange : {Pubkey : Type 0} → InstructionFilter Pubkey → Type 0
InRange i =
    (length i.memcmp ≤ max_memcmps_per_instruction)
    × SizeInRange i.data_size
    × All (MemcmpInRange (data_limit i.data_size)) i.memcmp

module _ (usize_max : ℕ) (wide : u32_max ≤ usize_max) (name : Text) where
  pub check_memcmp_iff :
      (limit : ℕ) (m : Memcmp)
      → limit ≤ max_instruction_data_bytes
      → MemcmpIsU32 m
      → (check_memcmp usize_max limit name m ≡ ok tt) ↔ MemcmpInRange limit m
  unfolding check_memcmp
  check_memcmp_iff limit m l u = (λ h. ground arith, λ h. ground arith)

  pub check_memcmps_iff :
      (limit : ℕ) (ms : List Memcmp)
      → limit ≤ max_instruction_data_bytes
      → All MemcmpIsU32 ms
      → (check_memcmps usize_max limit name ms ≡ ok tt) ↔ All (MemcmpInRange limit) ms
  unfolding check_memcmps
  check_memcmps_iff limit [] l u = (λ h. tt, λ h. refl)
  check_memcmps_iff limit (m ∷ ms) l u =
      let one = check_memcmp_iff limit m l u.0 in
      let rest = check_memcmps_iff limit ms l u.1 in
      (
        (λ h.
            let (_, first, later) = >>=-ok (check_memcmp usize_max limit name m) _ h in
            (one.0 first, rest.0 later)),
        λ h. rw (one.1 h.0) (rest.1 h.1),
      )

  pub as_usize_u32 : (n : ℕ) → n ≤ u32_max → as_usize usize_max n ≡ n
  as_usize_u32 n u = mod-eq_of_lt (omega arith)

  pub data_bytes_iff :
      (size : Option ℕ) {limit : ℕ}
      → SizeIsU32 size
      → (data_bytes usize_max name size ≡ ok limit) ↔ (SizeInRange size × (data_limit size ≡ limit))
  unfolding data_bytes
  data_bytes_iff none u = (λ h. (tt, cc), λ h. cc)
  data_bytes_iff (some size) u =
      (λ h. ground (arith, as_usize_u32 size), λ h. ground (arith, as_usize_u32 size))

  pub data_limit_le :
      (size : Option ℕ) → SizeInRange size → data_limit size ≤ max_instruction_data_bytes
  data_limit_le none h = omega arith
  data_limit_le (some size) h = h

  -- `validate` accepts an instruction filter of u32 fields exactly when it has at most
  -- `max_memcmps_per_instruction` memcmps, its data size, when set, is at most
  -- `max_instruction_data_bytes`, and each memcmp holds 1 to `max_memcmp_bytes` bytes that end inside
  -- the data size, or inside `max_instruction_data_bytes` when none is set. The sum of offset and
  -- length is the exact one: on no target with a usize of 32 bits or more does it wrap.
  pub instruction_validate_iff :
      {Pubkey : Type 0} (i : InstructionFilter Pubkey)
      → IsU32 i
      → (validate usize_max i name ≡ ok tt) ↔ InRange i
  unfolding validate
  instruction_validate_iff i u =
      elim (Bool-cases (ltb max_memcmps_per_instruction (length i.memcmp))) [
        | inl many ↦ (λ h. absurd (err-ne-ok (rw many at h)), λ h. absurd (omega tests))
        | inr few ↦ (
          λ h.
              let (limit, is_limit, rest) =
                >>=-ok (data_bytes usize_max name i.data_size) _ (rw few at h) in
              let (sized, same) = (data_bytes_iff i.data_size u.1).0 is_limit in
              (
                omega tests,
                sized,
                (check_memcmps_iff _ i.memcmp (data_limit_le i.data_size sized) u.0).0
                    (subst (λ l. check_memcmps usize_max l name i.memcmp ≡ ok tt) (sym same) rest),
              ),
          λ h.
              rw (few, (data_bytes_iff i.data_size u.1).1 (h.1, refl))
                ((check_memcmps_iff _ i.memcmp (data_limit_le i.data_size h.1) u.0).1 h.2),
        )
      ]
