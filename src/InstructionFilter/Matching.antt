-- ===== src/InstructionFilter/Matching.antt =====
-- What a filter asks of the data of an instruction, after the comments on `InstructionFilter` and
-- `Memcmp` (filter.rs and preconfs.proto), and what `validate` refuses with that meaning.
use preconfs_client.Prelude.{
  ℕ, ◌+◌, ◌-◌, ◌≤◌, ◌≡◌, refl, ap, subst, ◌∙◌, none, some, inl, inr, All-middle, All-map,
  drop-replicate, take-append, Option, List, ◌++◌, arith, Text, length, take, drop, replicate,
  length-append, length-replicate, ◌⊎◌, ok, err, All,
}
use preconfs_client.Limits.{
  FilterError, memcmp_out_of_range, data_size_too_large, max_instruction_data_bytes,
}
use preconfs_client.InstructionFilter.{Memcmp, InstructionFilter, validate}
use preconfs_client.InstructionFilter.Bounds.{
  u32_max, IsU32, MemcmpInRange, data_limit, data_limit_le, instruction_validate_iff,
}
use preconfs_client.InstructionFilter.Errors.{
  Fault, many, large, memcmp, validate-err, no_bytes, too_long, out_of_range, MemcmpFault,
}

-- The data holds the bytes at the offset; data shorter than offset plus bytes does not match.
abbrev pub Holds : List ℕ → Memcmp → Type 0
Holds input m =
    (m.offset + length m.bytes ≤ length input)
    × (take (length m.bytes) (drop m.offset input) ≡ m.bytes)

abbrev pub HasSize : List ℕ → Option ℕ → Type 0
HasSize input none = Unit
HasSize input (some size) = length input ≡ size

-- The data passes every memcmp and the data size, when set.
abbrev pub Passes : {Pubkey : Type 0} → List ℕ → InstructionFilter Pubkey → Type 0
Passes input i = All (Holds input) i.memcmp × HasSize input i.data_size

length_le_limit :
    (size : Option ℕ) (input : List ℕ)
    → HasSize input size
    → length input ≤ max_instruction_data_bytes
    → length input ≤ data_limit size
length_le_limit none input h short = short
length_le_limit (some size) input h short = omega arith

abbrev IsUnmatchable : Text → FilterError → Type 0
IsUnmatchable name e = (e ≡ memcmp_out_of_range name) ⊎ (e ≡ data_size_too_large name)

fault_blocks :
    {Pubkey : Type 0} {i : InstructionFilter Pubkey} {name : Text} {e : FilterError}
    (input : List ℕ)
    → Fault name i e
    → IsUnmatchable name e
    → length input ≤ max_instruction_data_bytes
    → ¬ Passes input i
fault_blocks input (many over is_e) r short p = ground arith
fault_blocks {i} input (large size few is_size over is_e) r short p =
    let sized : HasSize input (some size) = subst (HasSize input) is_size p.1 in omega arith
fault_blocks {i} {name} {e} input (memcmp few fits first) r short p =
    memcmp_blocks first.fault
      (All-middle (Holds input) first.before _ _ (subst (All (Holds input)) first.split p.0))
  where
    memcmp_blocks : {m : Memcmp} → MemcmpFault name (data_limit i.data_size) m e → ¬ Holds input m
    memcmp_blocks (no_bytes _ is_e) h = ground arith
    memcmp_blocks (too_long _ is_e) h = ground arith
    memcmp_blocks (out_of_range _ _ over is_e) h =
        omega (arith, length_le_limit i.data_size input p.1 short)

-- Data of a given length that passes one memcmp: zeros round its bytes.
padded : ℕ → Memcmp → List ℕ
padded limit m =
    replicate m.offset 0 ++ (m.bytes ++ replicate (limit - (m.offset + length m.bytes)) 0)

length-padded :
    (limit : ℕ) (m : Memcmp) → m.offset + length m.bytes ≤ limit → length (padded limit m) ≡ limit
unfolding padded
length-padded limit m h = omega (
  arith,
  length-append {A = ℕ} (replicate m.offset 0)
      (m.bytes ++ replicate (limit - (m.offset + length m.bytes)) 0),
  length-append m.bytes (replicate (limit - (m.offset + length m.bytes)) 0),
  length-replicate {A = ℕ} m.offset 0,
  length-replicate {A = ℕ} (limit - (m.offset + length m.bytes)) 0,
)

padded-Holds :
    (limit : ℕ) (m : Memcmp) → m.offset + length m.bytes ≤ limit → Holds (padded limit m) m
padded-Holds limit m h = (
  omega (arith, length-padded limit m h),
  unfold padded in ap (take (length m.bytes)) (drop-replicate m.offset 0 _) ∙ take-append m.bytes _,
)

HasSize-limit :
    (size : Option ℕ) (input : List ℕ) → length input ≡ data_limit size → HasSize input size
HasSize-limit none input h = tt
HasSize-limit (some size) input h = h

module _ (usize_max : ℕ) (wide : u32_max ≤ usize_max) where
  -- A filter that is refused for a memcmp out of range, or for its data size, passes no instruction
  -- data of a transaction, which is at most `max_instruction_data_bytes` long.
  pub refused_never-Passes :
      {Pubkey : Type 0} (i : InstructionFilter Pubkey) (name : Text) (input : List ℕ)
      → IsU32 i
      → (validate usize_max i name ≡ err (memcmp_out_of_range name))
        ⊎ (validate usize_max i name ≡ err (data_size_too_large name))
      → length input ≤ max_instruction_data_bytes
      → ¬ Passes input i
  refused_never-Passes i name input u (inl e) short =
      fault_blocks input (validate-err usize_max wide name i u e) (inl refl) short
  refused_never-Passes i name input u (inr e) short =
      fault_blocks input (validate-err usize_max wide name i u e) (inr refl) short

  -- Each memcmp of an accepted filter is passed by some instruction data of an allowed size.
  pub accepted_memcmp-Holds :
      {Pubkey : Type 0} (i : InstructionFilter Pubkey) (name : Text)
      → IsU32 i
      → validate usize_max i name ≡ ok tt
      → All
          (λ m.
            (input : List ℕ) × Holds input m
            × HasSize input i.data_size
            × (length input ≤ max_instruction_data_bytes))
          i.memcmp
  accepted_memcmp-Holds i name u accepted =
      let range = (instruction_validate_iff usize_max wide name i u).0 accepted in
      All-map (MemcmpInRange (data_limit i.data_size)) _
        (λ m fits.
          let size = length-padded (data_limit i.data_size) m fits.2 in
          (
            padded (data_limit i.data_size) m,
            padded-Holds _ m fits.2,
            HasSize-limit i.data_size _ size,
            omega (arith, size, data_limit_le usize_max wide name i.data_size range.1),
          ))
        i.memcmp range.2
