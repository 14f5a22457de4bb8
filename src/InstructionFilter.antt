-- ===== src/InstructionFilter.antt =====
-- preconfs-client/src/filter.rs: `InstructionFilter` and `Memcmp`. Public keys are values of any
-- type; a u32 is a number, and `usize_max` is the largest usize of the target.
mod Tests
pub mod Bounds
pub mod Errors
pub mod Matching
use preconfs_client.Prelude.{
  ℕ, suc, ◌+◌, ◌%◌, ◌||◌, Bool, true, Option, none, some, List, [], ◌∷◌, ◌++◌, map, Text, ltb,
  length, is_empty, Result, ok, err, ◌>>=◌, ◌>>◌, if◌then◌else◌,
}
use preconfs_client.Limits.{
  FilterError, too_many_memcmps, memcmp_length, memcmp_out_of_range, data_size_too_large,
  max_memcmps_per_instruction, max_memcmp_bytes, max_instruction_data_bytes,
}
use preconfs_client.Proto

pub record Memcmp : Type 0 where
  pub offset : ℕ  -- u32
  pub bytes : List ℕ

pub record InstructionFilter (Pubkey : Type 0) : Type 0 where
  pub program_id : Pubkey
  pub memcmp : List Memcmp
  pub data_size : Option ℕ  -- u32

module _ {Pubkey : Type 0} where
  unfoldable pub new : Pubkey → InstructionFilter Pubkey
  new program_id = record { program_id = program_id; memcmp = []; data_size = none }

  unfoldable pub memcmp : InstructionFilter Pubkey → ℕ → List ℕ → InstructionFilter Pubkey
  memcmp self offset bytes = record self {
    memcmp = self.memcmp ++ record { offset = offset; bytes = bytes } ∷ [];
  }

  unfoldable pub data_size : InstructionFilter Pubkey → ℕ → InstructionFilter Pubkey
  data_size self size = record self { data_size = some size }

-- usize::try_from of a u32
abbrev pub usize_try_from : ℕ → ℕ → Option ℕ
usize_try_from usize_max n = if ltb usize_max n then none else some n

-- usize::checked_add
abbrev pub checked_add : ℕ → ℕ → ℕ → Option ℕ
checked_add usize_max a b = if ltb usize_max (a + b) then none else some (a + b)

-- `size as usize`
abbrev pub as_usize : ℕ → ℕ → ℕ
as_usize usize_max n = n % suc usize_max

-- `end.is_none_or(|end| end > data_bytes)`
abbrev pub is_past : ℕ → Option ℕ → Bool
is_past data_bytes none = true
is_past data_bytes (some end) = ltb data_bytes end

-- `Option::and_then` with `checked_add`
abbrev pub end_of : ℕ → ℕ → Option ℕ → Option ℕ
end_of usize_max len none = none
end_of usize_max len (some offset) = checked_add usize_max offset len

-- one round of the loop over the memcmps
unfoldable pub check_memcmp : ℕ → ℕ → Text → Memcmp → Result FilterError (Unit {0})
check_memcmp usize_max data_bytes name m =
    if is_empty m.bytes || ltb max_memcmp_bytes (length m.bytes)
    then err (memcmp_length name)
    else if is_past data_bytes
        (end_of usize_max (length m.bytes) (usize_try_from usize_max m.offset))
    then err (memcmp_out_of_range name)
    else ok tt

unfoldable pub check_memcmps : ℕ → ℕ → Text → List Memcmp → Result FilterError (Unit {0})
check_memcmps usize_max data_bytes name [] = ok tt
check_memcmps usize_max data_bytes name (m ∷ ms) =
    check_memcmp usize_max data_bytes name m >> check_memcmps usize_max data_bytes name ms

-- the match on `self.data_size`
unfoldable pub data_bytes : ℕ → Text → Option ℕ → Result FilterError ℕ
data_bytes usize_max name none = ok max_instruction_data_bytes
data_bytes usize_max name (some size) =
    if ltb max_instruction_data_bytes (as_usize usize_max size)
    then err (data_size_too_large name)
    else ok (as_usize usize_max size)

module _ {Pubkey : Type 0} where
  unfoldable pub validate : ℕ → InstructionFilter Pubkey → Text → Result FilterError (Unit {0})
  validate usize_max self name =
      if ltb max_memcmps_per_instruction (length self.memcmp)
      then err (too_many_memcmps name)
      else do
        size ← data_bytes usize_max name self.data_size
        check_memcmps usize_max size name self.memcmp

  -- `to_string` is `Pubkey::to_string`.
  unfoldable pub into_proto : (Pubkey → Text) → InstructionFilter Pubkey → Proto.InstructionFilter
  into_proto to_string self = record {
    program_id = to_string self.program_id;
    memcmp = map (λ (m : Memcmp). record { offset = m.offset; bytes = m.bytes }) self.memcmp;
    data_size = self.data_size;
  }
