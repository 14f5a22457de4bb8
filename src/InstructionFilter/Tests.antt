-- ===== src/InstructionFilter/Tests.antt =====
-- Runs of the theorems on instruction filters.
use preconfs_client.Prelude.{
  ℕ, ◌≡◌, ◌↔◌, ◌≤◌, inl, refl, some, List, [], ◌∷◌, arith, Text, codes, length, ok, err, All,
}
use preconfs_client.Limits.{memcmp_out_of_range, max_instruction_data_bytes}
use preconfs_client.InstructionFilter.{
  InstructionFilter, validate, data_bytes, check_memcmps, check_memcmp,
}
use preconfs_client.InstructionFilter.Bounds.{u32_max, IsU32, InRange, instruction_validate_iff}
use preconfs_client.InstructionFilter.Errors.{Fault, validate-err}
use preconfs_client.InstructionFilter.Matching.{
  Holds, HasSize, Passes, refused_never-Passes, accepted_memcmp-Holds,
}

abbrev usize_max : ℕ
usize_max = 18446744073709551615

wide : u32_max ≤ usize_max
wide = omega arith

abbrev bytes : List ℕ
bytes = 201 ∷ 207 ∷ []

abbrev starts : InstructionFilter ℕ
starts = record {
  program_id = 7;
  memcmp = record { offset = 0; bytes = bytes } ∷ [];
  data_size = some 8;
}

abbrev outside : InstructionFilter ℕ
outside = record {
  program_id = 7;
  memcmp = record { offset = 7; bytes = bytes } ∷ [];
  data_size = some 8;
}

starts-IsU32 : IsU32 starts
starts-IsU32 = ((omega arith, tt), omega arith)

outside-IsU32 : IsU32 outside
outside-IsU32 = ((omega arith, tt), omega arith)

abbrev dbc : Text
dbc = codes "dbc"

starts_accepted : validate usize_max starts dbc ≡ ok tt
unfolding validate data_bytes check_memcmps check_memcmp
starts_accepted = refl

outside_refused : validate usize_max outside dbc ≡ err (memcmp_out_of_range dbc)
unfolding validate data_bytes check_memcmps check_memcmp
outside_refused = refl

instruction_validate_iff_example : (validate usize_max starts dbc ≡ ok tt) ↔ InRange starts
instruction_validate_iff_example = instruction_validate_iff usize_max wide dbc starts starts-IsU32

validate-err_example : Fault dbc outside (memcmp_out_of_range dbc)
validate-err_example = validate-err usize_max wide dbc outside outside-IsU32 outside_refused

refused_never-Passes_example : ¬ Passes bytes outside
refused_never-Passes_example =
    refused_never-Passes usize_max wide outside dbc bytes outside-IsU32 (inl outside_refused)
      (omega arith)

accepted_memcmp-Holds_example :
    All
      (λ m.
        (input : List ℕ) × Holds input m
        × HasSize input (some 8)
        × (length input ≤ max_instruction_data_bytes))
      starts.memcmp
accepted_memcmp-Holds_example =
    accepted_memcmp-Holds usize_max wide starts dbc starts-IsU32 starts_accepted
