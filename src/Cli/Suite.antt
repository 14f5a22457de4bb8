-- ===== src/Cli/Suite.antt =====
-- examples/rust/src/main.rs: the unit test of the example, as the product of what it asserts. It passes
-- for every reader of public keys that reads the key of the test and refuses the two texts that are none.
use preconfs_client.Prelude.{
  ◌≡◌, refl, Option, none, some, true, List, [], ◌∷◌, ◌++◌, Text, codes, All, Found, Unwrapped,
  is_err, map-eq-All, All-map, drop, Bool, ap, ◌∙◌, ok_or, err, ◌>>=◌, Unwrapped-ok, Found-some,
}
use preconfs_client.InstructionFilter.{new, memcmp}
use preconfs_client.Cli.{
  bad_program, to_digit, digits, from_str_radix, decode_pair, decode_pairs, decode_hex, split,
  with_parts, read_parts, parse_instruction,
}

-- DBC
abbrev dbc : Text
dbc = codes "dbcij3LWUppWqq96dh6gJWwBifmcGfLSB5D4DuSMaqN"

-- the texts of the loop: behind the key of the test, and all of them
abbrev bad_parts : List Text
bad_parts =
    (dbc ++ codes ":")
    ∷ (dbc ++ codes ":0")
    ∷ (dbc ++ codes ":x:00")
    ∷ (dbc ++ codes ":-1:00")
    ∷ (dbc ++ codes ":0:0")
    ∷ (dbc ++ codes ":0:zz")
    ∷ (dbc ++ (codes ":0:" ++ (195 ∷ 169 ∷ 195 ∷ 169 ∷ [])))
    ∷ (dbc ++ codes ":0:00:00")
    ∷ []

abbrev bad_specs : List Text
bad_specs = [] ∷ codes "not-a-key" ∷ bad_parts

module _ {Pubkey : Type 0} (parse_key : Text → Option Pubkey) where
  abbrev InstructionSpecs : Type 0
  InstructionSpecs = Found (parse_key dbc) (λ program.
      Unwrapped (parse_instruction parse_key dbc) (λ filter. filter ≡ new program)
      × Unwrapped (parse_instruction parse_key (dbc ++ codes ":0:c9cff3724b6f2fbd")) (λ filter.
        filter ≡ memcmp (new program) 0 (201 ∷ 207 ∷ 243 ∷ 114 ∷ 75 ∷ 111 ∷ 47 ∷ 189 ∷ []))
      × Unwrapped (parse_instruction parse_key (dbc ++ codes ":8:0A"))
          (λ filter. filter ≡ memcmp (new program) 8 (10 ∷ []))
      × All (λ bad. is_err (parse_instruction parse_key bad) ≡ true) bad_specs)

  -- A text whose first part is a key, and one whose first part is none.
  keyed :
      {program : Pubkey}
      → parse_key dbc ≡ some program
      → (spec : Text) (parts : List Text) → split spec ≡ dbc ∷ parts
      → parse_instruction parse_key spec ≡ with_parts parse_key spec (new program) parts
  unfolding parse_instruction read_parts
  keyed {program} is_key spec parts h =
      ap (read_parts parse_key spec) h
      ∙ ap (λ o. ok_or o (bad_program spec) >>= λ p. with_parts parse_key spec (new p) parts) is_key

  unkeyed :
      {first spec : Text}
      → parse_key first ≡ none
      → (parts : List Text) → split spec ≡ first ∷ parts
      → parse_instruction parse_key spec ≡ err (bad_program spec)
  unfolding parse_instruction read_parts
  unkeyed {first} {spec} no_key parts h =
      ap (read_parts parse_key spec) h
      ∙ ap (λ o. ok_or o (bad_program spec) >>= λ p. with_parts parse_key spec (new p) parts) no_key

  -- What the refusals rest on: the first part of a text is the key, and the others are refused.
  abbrev seen : Pubkey → Text → List Text × Bool
  seen program spec =
      (split spec, is_err (with_parts parse_key spec (new program) (drop 1 (split spec))))

  abbrev wanted : Text → List Text × Bool
  wanted spec = (dbc ∷ drop 1 (split spec), true)

  refused :
      {program : Pubkey}
      → parse_key dbc ≡ some program
      → (spec : Text) → seen program spec ≡ wanted spec
      → is_err (parse_instruction parse_key spec) ≡ true
  refused is_key spec h =
      ap is_err (keyed is_key spec (drop 1 (split spec)) (ap (λ p. p.0) h)) ∙ ap (λ p. p.1) h

  instruction_specs :
      (program : Pubkey)
      → parse_key dbc ≡ some program
      → parse_key [] ≡ none
      → parse_key (codes "not-a-key") ≡ none
      → InstructionSpecs
  unfolding with_parts split decode_hex decode_pairs decode_pair from_str_radix digits to_digit new
      memcmp
  instruction_specs program is_key no_empty no_word = Found-some _ is_key (
    Unwrapped-ok _ (keyed is_key _ [] refl) refl,
    Unwrapped-ok _ (keyed is_key _ (codes "0" ∷ codes "c9cff3724b6f2fbd" ∷ []) refl) refl,
    Unwrapped-ok _ (keyed is_key _ (codes "8" ∷ codes "0A" ∷ []) refl) refl,
    (
      ap is_err (unkeyed no_empty [] refl),
      (
        ap is_err (unkeyed no_word [] refl),
        All-map _ _ (refused is_key) bad_parts (map-eq-All (seen program) wanted bad_parts refl),
      ),
    ),
  )
