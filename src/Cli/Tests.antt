-- ===== src/Cli/Tests.antt =====
-- Runs of the theorems on the command line, and of the hex reader on a sign.
use preconfs_client.Prelude.{
  ◌≡◌, ◌↔◌, refl, arith, Option, none, some, [], ◌∷◌, Text, codes, ok, is_empty, if◌then◌else◌,
}
use preconfs_client.InstructionFilter.{InstructionFilter, new, memcmp}
use preconfs_client.Cli.{
  to_digit, digits, from_str_radix, decode_pair, decode_pairs, decode_hex, split, with_parts,
  read_parts, parse_instruction,
}
use preconfs_client.Texts.{decimal}
use preconfs_client.Cli.Print.{print, parse_instruction-print}
use preconfs_client.Cli.Grammar.{IsSpec, parse_instruction_iff}
use preconfs_client.Cli.Hex.{encode_hex}

abbrev key : Text → Option Text
key s = if is_empty s then none else some s

abbrev spec : Text
spec = codes "dbc:8:0A"

abbrev read : InstructionFilter Text
read = record {
  program_id = codes "dbc";
  memcmp = record { offset = 8; bytes = 10 ∷ [] } ∷ [];
  data_size = none;
}

dbc_accepted : parse_instruction key spec ≡ ok read
unfolding parse_instruction read_parts with_parts split decode_hex decode_pairs decode_pair
    from_str_radix digits to_digit new memcmp
dbc_accepted = refl

parse_instruction_iff_example : (parse_instruction key spec ≡ ok read) ↔ IsSpec key spec read
parse_instruction_iff_example = parse_instruction_iff key spec read

parse_instruction-print_example :
    parse_instruction key (print (codes "dbc") 120 (201 ∷ 10 ∷ []))
    ≡ ok (memcmp (new (codes "dbc")) 120 (201 ∷ 10 ∷ []))
parse_instruction-print_example =
    parse_instruction-print key (codes "dbc") (codes "dbc") 120 (201 ∷ 10 ∷ [])
      (refl, (refl, (refl, tt))) refl (omega arith) (omega arith, (omega arith, tt))

-- The text that is printed.
printed : print (codes "dbc") 120 (201 ∷ 10 ∷ []) ≡ codes "dbc:120:c90a"
unfolding decimal encode_hex
printed = refl

-- A sign is taken for a digit of a pair.
sign_read : decode_hex (codes "+1") ≡ some (1 ∷ [])
unfolding decode_hex decode_pairs decode_pair from_str_radix digits to_digit
sign_read = refl
