-- ===== src/Cli.antt =====
-- examples/rust/src/main.rs: the command line's instruction filters and the filter that its arguments
-- make. A public key is read by the parameter `parse_key`; clap, logging and the runtime are left out.
pub mod Hex
pub mod Args
pub mod Log
pub mod Run
pub mod Follow
pub mod Arms
pub mod Whole
pub mod Never
pub mod Selection
pub mod Grammar
pub mod Print
mod Tests
mod Suite
mod Scenarios
mod Sessions
use preconfs_client.Prelude.{
  ℕ, zero, suc, ◌+◌, ◌-◌, ◌*◌, ◌%◌, Bool, true, false, not, ◌&&◌, ◌||◌, Option, none, some, List,
  [], ◌∷◌, map, Text, codes, leb, ltb, ◌==◌, length, Result, ok, err, ◌>>=◌, ok_or, if◌then◌else◌,
}
use preconfs_client.InstructionFilter.{InstructionFilter, new, memcmp, data_size}

-- `char::to_digit`
unfoldable pub to_digit : ℕ → ℕ → Option ℕ
to_digit radix c =
    let n =
      if leb b'0' c && leb c b'9'
      then c - b'0'
      else if leb b'a' c && leb c b'z'
      then c - b'a' + 10
      else if leb b'A' c && leb c b'Z'
      then c - b'A' + 10
      else radix in
    if ltb n radix then some n else none

-- a digit, if there is one, behind a value, checked against the largest value
abbrev pub next_digit : ℕ → ℕ → ℕ → Option ℕ → (ℕ → Option ℕ) → Option ℕ
next_digit largest radix value none rest = none
next_digit largest radix value (some d) rest =
    if ltb largest (value * radix + d) then none else rest (value * radix + d)

-- the loop of `from_str_radix`
unfoldable pub digits : ℕ → ℕ → Text → ℕ → Option ℕ
digits largest radix [] value = some value
digits largest radix (c ∷ s) value =
    next_digit largest radix value (to_digit radix c) (digits largest radix s)

-- `from_str_radix` of an unsigned type: a sign `+` may stand before the digits
unfoldable pub from_str_radix : ℕ → ℕ → Text → Option ℕ
from_str_radix largest radix [] = none
from_str_radix largest radix (c ∷ []) = digits largest radix (c ∷ []) 0
from_str_radix largest radix (c ∷ d ∷ s) =
    if c == b'+' then digits largest radix (d ∷ s) 0 else digits largest radix (c ∷ d ∷ s) 0

-- `std::str::from_utf8` of two bytes: two ASCII characters, or one of two bytes
abbrev pub is_utf8 : ℕ → ℕ → Bool
is_utf8 a b = (ltb a 128 && ltb b 128) || (leb 194 a && leb a 223 && leb 128 b && leb b 191)

-- `u8::from_str_radix(std::str::from_utf8(pair).ok()?, 16).ok()`
unfoldable pub decode_pair : ℕ → ℕ → Option ℕ
decode_pair a b = if is_utf8 a b then from_str_radix 255 16 (a ∷ b ∷ []) else none

-- `collect` into an Option, at one byte
abbrev pub and_byte : Option ℕ → Option (List ℕ) → Option (List ℕ)
and_byte none rest = none
and_byte (some byte) none = none
and_byte (some byte) (some rest) = some (byte ∷ rest)

-- `chunks(2)` and `collect`, on an even number of bytes
unfoldable pub decode_pairs : Text → Option (List ℕ)
decode_pairs [] = some []
decode_pairs (a ∷ []) = none
decode_pairs (a ∷ b ∷ s) = and_byte (decode_pair a b) (decode_pairs s)

unfoldable pub decode_hex : Text → Option (List ℕ)
decode_hex hex = if not (length hex % 2 == 0) then none else decode_pairs hex

-- a byte in front of the first part
abbrev pub push : ℕ → List Text → List Text
push c [] = (c ∷ []) ∷ []
push c (part ∷ parts) = (c ∷ part) ∷ parts

-- `str::split(':')`
unfoldable pub split : Text → List Text
split [] = [] ∷ []
split (c ∷ s) = if c == b':' then [] ∷ split s else push c (split s)

pub data SpecError : Type 0 where
  bad_program bad_offset bad_hex bad_shape : Text → SpecError

abbrev pub u32_limit : ℕ
u32_limit = 4294967295

module _ {Pubkey : Type 0} (parse_key : Text → Option Pubkey) where
  -- the match on the parts behind the program
  unfoldable pub with_parts :
      Text → InstructionFilter Pubkey → List Text → Result SpecError (InstructionFilter Pubkey)
  with_parts spec filter [] = ok filter
  with_parts spec filter (offset ∷ []) = err (bad_shape spec)
  with_parts spec filter (offset ∷ hex ∷ []) = do
    at ← ok_or (from_str_radix u32_limit 10 offset) (bad_offset spec)
    bytes ← ok_or (decode_hex hex) (bad_hex spec)
    ok (memcmp filter at bytes)
  with_parts spec filter (offset ∷ hex ∷ more ∷ rest) = err (bad_shape spec)

  -- the program and the parts behind it
  unfoldable pub read_parts : Text → List Text → Result SpecError (InstructionFilter Pubkey)
  read_parts spec [] =
      ok_or (parse_key []) (bad_program spec) >>= λ program. with_parts spec (new program) []
  read_parts spec (part ∷ parts) =
      ok_or (parse_key part) (bad_program spec) >>= λ program. with_parts spec (new program) parts

  unfoldable pub parse_instruction : Text → Result SpecError (InstructionFilter Pubkey)
  parse_instruction spec = read_parts spec (split spec)
