-- ===== src/Cli/Hex.antt =====
-- The hex digits of a memcmp: that they are read back, and what an instruction read from a command line
-- holds.
use preconfs_client.Prelude.{
  ℕ, ◌+◌, ◌-◌, ◌*◌, ◌/◌, ◌%◌, ◌≤◌, ◌<◌, ◌≡◌, inl, inr, refl, sym, ap, ◌∙◌, subst, arith, Bool, true,
  false, not, Option, none, some, List, [], ◌∷◌, Text, ltb, ◌==◌, length, ok, ok_or, if◌then◌else◌,
  All, >>=-ok, ok_or-ok, ok-injective, Bool-cases, le→ltb-false, ltb-false→le, err-ne-ok, ◌&&◌,
  ◌||◌, ap₂, if-true, if-false, some-injective, none-ne-some,
}
use preconfs_client.InstructionFilter.{InstructionFilter, new, memcmp}
use preconfs_client.InstructionFilter.Bounds.{IsU32}
use preconfs_client.Cli.{
  to_digit, next_digit, and_byte, digits, from_str_radix, decode_pair, decode_pairs, decode_hex,
  split, with_parts, read_parts, parse_instruction, bad_program, bad_offset, bad_hex, is_utf8,
  u32_limit,
}

-- The lower case hex digit of a number below 16.
abbrev pub hex_digit : ℕ → ℕ
hex_digit n = if ltb n 10 then n + b'0' else n - 10 + b'a'

-- Two digits for each byte.
unfoldable pub encode_hex : List ℕ → Text
encode_hex [] = []
encode_hex (b ∷ bytes) = hex_digit (b / 16) ∷ hex_digit (b % 16) ∷ encode_hex bytes

abbrev pub IsByte : ℕ → Type 0
IsByte b = b < 256

to_digit-hex_digit : (n : ℕ) → n < 16 → to_digit 16 (hex_digit n) ≡ some n
unfolding to_digit
to_digit-hex_digit n h = ground arith

pub digits_step :
    (largest radix value c d : ℕ) (s : Text)
    → to_digit radix c ≡ some d
    → value * radix + d ≤ largest
    → digits largest radix (c ∷ s) value ≡ digits largest radix s (value * radix + d)
unfolding digits
digits_step largest radix value c d s e h =
    ap (λ o. next_digit largest radix value o (digits largest radix s)) e
    ∙ if-false _ _ _ (le→ltb-false largest (value * radix + d) h)

hex_digit_ascii :
    (n : ℕ) → n < 16 → (ltb (hex_digit n) 128 ≡ true) × ((hex_digit n == b'+') ≡ false)
hex_digit_ascii n h = ground arith

both_ascii : (x y z : Bool) → x ≡ true → y ≡ true → ((x && y) || z) ≡ true
both_ascii true true z hx hy = refl
both_ascii false y z hx hy = cc
both_ascii true false z hx hy = cc

shifted : (a b : ℕ) → (0 * 16 + a) * 16 + b ≡ a * 16 + b
shifted a b = omega arith

split_byte : (b : ℕ) → (b / 16) * 16 + b % 16 ≡ b
split_byte b = omega arith

hex_digits_utf8 : (a b : ℕ) → a < 16 → b < 16 → is_utf8 (hex_digit a) (hex_digit b) ≡ true
hex_digits_utf8 a b ha hb = both_ascii _ _ _ (hex_digit_ascii a ha).0 (hex_digit_ascii b hb).0

decode_pair-hex_digit :
    (a b : ℕ) → a < 16 → b < 16 → decode_pair (hex_digit a) (hex_digit b) ≡ some (a * 16 + b)
unfolding decode_pair from_str_radix digits
decode_pair-hex_digit a b ha hb =
    if-true (is_utf8 (hex_digit a) (hex_digit b)) _ _ (hex_digits_utf8 a b ha hb)
    ∙ if-false _ _ _ (hex_digit_ascii a ha).1
    ∙ digits_step 255 16 0 (hex_digit a) a (hex_digit b ∷ []) (to_digit-hex_digit a ha)
        (omega arith)
    ∙ digits_step 255 16 (0 * 16 + a) (hex_digit b) b [] (to_digit-hex_digit b hb) (omega arith)
    ∙ ap some (shifted a b)

decode_pairs-encode_hex :
    (bytes : List ℕ) → All IsByte bytes → decode_pairs (encode_hex bytes) ≡ some bytes
unfolding decode_pairs encode_hex
decode_pairs-encode_hex [] h = refl
decode_pairs-encode_hex (b ∷ bytes) (small, rest) =
    ap₂ and_byte
      (decode_pair-hex_digit (b / 16) (b % 16) (omega arith) (omega arith) ∙ ap some (split_byte b))
      (decode_pairs-encode_hex bytes rest)

encode_hex_even : (bytes : List ℕ) → length (encode_hex bytes) ≡ 2 * length bytes
unfolding encode_hex
encode_hex_even [] = refl
encode_hex_even (b ∷ bytes) = let e = encode_hex_even bytes in omega arith

-- The two lower case hex digits of each byte, in order, are read back as the bytes.
pub decode_hex-encode_hex :
    (bytes : List ℕ) → All IsByte bytes → decode_hex (encode_hex bytes) ≡ some bytes
unfolding decode_hex
decode_hex-encode_hex bytes h =
    if-false (not (length (encode_hex bytes) % 2 == 0)) _ _ (even _ _ (encode_hex_even bytes))
    ∙ decode_pairs-encode_hex bytes h
  where
    even : (n k : ℕ) → n ≡ 2 * k → not (n % 2 == 0) ≡ false
    even n k e = ground arith

next_digit_le :
    (largest radix value : ℕ) (o : Option ℕ) (rest : ℕ → Option ℕ) {v : ℕ}
    → ((n : ℕ) → n ≤ largest → rest n ≡ some v → v ≤ largest)
    → next_digit largest radix value o rest ≡ some v
    → v ≤ largest
next_digit_le largest radix value none rest h e = absurd (none-ne-some e)
next_digit_le largest radix value (some d) rest h e =
    elim (Bool-cases (ltb largest (value * radix + d))) [
      | inl over ↦ absurd (none-ne-some (sym (if-true _ _ _ over) ∙ e))
      | inr under ↦
          h (value * radix + d) (ltb-false→le largest (value * radix + d) under)
            (sym (if-false _ _ _ under) ∙ e)
    ]

digits_le :
    (largest radix : ℕ) (s : Text) (value : ℕ) {v : ℕ}
    → value ≤ largest
    → digits largest radix s value ≡ some v
    → v ≤ largest
unfolding digits
digits_le largest radix [] value h e = let same = some-injective e in omega arith
digits_le largest radix (c ∷ s) value h e =
    next_digit_le largest radix value (to_digit radix c) (digits largest radix s)
      (λ n le e'. digits_le largest radix s n le e') e

from_str_radix_le :
    (largest radix : ℕ) (s : Text) {v : ℕ} → from_str_radix largest radix s ≡ some v → v ≤ largest
unfolding from_str_radix
from_str_radix_le largest radix [] e = absurd (none-ne-some e)
from_str_radix_le largest radix (c ∷ []) e = digits_le largest radix (c ∷ []) 0 (omega arith) e
from_str_radix_le largest radix (c ∷ d ∷ s) e = elim (Bool-cases (c == b'+')) [
  | inl plus ↦ digits_le largest radix (d ∷ s) 0 (omega arith) (sym (if-true _ _ _ plus) ∙ e)
  | inr digit ↦ digits_le largest radix (c ∷ d ∷ s) 0 (omega arith) (sym (if-false _ _ _ digit) ∙ e)
]

-- What an instruction filter read from a command line holds: the program alone, or one memcmp of an
-- offset that is a u32.
module _ {Pubkey : Type 0} (parse_key : Text → Option Pubkey) where
  with_parts-IsU32 :
      (spec : Text) (program : Pubkey) (parts : List Text) {i : InstructionFilter Pubkey}
      → with_parts parse_key spec (new program) parts ≡ ok i
      → IsU32 i
  unfolding with_parts new memcmp
  with_parts-IsU32 spec program [] e = subst IsU32 (ok-injective e) (tt, tt)
  with_parts-IsU32 spec program (offset ∷ []) e = absurd (err-ne-ok e)
  with_parts-IsU32 spec program (offset ∷ hex ∷ more ∷ rest) e = absurd (err-ne-ok e)
  with_parts-IsU32 spec program (offset ∷ hex ∷ []) e =
      let (at, is_at, rest) =
        >>=-ok (ok_or (from_str_radix u32_limit 10 offset) (bad_offset spec)) _ e in
      let (bytes, is_bytes, same) = >>=-ok (ok_or (decode_hex hex) (bad_hex spec)) _ rest in
      subst IsU32 (ok-injective same)
        ((from_str_radix_le u32_limit 10 offset (ok_or-ok _ (bad_offset spec) is_at), tt), tt)

  read_parts-IsU32 :
      (spec : Text) (parts : List Text) {i : InstructionFilter Pubkey}
      → read_parts parse_key spec parts ≡ ok i
      → IsU32 i
  unfolding read_parts
  read_parts-IsU32 spec [] e =
      let (program, is_program, rest) = >>=-ok (ok_or (parse_key []) (bad_program spec)) _ e in
      with_parts-IsU32 spec program [] rest
  read_parts-IsU32 spec (part ∷ parts) e =
      let (program, is_program, rest) = >>=-ok (ok_or (parse_key part) (bad_program spec)) _ e in
      with_parts-IsU32 spec program parts rest

  -- An instruction filter that `parse_instruction` reads has u32 fields, whatever the text.
  pub parse_instruction-IsU32 :
      (spec : Text) {i : InstructionFilter Pubkey}
      → parse_instruction parse_key spec ≡ ok i
      → IsU32 i
  unfolding parse_instruction
  parse_instruction-IsU32 spec e = read_parts-IsU32 spec (split spec) e
