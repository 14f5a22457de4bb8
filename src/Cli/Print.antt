-- ===== src/Cli/Print.antt =====
-- An instruction filter of one memcmp, printed as the command line takes it, and read back.
use preconfs_client.Prelude.{
  ℕ, zero, suc, ◌+◌, ◌*◌, ◌/◌, ◌%◌, ◌≤◌, ◌<◌, ◌≡◌, ◌≢◌, inl, inr, refl, sym, ap, subst, ◌∙◌, arith,
  false, Option, none, some, List, [], ◌∷◌, ◌++◌, Text, ltb, ◌==◌, ok, All, All-map, All-append,
  Bool-cases, if-true, if-false, none-ne-some, some-injective,
}
use preconfs_client.InstructionFilter.{new, memcmp}
use preconfs_client.Texts.{decimal}
use preconfs_client.Cli.{to_digit, next_digit, digits, from_str_radix, u32_limit, parse_instruction}
use preconfs_client.Cli.Hex.{hex_digit, encode_hex, IsByte, digits_step, decode_hex-encode_hex}
use preconfs_client.Cli.Grammar.{NoColon, with_bytes, parse_instruction_iff}

next_digit_map :
    (largest radix value : ℕ) (o : Option ℕ) (rest rest' : ℕ → Option ℕ) {m m' : ℕ}
    → ((n : ℕ) → rest n ≡ some m → rest' n ≡ some m')
    → next_digit largest radix value o rest ≡ some m
    → next_digit largest radix value o rest' ≡ some m'
next_digit_map largest radix value none rest rest' f h = absurd (none-ne-some h)
next_digit_map largest radix value (some d) rest rest' f h =
    elim (Bool-cases (ltb largest (value * radix + d))) [
      | inl over ↦ absurd (none-ne-some (sym (if-true _ _ _ over) ∙ h))
      | inr under ↦ if-false _ _ _ under ∙ f (value * radix + d) (sym (if-false _ _ _ under) ∙ h)
    ]

-- One more digit behind digits that have been read.
digits_snoc :
    (largest radix : ℕ) (s : Text) (value c d : ℕ) {m : ℕ}
    → digits largest radix s value ≡ some m
    → to_digit radix c ≡ some d
    → m * radix + d ≤ largest
    → digits largest radix (s ++ (c ∷ [])) value ≡ some (m * radix + d)
unfolding digits
digits_snoc largest radix [] value c d {m} h is_d fits =
    let same : value ≡ m = some-injective h in
    digits_step largest radix value c d [] is_d
      (subst (λ v. v * radix + d ≤ largest) (sym same) fits)
    ∙ ap (λ v. some (v * radix + d)) same
digits_snoc largest radix (x ∷ s) value c d h is_d fits =
    next_digit_map largest radix value (to_digit radix x) _ _
      (λ n e. digits_snoc largest radix s n c d e is_d fits) h

abbrev IsDigit : ℕ → Type 0
IsDigit c = (48 ≤ c) × (c ≤ 57)

abbrev power_of_ten : ℕ → ℕ
power_of_ten zero = 1
power_of_ten (suc n) = 10 * power_of_ten n

to_digit-decimal : (n : ℕ) → n < 10 → to_digit 10 (b'0' + n) ≡ some n
unfolding to_digit
to_digit-decimal n h = ground arith

from_zero : (n : ℕ) → 0 * 10 + n ≡ n
from_zero n = omega arith

ten_split : (n : ℕ) → (n / 10) * 10 + n % 10 ≡ n
ten_split n = omega arith

digits-decimal :
    (largest fuel n : ℕ)
    → n < power_of_ten fuel
    → n ≤ largest
    → digits largest 10 (decimal fuel n) 0 ≡ some n
unfolding decimal digits
digits-decimal largest zero n small fits = ap some (omega arith)
digits-decimal largest (suc fuel) n small fits = elim (Bool-cases (ltb n 10)) [
  | inl one ↦
      ap (λ s. digits largest 10 s 0) (if-true _ _ _ one)
      ∙ digits_step largest 10 0 (b'0' + n) n [] (to_digit-decimal n (ground arith)) (omega arith)
      ∙ ap some (from_zero n)
  | inr more ↦
      ap (λ s. digits largest 10 s 0) (if-false _ _ _ more)
      ∙ digits_snoc largest 10 (decimal fuel (n / 10)) 0 (b'0' + n % 10) (n % 10)
          (digits-decimal largest fuel (n / 10) (omega arith) (omega arith))
          (to_digit-decimal (n % 10) (omega arith)) (omega arith)
      ∙ ap some (ten_split n)
]

decimal-IsDigit : (fuel n : ℕ) → All IsDigit (decimal fuel n)
unfolding decimal
decimal-IsDigit zero n = tt
decimal-IsDigit (suc fuel) n = elim (Bool-cases (ltb n 10)) [
  | inl one ↦ subst (All IsDigit) (sym (if-true _ _ _ one)) ((omega arith, ground arith), tt)
  | inr more ↦ subst (All IsDigit) (sym (if-false _ _ _ more)) (
      All-append IsDigit (decimal fuel (n / 10)) ((b'0' + n % 10) ∷ [])
        (decimal-IsDigit fuel (n / 10)) ((omega arith, omega arith), tt))
]

-- `from_str_radix` on digits, of which there is one at least.
from_str_radix-digits :
    (largest : ℕ) (s : Text) {v : ℕ}
    → All IsDigit s
    → s ≢ []
    → digits largest 10 s 0 ≡ some v
    → from_str_radix largest 10 s ≡ some v
unfolding from_str_radix
from_str_radix-digits largest [] h there e = absurd (there refl)
from_str_radix-digits largest (c ∷ []) h there e = e
from_str_radix-digits largest (c ∷ d ∷ s) h there e = if-false _ _ _ (no_sign c h.0) ∙ e
  where
    no_sign : (c : ℕ) → IsDigit c → (c == b'+') ≡ false
    no_sign c h = ground arith

snoc_there : (s : Text) (c : ℕ) → s ++ (c ∷ []) ≢ []
snoc_there [] c h = cc
snoc_there (x ∷ s) c h = cc

decimal_there : (fuel n : ℕ) → decimal (suc fuel) n ≢ []
unfolding decimal
decimal_there fuel n = elim (Bool-cases (ltb n 10)) [
  | inl one ↦ subst (λ s. s ≢ []) (sym (if-true _ _ _ one)) (λ h. cc)
  | inr more ↦
      subst (λ s. s ≢ []) (sym (if-false _ _ _ more))
        (snoc_there (decimal fuel (n / 10)) (b'0' + n % 10))
]

digit_no_colon : (c : ℕ) → IsDigit c → (c == b':') ≡ false
digit_no_colon c h = ground arith

hex_no_colon : (n : ℕ) → n < 16 → (hex_digit n == b':') ≡ false
hex_no_colon n h = ground arith

encode_hex-NoColon : (bytes : List ℕ) → All IsByte bytes → NoColon (encode_hex bytes)
unfolding encode_hex
encode_hex-NoColon [] h = tt
encode_hex-NoColon (b ∷ bytes) (small, rest) = (
  hex_no_colon (b / 16) (omega arith),
  (hex_no_colon (b % 16) (omega arith), encode_hex-NoColon bytes rest),
)

-- PROGRAM:OFFSET:HEX
abbrev pub print : Text → ℕ → List ℕ → Text
print program offset bytes = program ++ (b':' ∷ (decimal 20 offset ++ (b':' ∷ encode_hex bytes)))

-- A program without a colon in its text, an offset that is a u32 in decimal, and bytes in hex, printed
-- with colons between them, are read back as the instruction filter of that program with those bytes at
-- that offset.
pub parse_instruction-print :
    {Pubkey : Type 0} (parse_key : Text → Option Pubkey) (program : Text) (p : Pubkey) (offset : ℕ)
    (bytes : List ℕ)
    → NoColon program
    → parse_key program ≡ some p
    → offset ≤ u32_limit
    → All IsByte bytes
    → parse_instruction parse_key (print program offset bytes) ≡ ok (memcmp (new p) offset bytes)
parse_instruction-print parse_key program p offset bytes plain is_p small are_bytes =
    let text = decimal 20 offset in
    (parse_instruction_iff parse_key (print program offset bytes) (memcmp (new p) offset bytes)).1 (
      with_bytes program text (encode_hex bytes) p offset bytes plain
        (All-map IsDigit (λ c. (c == b':') ≡ false) digit_no_colon text (decimal-IsDigit 20 offset))
        (encode_hex-NoColon bytes are_bytes) refl is_p
        (from_str_radix-digits u32_limit text (decimal-IsDigit 20 offset) (decimal_there 19 offset)
          (digits-decimal u32_limit 20 offset (omega arith) small))
        (decode_hex-encode_hex bytes are_bytes) refl)
