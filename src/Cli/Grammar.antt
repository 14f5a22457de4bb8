-- ===== src/Cli/Grammar.antt =====
-- The instruction filters of the command line, against the grammar that their documentation gives:
-- PROGRAM or PROGRAM:OFFSET:HEX.
use preconfs_client.Prelude.{
  ℕ, ◌≡◌, ◌↔◌, inl, inr, refl, sym, ap, subst, ◌∙◌, false, true, Option, some, List, [], ◌∷◌, ◌++◌,
  Text, ◌==◌, ok, ok_or, All, Bool-cases, if-true, if-false, >>=-ok, ok_or-ok, ok-injective,
  err-ne-ok, arith,
}
use preconfs_client.InstructionFilter.{InstructionFilter, new, memcmp}
use preconfs_client.Cli.{
  push, split, from_str_radix, decode_hex, u32_limit, bad_program, bad_offset, bad_hex, with_parts,
  read_parts, parse_instruction,
}

abbrev pub NoColon : Text → Type 0
NoColon s = All (λ c. (c == b':') ≡ false) s

-- Parts with a colon between each two.
abbrev join : List Text → Text
join [] = []
join (part ∷ []) = part
join (part ∷ next ∷ parts) = part ++ b':' ∷ join (next ∷ parts)

join-push : (c : ℕ) (parts : List Text) → join (push c parts) ≡ c ∷ join parts
join-push c [] = refl
join-push c (part ∷ []) = refl
join-push c (part ∷ next ∷ parts) = refl

push-NoColon :
    (c : ℕ) (parts : List Text)
    → (c == b':') ≡ false
    → All NoColon parts
    → All NoColon (push c parts)
push-NoColon c [] h hs = ((h, tt), tt)
push-NoColon c (part ∷ parts) h hs = ((h, hs.0), hs.1)

abbrev IsNonempty : List Text → Type 0
IsNonempty [] = ⊥
IsNonempty (part ∷ parts) = Unit

join-cons : (parts : List Text) → IsNonempty parts → join ([] ∷ parts) ≡ b':' ∷ join parts
join-cons [] h = absurd h
join-cons (part ∷ parts) h = refl

push-IsNonempty : (c : ℕ) (parts : List Text) → IsNonempty (push c parts)
push-IsNonempty c [] = tt
push-IsNonempty c (part ∷ parts) = tt

is_colon : (c : ℕ) → (c == b':') ≡ true → c ≡ b':'
is_colon c h = ground arith

-- What `split` gives: parts without a colon, which joined are the text.
abbrev IsSplit : Text → List Text → Type 0
IsSplit s parts = IsNonempty parts × (join parts ≡ s) × All NoColon parts

split-IsSplit : (s : Text) → IsSplit s (split s)
unfolding split
split-IsSplit [] = (tt, refl, (tt, tt))
split-IsSplit (c ∷ s) =
    let (there, joined, plain) = split-IsSplit s in
    elim (Bool-cases (c == b':')) [
      | inl colon ↦ subst (IsSplit (c ∷ s)) (sym (if-true _ _ _ colon)) (
        tt,
        join-cons (split s) there
            ∙ ap (λ t. b':' ∷ t) joined
            ∙ ap (λ d. d ∷ s) (sym (is_colon c colon)),
        (tt, plain),
      )
      | inr other ↦ subst (IsSplit (c ∷ s)) (sym (if-false _ _ _ other)) (
        push-IsNonempty c (split s),
        join-push c (split s) ∙ ap (λ t. c ∷ t) joined,
        push-NoColon c (split s) other plain,
      )
    ]

split-NoColon : (s : Text) → NoColon s → split s ≡ s ∷ []
unfolding split
split-NoColon [] h = refl
split-NoColon (c ∷ s) h = if-false _ _ _ h.0 ∙ ap (push c) (split-NoColon s h.1)

split-colon : (s t : Text) → NoColon s → split (s ++ b':' ∷ t) ≡ s ∷ split t
unfolding split
split-colon [] t h = refl
split-colon (c ∷ s) t h = if-false _ _ _ h.0 ∙ ap (push c) (split-colon s t h.1)

module _ {Pubkey : Type 0} (parse_key : Text → Option Pubkey) where
  -- The texts of an instruction filter, and the filter of each.
  pub data IsSpec (spec : Text) (i : InstructionFilter Pubkey) : Type 0 where
    program_only : (p : Pubkey) → NoColon spec → parse_key spec ≡ some p → i ≡ new p → IsSpec spec i
    with_bytes :
        (program offset hex : Text) (p : Pubkey) (at : ℕ) (bytes : List ℕ)
        → NoColon program
        → NoColon offset
        → NoColon hex
        → spec ≡ program ++ (b':' ∷ (offset ++ (b':' ∷ hex)))
        → parse_key program ≡ some p
        → from_str_radix u32_limit 10 offset ≡ some at
        → decode_hex hex ≡ some bytes
        → i ≡ memcmp (new p) at bytes
        → IsSpec spec i

  read_parts-IsSpec :
      (spec : Text) (parts : List Text) {i : InstructionFilter Pubkey}
      → join parts ≡ spec
      → All NoColon parts
      → read_parts parse_key spec parts ≡ ok i
      → IsSpec spec i
  unfolding read_parts with_parts
  read_parts-IsSpec spec [] joined plain h =
      let (p, is_p, rest) = >>=-ok (ok_or (parse_key []) (bad_program spec)) _ h in
      program_only p (subst NoColon joined tt)
        (ap parse_key (sym joined) ∙ ok_or-ok _ (bad_program spec) is_p) (sym (ok-injective rest))
  read_parts-IsSpec spec (program ∷ []) joined plain h =
      let (p, is_p, rest) = >>=-ok (ok_or (parse_key program) (bad_program spec)) _ h in
      program_only p (subst NoColon joined plain.0)
        (ap parse_key (sym joined) ∙ ok_or-ok _ (bad_program spec) is_p) (sym (ok-injective rest))
  read_parts-IsSpec spec (program ∷ offset ∷ []) joined plain h =
      let (p, is_p, rest) = >>=-ok (ok_or (parse_key program) (bad_program spec)) _ h in
      absurd (err-ne-ok rest)
  read_parts-IsSpec spec (program ∷ offset ∷ hex ∷ []) joined plain h =
      let (p, is_p, rest) = >>=-ok (ok_or (parse_key program) (bad_program spec)) _ h in
      let (at, is_at, rest') =
        >>=-ok (ok_or (from_str_radix u32_limit 10 offset) (bad_offset spec)) _ rest in
      let (bytes, is_bytes, same) = >>=-ok (ok_or (decode_hex hex) (bad_hex spec)) _ rest' in
      with_bytes program offset hex p at bytes plain.0 plain.1.0 plain.1.1.0 (sym joined)
        (ok_or-ok _ (bad_program spec) is_p) (ok_or-ok _ (bad_offset spec) is_at)
        (ok_or-ok _ (bad_hex spec) is_bytes) (sym (ok-injective same))
  read_parts-IsSpec spec (program ∷ offset ∷ hex ∷ more ∷ parts) joined plain h =
      let (p, is_p, rest) = >>=-ok (ok_or (parse_key program) (bad_program spec)) _ h in
      absurd (err-ne-ok rest)

  IsSpec-read :
      (spec : Text) {i : InstructionFilter Pubkey}
      → IsSpec spec i
      → read_parts parse_key spec (split spec) ≡ ok i
  unfolding read_parts with_parts
  IsSpec-read spec (program_only p plain is_p same) =
      ap (read_parts parse_key spec) (split-NoColon spec plain) ∙ rw is_p (ap ok (sym same))
  IsSpec-read spec
        (with_bytes program offset hex p at bytes pp po ph is_spec is_p is_at is_bytes same) =
      let parts : split spec ≡ program ∷ offset ∷ hex ∷ [] =
        ap split is_spec
        ∙ split-colon program _ pp
        ∙ ap (λ l. program ∷ l) (split-colon offset hex po)
        ∙ ap (λ l. program ∷ offset ∷ l) (split-NoColon hex ph) in
      ap (read_parts parse_key spec) parts ∙ rw (is_p, is_at, is_bytes) (ap ok (sym same))

  -- `parse_instruction` reads a text exactly when it is a program that `parse_key` reads, or a program, a
  -- u32 offset and bytes that `decode_hex` reads with a colon between each two, where none of the parts
  -- has a colon of its own; what it reads is the filter of that program, with the bytes at the offset if
  -- they are given.
  pub parse_instruction_iff :
      (spec : Text) (i : InstructionFilter Pubkey)
      → (parse_instruction parse_key spec ≡ ok i) ↔ IsSpec spec i
  unfolding parse_instruction
  parse_instruction_iff spec i =
      let (there, joined, plain) = split-IsSplit spec in
      (read_parts-IsSpec spec (split spec) joined plain, IsSpec-read spec)
