-- ===== src/Prelude/Bytes.antt =====
-- A `str` is the list of its UTF-8 bytes: `len`, `==` and the ASCII methods act on these.
use Prim.Native.Nat.{ℕ, ◌+◌, ◌-◌}
use Prim.Native.Char.{code}
use Prim.Native.String.{String}
use mathlib.Core.Path.{◌≡◌, refl}
use mathlib.Core.Logic.{◌↔◌}
use mathlib.Core.Bool.{Bool, true, false, ◌&&◌}
use mathlib.Core.List.{List, [], ◌∷◌, map}
use native.Mathlib.Omega.{arith}
use preconfs_client.Prelude.Tests.{leb, ◌==◌, if◌then◌else◌}

abbrev pub Text : Type 0
Text = List ℕ

-- The bytes of an ASCII literal.
abbrev pub codes : String → Text
codes String.[] = []
codes (String.◌∷◌ c s) = code c ∷ codes s

abbrev pub text_eq : Text → Text → Bool
text_eq [] [] = true
text_eq [] (b ∷ t) = false
text_eq (a ∷ s) [] = false
text_eq (a ∷ s) (b ∷ t) = a == b && text_eq s t

pub text_eq_refl : (s : Text) → text_eq s s ≡ true
text_eq_refl [] = refl
text_eq_refl (a ∷ s) = ground (arith, text_eq_refl s)

pub text_eq→eq : (s t : Text) → text_eq s t ≡ true → s ≡ t
text_eq→eq [] [] h = refl
text_eq→eq [] (b ∷ t) h = cc
text_eq→eq (a ∷ s) [] h = cc
text_eq→eq (a ∷ s) (b ∷ t) h = ground (arith, text_eq→eq s t)

pub text_eq_iff : (s t : Text) → (text_eq s t ≡ true) ↔ (s ≡ t)
text_eq_iff s t = (text_eq→eq s t, λ e. rw (← e) (text_eq_refl s))

-- u8::to_ascii_lowercase and u8::to_ascii_uppercase
abbrev pub to_lower : ℕ → ℕ
to_lower c = if leb b'A' c && leb c b'Z' then c + 32 else c

abbrev pub to_upper : ℕ → ℕ
to_upper c = if leb b'a' c && leb c b'z' then c - 32 else c

-- str::to_ascii_lowercase and str::to_uppercase on ASCII
abbrev pub to_ascii_lowercase : Text → Text
to_ascii_lowercase s = map to_lower s

abbrev pub to_ascii_uppercase : Text → Text
to_ascii_uppercase s = map to_upper s

to_lower-to_upper : (c : ℕ) → to_lower (to_upper c) ≡ to_lower c
to_lower-to_upper c = ground arith

pub lowercase-uppercase :
    (s : Text) → to_ascii_lowercase (to_ascii_uppercase s) ≡ to_ascii_lowercase s
lowercase-uppercase [] = refl
lowercase-uppercase (c ∷ s) = cc (to_lower-to_upper c, lowercase-uppercase s)

to_lower_idem : (c : ℕ) → to_lower (to_lower c) ≡ to_lower c
to_lower_idem c = ground arith

pub lowercase_idem : (s : Text) → to_ascii_lowercase (to_ascii_lowercase s) ≡ to_ascii_lowercase s
lowercase_idem [] = refl
lowercase_idem (c ∷ s) = cc (to_lower_idem c, lowercase_idem s)
