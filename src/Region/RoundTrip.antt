-- ===== src/Region/RoundTrip.antt =====
-- `Display` and `FromStr` of regions, `feed:region`.
use mathlib.Core.Option
use mathlib.Core.List.{map-append}
use preconfs_client.Prelude.{
  ℕ, ◌≡◌, refl, sym, ap, ap₂, map-some, ◌∙◌, ◌↔◌, inl, inr, some, [], ◌∷◌, ◌++◌, arith, Text, codes,
  text_eq_iff, to_lower, to_ascii_lowercase, lowercase_idem, ◌==◌, ok, ok_or, ok_or-ok, >>=-ok,
  ◌>>=◌, Option-cases,
}
use preconfs_client.Proto.{HarmonicRegion, BamRegion}
use preconfs_client.Feed.{Feed, Region, format, from_str as feed_from_str, name as feed_name}
use preconfs_client.Region.{parse, split_colon, from_str, display}
use preconfs_client.Region.Names.{IsListed, parse_case, parse-IsNamed}

-- A region that is listed, not the zero value of its enum, is read back from what is printed of it.
pub from_str-display : (r : Region) → IsListed r → from_str (display r) ≡ ok r
unfolding from_str display
from_str-display (Region.harmonic HarmonicRegion.unspecified) h = absurd (h refl)
from_str-display (Region.harmonic _) h = refl
from_str-display (Region.bam BamRegion.unspecified) h = absurd (h refl)
from_str-display (Region.bam _) h = refl

lower_colon : (c : ℕ) → (to_lower c == b':') ≡ (c == b':')
lower_colon c = ground arith

abbrev both_lower : Text × Text → Text × Text
both_lower p = (to_ascii_lowercase p.0, to_ascii_lowercase p.1)

split-lower :
    (s : Text) → split_colon (to_ascii_lowercase s) ≡ Option.map both_lower (split_colon s)
split-lower [] = refl
split-lower (c ∷ s) = ground (arith, split-lower s)

split-some : (s : Text) {p : Text × Text} → split_colon s ≡ some p → s ≡ p.0 ++ (b':' ∷ p.1)
split-some [] h = cc
split-some (c ∷ s) {p} h = elim (Option-cases (split_colon s)) [
  | inl e ↦ ground arith
  | inr (q, e) ↦ let ih = split-some s e in ground arith
]

feed_from_str-named :
    (s : Text) (f : Feed) → feed_from_str s ≡ ok f → to_ascii_lowercase s ≡ feed_name f
unfolding feed_from_str feed_name
feed_from_str-named s f h = ground (
  arith,
  text_eq_iff (to_ascii_lowercase s) (codes "harmonic"),
  text_eq_iff (to_ascii_lowercase s) (codes "bam"),
)

feed_from_str_case :
    (s t : Text) {f : Feed}
    → to_ascii_lowercase s ≡ to_ascii_lowercase t
    → feed_from_str s ≡ ok f
    → feed_from_str t ≡ ok f
unfolding feed_from_str
feed_from_str_case s t e h = rw (← e) (ground arith)

from_str-ok :
    (s : Text) {r : Region}
    → from_str s ≡ ok r
    → (p : Text × Text) × (f : Feed) × (split_colon s ≡ some p)
      × (feed_from_str p.0 ≡ ok f)
      × (parse f p.1 ≡ ok r)
unfolding from_str
from_str-ok s h =
    let (p, is_p, rest) =
      >>=-ok (ok_or (split_colon s) (format s)) (λ p. feed_from_str p.0 >>= λ f. parse f p.1) h in
    let (f, is_f, is_r) = >>=-ok (feed_from_str p.0) (λ f. parse f p.1) rest in
    (p, f, ok_or-ok (split_colon s) (format s) is_p, is_f, is_r)

from_str-intro :
    (s : Text) (p : Text × Text) (f : Feed) {r : Region}
    → split_colon s ≡ some p
    → feed_from_str p.0 ≡ ok f
    → parse f p.1 ≡ ok r
    → from_str s ≡ ok r
unfolding from_str
from_str-intro s p f is_p is_f is_r =
    ap (λ o. ok_or o (format s) >>= λ q. feed_from_str q.0 >>= λ g. parse g q.1) is_p
    ∙ ap (λ x. x >>= λ g. parse g p.1) is_f
    ∙ is_r

-- `from_str` is case insensitive in both parts.
from_str_case :
    (s t : Text) {r : Region}
    → to_ascii_lowercase s ≡ to_ascii_lowercase t
    → from_str s ≡ ok r
    → from_str t ≡ ok r
from_str_case s t {r} e h =
    let (p, f, s_split, is_f, is_r) = from_str-ok s h in
    let (q, t_split, same) = map-some both_lower (split_colon t) (split_t s_split) in
    from_str-intro t q f t_split (feed_from_str_case p.0 q.0 (sym (ap (λ x. x.0) same)) is_f)
      (parse_case f p.1 q.1 (sym (ap (λ x. x.1) same)) is_r)
  where
    split_t :
        {p : Text × Text}
        → split_colon s ≡ some p
        → Option.map both_lower (split_colon t) ≡ some (both_lower p)
    split_t {p} s_split =
        sym (split-lower t)
        ∙ ap split_colon (sym e)
        ∙ split-lower s
        ∙ ap (Option.map both_lower) s_split

from_str-named :
    (s : Text) (r : Region) → from_str s ≡ ok r → (to_ascii_lowercase s ≡ display r) × IsListed r
unfolding display
from_str-named s r h =
    let (p, f, s_split, is_f, is_r) = from_str-ok s h in
    let (of_feed, named, listed) = parse-IsNamed f p.1 is_r in
    (
      ap to_ascii_lowercase (split-some s s_split)
          ∙ map-append to_lower p.0 (b':' ∷ p.1)
          ∙ ap₂ (λ x y. x ++ (b':' ∷ y))
              (feed_from_str-named p.0 f is_f ∙ ap feed_name (sym of_feed)) (sym named),
      listed,
    )

-- `from_str` reads exactly the texts that are `display` of a listed region up to the case of ASCII
-- letters, and reads each as that region.
pub from_str_iff :
    (s : Text) (r : Region)
    → (from_str s ≡ ok r) ↔ ((to_ascii_lowercase s ≡ display r) × IsListed r)
from_str_iff s r = (
  from_str-named s r,
  λ h.
      from_str_case (display r) s (ap to_ascii_lowercase (sym h.0) ∙ lowercase_idem s)
        (from_str-display r h.1),
)
