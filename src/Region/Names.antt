-- ===== src/Region/Names.antt =====
-- Which names `parse` accepts, and what it returns for them.
use preconfs_client.Prelude.{
  ◌≡◌, ◌≢◌, refl, sym, ◌∙◌, subst, map, arith, false≢true, ◌⊎◌, inl, inr, false, none, some, List,
  [], ◌∷◌, Bool, Text, codes, text_eq, text_eq_iff, to_ascii_lowercase, ok, err, find-some,
  find-none, map-some, map-none, All, Option-cases,
}
use preconfs_client.Proto.{HarmonicRegion, BamRegion, harmonic_discriminant, bam_discriminant}
use preconfs_client.Feed.{Feed, Region, unknown_region, regions, harmonic_table, bam_table}
use preconfs_client.Region.{join, found, parse, feed, name}

-- A region that the server can serve, not the zero value of its enum.
abbrev pub IsListed : Region → Type 0
IsListed (Region.harmonic region) = harmonic_discriminant region ≢ 0
IsListed (Region.bam region) = bam_discriminant region ≢ 0

abbrev pub IsNamed : Feed → Text → Region → Type 0
IsNamed f s r = (feed r ≡ f) × (name r ≡ s) × IsListed r

-- Each row of the tables is the name of its region.
abbrev HarmonicRow : Text × HarmonicRegion → Type 0
HarmonicRow e = (name (Region.harmonic e.1) ≡ e.0) × IsListed (Region.harmonic e.1)

abbrev BamRow : Text × BamRegion → Type 0
BamRow e = (name (Region.bam e.1) ≡ e.0) × IsListed (Region.bam e.1)

harmonic_rows : All HarmonicRow harmonic_table
unfolding name
harmonic_rows = ground arith

bam_rows : All BamRow bam_table
unfolding name
bam_rows = ground arith

abbrev is_row {ℓ} : {A : Type ℓ} → Text → Text × A → Bool
is_row s e = text_eq e.0 s

found-IsNamed : (f : Feed) (s : Text) (r : Region) → found f s ≡ some r → IsNamed f s r
unfolding found feed
found-IsNamed Feed.harmonic s r h =
    let (e, found_e, is_r) = map-some _ _ h in
    let (same, row) = find-some (is_row s) HarmonicRow harmonic_table harmonic_rows found_e in
    rw (← is_r) (refl, row.0 ∙ (text_eq_iff _ _).0 same, row.1)
found-IsNamed Feed.bam s r h =
    let (e, found_e, is_r) = map-some _ _ h in
    let (same, row) = find-some (is_row s) BamRow bam_table bam_rows found_e in
    rw (← is_r) (refl, row.0 ∙ (text_eq_iff _ _).0 same, row.1)

All-names {ℓ} :
    {A : Type ℓ} (s : Text) (rows : List (Text × A))
    → All (λ e. text_eq e.0 s ≡ false) rows
    → All (λ n. n ≢ s) (map (λ e. e.0) rows)
All-names s [] h = tt
All-names s (e ∷ rows) h =
    ((λ same. absurd (false≢true (sym h.0 ∙ (text_eq_iff _ _).1 same))), All-names s rows h.1)

found-none : (f : Feed) (s : Text) → found f s ≡ none → All (λ n. n ≢ s) (regions f)
unfolding found regions
found-none Feed.harmonic s h =
    All-names s harmonic_table
      (find-none (is_row s) harmonic_table (map-none (λ e. Region.harmonic e.1) _ h))
found-none Feed.bam s h =
    All-names s bam_table (find-none (is_row s) bam_table (map-none (λ e. Region.bam e.1) _ h))

parse-some :
    (f : Feed) (s : Text) {r : Region} → found f (to_ascii_lowercase s) ≡ some r → parse f s ≡ ok r
parse-some f s e = unfold parse in rw (e, parse)

parse-none :
    (f : Feed) (s : Text)
    → found f (to_ascii_lowercase s) ≡ none
    → parse f s ≡ err (unknown_region f s (join (codes ", ") (regions f)))
parse-none f s e = unfold parse in rw (e, parse)

-- `parse` either returns the region of the feed whose name is the given one in lower case, never an
-- unspecified one, or, when the feed serves no region of that name, the error with the feed, the name
-- as it was given and the comma separated names of the feed.
pub parse_cases :
    (f : Feed) (s : Text)
    → ((r : Region) × (parse f s ≡ ok r) × IsNamed f (to_ascii_lowercase s) r)
      ⊎ ((parse f s ≡ err (unknown_region f s (join (codes ", ") (regions f))))
          × All (λ n. n ≢ to_ascii_lowercase s) (regions f))
parse_cases f s = elim (Option-cases (found f (to_ascii_lowercase s))) [
  | inl e ↦ inr (parse-none f s e, found-none f _ e)
  | inr (r, e) ↦ inl (r, parse-some f s e, found-IsNamed f _ r e)
]

-- `parse` succeeds only by finding the name in lower case.
pub parse-ok :
    (f : Feed) (s : Text) {r : Region} → parse f s ≡ ok r → found f (to_ascii_lowercase s) ≡ some r
parse-ok f s {r} h = elim (Option-cases (found f (to_ascii_lowercase s))) [
  | inl e ↦ cc (parse-none f s e)
  | inr (q, e) ↦ e ∙ cc (parse-some f s e)
]

pub parse-IsNamed :
    (f : Feed) (s : Text) {r : Region} → parse f s ≡ ok r → IsNamed f (to_ascii_lowercase s) r
parse-IsNamed f s {r} h = found-IsNamed f _ r (parse-ok f s h)

-- `parse` is case insensitive: names with the same lower case are the same region.
pub parse_case :
    (f : Feed) (s t : Text) {r : Region}
    → to_ascii_lowercase s ≡ to_ascii_lowercase t
    → parse f s ≡ ok r
    → parse f t ≡ ok r
parse_case f s t {r} e h = parse-some f t (subst (λ x. found f x ≡ some r) e (parse-ok f s h))
