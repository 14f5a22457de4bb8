-- ===== src/Region/Suite.antt =====
-- preconfs-client/src/feed.rs: the unit tests of the module, each as the product of what it asserts.
use preconfs_client.Prelude.{
  ◌≡◌, refl, sym, ap, ◌∙◌, Bool, true, false, false≢true, ◌||◌, ◌&&◌, ◌==◌, [], ◌∷◌, Text, codes,
  length, to_ascii_lowercase, to_ascii_uppercase, lowercase-uppercase, Unwrapped, Unwrapped-ok,
  UnwrappedErr, is_ok, All, All-map, map-eq-All, Result-cases, inl, inr,
}
use preconfs_client.Feed.{
  Feed, RegionError, unknown_feed, unknown_region, format, regions, from_str as feed_from_str,
  display as feed_display,
}
use preconfs_client.Region.{parse, feed, name, from_str, display, found}
use preconfs_client.Region.Names.{parse_case, parse-IsNamed}
use preconfs_client.Region.RoundTrip.{from_str-display}
use preconfs_client.Texts.{region_error}

-- one round of the loops of the first test
abbrev RoundTrips : Feed → Text → Type 0
RoundTrips f listed = Unwrapped (parse f listed) (λ region.
    (feed region ≡ f)
    × (name region ≡ listed)
    × Unwrapped (parse f (to_ascii_uppercase listed)) (λ again. again ≡ region)
    × Unwrapped (from_str (display region)) (λ again. again ≡ region))

abbrev EveryListedRegionRoundTripsThroughItsName : Type 0
EveryListedRegionRoundTripsThroughItsName =
    All (λ f. All (RoundTrips f) (regions f)) (Feed.harmonic ∷ Feed.bam ∷ [])
    × (length (regions Feed.harmonic) ≡ 7)
    × (length (regions Feed.bam) ≡ 15)

-- What the round trips rest on: a name in lower case that is the name of a region.
abbrev seen : Feed → Text → Text × Bool
seen f s = (to_ascii_lowercase s, is_ok (parse f s))

abbrev wanted : Feed → Text → Text × Bool
wanted f s = (s, true)

abbrev IsAccepted : Feed → Text → Type 0
IsAccepted f s = seen f s ≡ wanted f s

IsAccepted-RoundTrips : (f : Feed) (s : Text) → IsAccepted f s → RoundTrips f s
IsAccepted-RoundTrips f s h = elim (Result-cases (parse f s)) [
  | inl (r, is_r) ↦
      let (of_feed, named, listed) = parse-IsNamed f s is_r in
      Unwrapped-ok _ is_r (
        of_feed,
        named ∙ ap (λ p. p.0) h,
        Unwrapped-ok (λ again. again ≡ r)
            (parse_case f s (to_ascii_uppercase s) (sym (lowercase-uppercase s)) is_r) refl,
        Unwrapped-ok (λ again. again ≡ r) (from_str-display r listed) refl,
      )
  | inr (e, is_e) ↦ absurd (false≢true (sym (ap is_ok is_e) ∙ ap (λ p. p.1) h))
]

names_parse : (f : Feed) → All (IsAccepted f) (regions f)
unfolding regions parse found
names_parse Feed.harmonic =
    map-eq-All (seen Feed.harmonic) (wanted Feed.harmonic) (regions Feed.harmonic) refl
names_parse Feed.bam = map-eq-All (seen Feed.bam) (wanted Feed.bam) (regions Feed.bam) refl

every_listed_region_round_trips_through_its_name : EveryListedRegionRoundTripsThroughItsName
unfolding regions
every_listed_region_round_trips_through_its_name = (
  (
    All-map _ _ (IsAccepted-RoundTrips Feed.harmonic) (regions Feed.harmonic)
        (names_parse Feed.harmonic),
    (All-map _ _ (IsAccepted-RoundTrips Feed.bam) (regions Feed.bam) (names_parse Feed.bam), tt),
  ),
  refl,
  refl,
)

-- `str::starts_with` and `str::contains`
abbrev starts_with : Text → Text → Bool
starts_with s [] = true
starts_with [] (c ∷ prefix) = false
starts_with (b ∷ s) (c ∷ prefix) = b == c && starts_with s prefix

abbrev contains : Text → Text → Bool
contains [] pattern = starts_with [] pattern
contains (b ∷ s) pattern = starts_with (b ∷ s) pattern || contains s pattern

-- the pattern `RegionError::UnknownRegion { feed: Feed::Harmonic, .. }`
abbrev is_unknown_harmonic : RegionError → Bool
is_unknown_harmonic (unknown_region Feed.harmonic given expected) = true
is_unknown_harmonic _ = false

-- `debug` is what `{:?}` prints of a text.
abbrev UnknownNamesAreRejectedWithTheExpectedList : (Text → Text) → Type 0
UnknownNamesAreRejectedWithTheExpectedList debug =
    UnwrappedErr (parse Feed.harmonic (codes "dfw")) (λ error.
      (is_unknown_harmonic error ≡ true)
      × (contains (region_error debug error) (codes "ams, ewr") ≡ true))
    × UnwrappedErr (feed_from_str (codes "shreds")) (λ error. error ≡ unknown_feed (codes "shreds"))
    × UnwrappedErr (from_str (codes "ams")) (λ error. error ≡ format (codes "ams"))

unknown_names_are_rejected_with_the_expected_list :
    (debug : Text → Text) → UnknownNamesAreRejectedWithTheExpectedList debug
unfolding parse found feed_from_str from_str region_error regions feed_display
unknown_names_are_rejected_with_the_expected_list debug = ((refl, refl), refl, refl)
