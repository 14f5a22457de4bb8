-- ===== src/Region.antt =====
-- preconfs-client/src/feed.rs: what a `Region` does.
pub mod Names
pub mod RoundTrip
pub mod Wire
mod Tests
mod Suite
use mathlib.Core.Option
use preconfs_client.Prelude.{
  Option, none, some, List, [], ◌∷◌, ◌++◌, Text, codes, text_eq, to_ascii_lowercase, pos, ◌==◌,
  Result, ok, err, ◌>>=◌, ok_or, find, map_or, if◌then◌else◌,
}
use preconfs_client.Proto.{
  HarmonicRegion, BamRegion, RequestRegion, harmonic_region, bam_region, harmonic_discriminant,
  bam_discriminant,
}
use preconfs_client.Feed.{
  Feed, Region, RegionError, unknown_region, format, harmonic_table, bam_table, regions,
  from_str as feed_from_str, display as feed_display,
}

-- `[str]::join`
abbrev pub join : Text → List Text → Text
join separator [] = []
join separator (s ∷ []) = s
join separator (s ∷ t ∷ rest) = s ++ (separator ++ join separator (t ∷ rest))

-- the `find` in `parse`
unfoldable pub found : Feed → Text → Option Region
found Feed.harmonic lower =
    Option.map (λ entry. Region.harmonic entry.1)
      (find (λ entry. text_eq entry.0 lower) harmonic_table)
found Feed.bam lower =
    Option.map (λ entry. Region.bam entry.1) (find (λ entry. text_eq entry.0 lower) bam_table)

unfoldable pub parse : Feed → Text → Result RegionError Region
unfolding found regions
parse feed name =
    let lower = to_ascii_lowercase name in
    ok_or (found feed lower) (unknown_region feed name (join (codes ", ") (regions feed)))

unfoldable pub feed : Region → Feed
feed (Region.harmonic region) = Feed.harmonic
feed (Region.bam region) = Feed.bam

unfoldable pub name : Region → Text
name (Region.harmonic region) =
    map_or (codes "unspecified") (λ entry. entry.0)
      (find (λ entry. harmonic_discriminant entry.1 == harmonic_discriminant region) harmonic_table)
name (Region.bam region) =
    map_or (codes "unspecified") (λ entry. entry.0)
      (find (λ entry. bam_discriminant entry.1 == bam_discriminant region) bam_table)

unfoldable pub into_proto : Region → RequestRegion
into_proto (Region.harmonic region) = harmonic_region (pos (harmonic_discriminant region))
into_proto (Region.bam region) = bam_region (pos (bam_discriminant region))

-- `str::split_once(':')`
abbrev pub split_colon : Text → Option (Text × Text)
split_colon [] = none
split_colon (c ∷ s) =
    if c == b':' then some ([], s) else Option.map (λ parts. (c ∷ parts.0, parts.1)) (split_colon s)

unfoldable pub from_str : Text → Result RegionError Region
unfolding parse feed_from_str
from_str value = do
  parts ← ok_or (split_colon value) (format value)
  feed ← feed_from_str parts.0
  parse feed parts.1

-- Display for Region
unfoldable pub display : Region → Text
unfolding feed name feed_display
display region = feed_display (feed region) ++ (b':' ∷ name region)
