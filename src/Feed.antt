-- ===== src/Feed.antt =====
-- preconfs-client/src/feed.rs: the feeds, their region tables, and the errors of the module.
use preconfs_client.Prelude.{
  ◌≡◌, Bool, true, false, List, [], ◌∷◌, map, arith, Text, codes, text_eq, to_ascii_lowercase,
  Result, ok, err, if◌then◌else◌,
}
use preconfs_client.Proto.{HarmonicRegion, BamRegion}

pub data Feed : Type 0 where
  harmonic bam : Feed

pub data Region : Type 0 where
  harmonic : HarmonicRegion → Region
  bam : BamRegion → Region

pub data RegionError : Type 0 where
  unknown_feed : Text → RegionError
  unknown_region : (feed : Feed) (name expected : Text) → RegionError
  format : Text → RegionError
  wrong_feed : (expected : Feed) (region : Region) → RegionError

abbrev pub harmonic_table : List (Text × HarmonicRegion)
harmonic_table =
    (codes "ams", HarmonicRegion.ams)
    ∷ (codes "ewr", HarmonicRegion.ewr)
    ∷ (codes "fra", HarmonicRegion.fra)
    ∷ (codes "lon", HarmonicRegion.lon)
    ∷ (codes "tyo", HarmonicRegion.tyo)
    ∷ (codes "sgp", HarmonicRegion.sgp)
    ∷ (codes "slc", HarmonicRegion.slc)
    ∷ []

abbrev pub bam_table : List (Text × BamRegion)
bam_table =
    (codes "ams", BamRegion.ams)
    ∷ (codes "dfw", BamRegion.dfw)
    ∷ (codes "dub", BamRegion.dub)
    ∷ (codes "ewr", BamRegion.ewr)
    ∷ (codes "fra", BamRegion.fra)
    ∷ (codes "hkg", BamRegion.hkg)
    ∷ (codes "iad", BamRegion.iad)
    ∷ (codes "lax", BamRegion.lax)
    ∷ (codes "lon", BamRegion.lon)
    ∷ (codes "pit", BamRegion.pit)
    ∷ (codes "sea", BamRegion.sea)
    ∷ (codes "sin", BamRegion.sin)
    ∷ (codes "slc", BamRegion.slc)
    ∷ (codes "sqq", BamRegion.sqq)
    ∷ (codes "tyo", BamRegion.tyo)
    ∷ []

unfoldable pub name : Feed → Text
name Feed.harmonic = codes "harmonic"
name Feed.bam = codes "bam"

unfoldable pub regions : Feed → List Text
regions Feed.harmonic = map (λ entry. entry.0) harmonic_table
regions Feed.bam = map (λ entry. entry.0) bam_table

unfoldable pub from_str : Text → Result RegionError Feed
from_str name =
    let lower = to_ascii_lowercase name in
    if text_eq lower (codes "harmonic")
    then ok Feed.harmonic
    else if text_eq lower (codes "bam")
    then ok Feed.bam
    else err (unknown_feed name)

-- Display for Feed
unfoldable pub display : Feed → Text
unfolding name
display f = name f

-- the derived PartialEq
unfoldable pub eq : Feed → Feed → Bool
eq Feed.harmonic Feed.harmonic = true
eq Feed.bam Feed.bam = true
eq _ _ = false

pub eq-true : (a b : Feed) → eq a b ≡ true → a ≡ b
unfolding eq
eq-true a b h = ground arith
