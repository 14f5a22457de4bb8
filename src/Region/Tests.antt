-- ===== src/Region/Tests.antt =====
-- Runs of the region theorems.
use preconfs_client.Prelude.{◌≡◌, ◌≢◌, ◌↔◌, ◌⊎◌, codes, to_ascii_lowercase, ok, err, All}
use preconfs_client.Proto.{BamRegion}
use preconfs_client.Feed.{Feed, Region, unknown_region, regions}
use preconfs_client.Region.{join, parse, from_str, display}
use preconfs_client.Region.Names.{IsListed, IsNamed, parse_cases}
use preconfs_client.Region.RoundTrip.{from_str-display, from_str_iff}

abbrev dublin : Region
dublin = Region.bam BamRegion.dub

from_str-display_example : from_str (display dublin) ≡ ok dublin
from_str-display_example = from_str-display dublin (λ e. cc)

from_str_iff_example :
    (from_str (codes "BAM:Dub") ≡ ok dublin)
    ↔ ((to_ascii_lowercase (codes "BAM:Dub") ≡ display dublin) × IsListed dublin)
from_str_iff_example = from_str_iff (codes "BAM:Dub") dublin

parse_cases_example :
    ((r : Region) × (parse Feed.harmonic (codes "DFW") ≡ ok r)
      × IsNamed Feed.harmonic (codes "dfw") r)
    ⊎ ((parse Feed.harmonic (codes "DFW")
          ≡ err (
              unknown_region Feed.harmonic
                (codes "DFW")
                (join (codes ", ") (regions Feed.harmonic))))
        × All (λ n. n ≢ codes "dfw") (regions Feed.harmonic))
parse_cases_example = parse_cases Feed.harmonic (codes "DFW")
