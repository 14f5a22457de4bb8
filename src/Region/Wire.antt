-- ===== src/Region/Wire.antt =====
-- A region on the wire, by the schema preconfs-proto/proto/preconfs.proto.
use preconfs_client.Prelude.{◌≡◌, refl, pos}
use preconfs_client.Proto.{HarmonicRegion, BamRegion, RequestRegion, harmonic_region, bam_region}
use preconfs_client.Feed.{Region}
use preconfs_client.Region.{into_proto}

-- What the schema gives a region: the field of the oneof of its feed, with the number of the enum there.
abbrev pub IsWireOf : Region → RequestRegion → Type 0
IsWireOf (Region.harmonic HarmonicRegion.unspecified) wire = wire ≡ harmonic_region (pos 0)
IsWireOf (Region.harmonic HarmonicRegion.ams) wire = wire ≡ harmonic_region (pos 1)
IsWireOf (Region.harmonic HarmonicRegion.ewr) wire = wire ≡ harmonic_region (pos 2)
IsWireOf (Region.harmonic HarmonicRegion.fra) wire = wire ≡ harmonic_region (pos 3)
IsWireOf (Region.harmonic HarmonicRegion.lon) wire = wire ≡ harmonic_region (pos 4)
IsWireOf (Region.harmonic HarmonicRegion.tyo) wire = wire ≡ harmonic_region (pos 5)
IsWireOf (Region.harmonic HarmonicRegion.sgp) wire = wire ≡ harmonic_region (pos 6)
IsWireOf (Region.harmonic HarmonicRegion.slc) wire = wire ≡ harmonic_region (pos 7)
IsWireOf (Region.bam BamRegion.unspecified) wire = wire ≡ bam_region (pos 0)
IsWireOf (Region.bam BamRegion.ams) wire = wire ≡ bam_region (pos 1)
IsWireOf (Region.bam BamRegion.dfw) wire = wire ≡ bam_region (pos 2)
IsWireOf (Region.bam BamRegion.dub) wire = wire ≡ bam_region (pos 3)
IsWireOf (Region.bam BamRegion.ewr) wire = wire ≡ bam_region (pos 4)
IsWireOf (Region.bam BamRegion.fra) wire = wire ≡ bam_region (pos 5)
IsWireOf (Region.bam BamRegion.hkg) wire = wire ≡ bam_region (pos 6)
IsWireOf (Region.bam BamRegion.iad) wire = wire ≡ bam_region (pos 7)
IsWireOf (Region.bam BamRegion.lax) wire = wire ≡ bam_region (pos 8)
IsWireOf (Region.bam BamRegion.lon) wire = wire ≡ bam_region (pos 9)
IsWireOf (Region.bam BamRegion.pit) wire = wire ≡ bam_region (pos 10)
IsWireOf (Region.bam BamRegion.sea) wire = wire ≡ bam_region (pos 11)
IsWireOf (Region.bam BamRegion.sin) wire = wire ≡ bam_region (pos 12)
IsWireOf (Region.bam BamRegion.slc) wire = wire ≡ bam_region (pos 13)
IsWireOf (Region.bam BamRegion.sqq) wire = wire ≡ bam_region (pos 14)
IsWireOf (Region.bam BamRegion.tyo) wire = wire ≡ bam_region (pos 15)

pub into_proto-IsWireOf : (region : Region) → IsWireOf region (into_proto region)
unfolding into_proto
into_proto-IsWireOf (Region.harmonic HarmonicRegion.unspecified) = refl
into_proto-IsWireOf (Region.harmonic HarmonicRegion.ams) = refl
into_proto-IsWireOf (Region.harmonic HarmonicRegion.ewr) = refl
into_proto-IsWireOf (Region.harmonic HarmonicRegion.fra) = refl
into_proto-IsWireOf (Region.harmonic HarmonicRegion.lon) = refl
into_proto-IsWireOf (Region.harmonic HarmonicRegion.tyo) = refl
into_proto-IsWireOf (Region.harmonic HarmonicRegion.sgp) = refl
into_proto-IsWireOf (Region.harmonic HarmonicRegion.slc) = refl
into_proto-IsWireOf (Region.bam BamRegion.unspecified) = refl
into_proto-IsWireOf (Region.bam BamRegion.ams) = refl
into_proto-IsWireOf (Region.bam BamRegion.dfw) = refl
into_proto-IsWireOf (Region.bam BamRegion.dub) = refl
into_proto-IsWireOf (Region.bam BamRegion.ewr) = refl
into_proto-IsWireOf (Region.bam BamRegion.fra) = refl
into_proto-IsWireOf (Region.bam BamRegion.hkg) = refl
into_proto-IsWireOf (Region.bam BamRegion.iad) = refl
into_proto-IsWireOf (Region.bam BamRegion.lax) = refl
into_proto-IsWireOf (Region.bam BamRegion.lon) = refl
into_proto-IsWireOf (Region.bam BamRegion.pit) = refl
into_proto-IsWireOf (Region.bam BamRegion.sea) = refl
into_proto-IsWireOf (Region.bam BamRegion.sin) = refl
into_proto-IsWireOf (Region.bam BamRegion.slc) = refl
into_proto-IsWireOf (Region.bam BamRegion.sqq) = refl
into_proto-IsWireOf (Region.bam BamRegion.tyo) = refl
