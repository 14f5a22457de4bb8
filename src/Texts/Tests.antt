-- ===== src/Texts/Tests.antt =====
-- Texts of errors of regions and filters, a Debug form in quotes.
use preconfs_client.Prelude.{◌≡◌, refl, [], ◌∷◌, ◌++◌, Text, codes, err, map_err, Result}
use preconfs_client.Limits.{too_many_accounts, name_too_long}
use preconfs_client.Feed.{Feed, Region, display}
use preconfs_client.Region.{parse}
use preconfs_client.Texts.{decimal, of_filter, filter_error, region_error}

abbrev quoted : Text → Text
quoted s = (b'"' ∷ []) ++ s ++ (b'"' ∷ [])

accounts_text :
    filter_error quoted (too_many_accounts (codes "dex"))
    ≡ codes "filter dex: too many accounts (max 10000)"
unfolding filter_error of_filter decimal
accounts_text = refl

name_text :
    filter_error quoted (name_too_long (codes "n"))
    ≡ codes "filter name \"n\" is longer than 64 bytes"
unfolding filter_error decimal
name_text = refl

abbrev dallas : Result Text Region
dallas = map_err (region_error quoted) (parse Feed.harmonic (codes "dfw"))

-- Dallas is a BAM region only.
dallas_text :
    dallas
    ≡ err (codes "unknown harmonic region dfw; expected one of ams, ewr, fra, lon, tyo, sgp, slc")
unfolding parse region_error display
dallas_text = refl
