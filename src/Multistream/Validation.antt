-- ===== src/Multistream/Validation.antt =====
-- src/multistream-config.cpp: what an accepted configuration promises.
use obs_live_delay_plugin.Base.{
  ◌∷◌, [], List, Bool, ◌≡◌, if◌then◌else◌, true, false, Every, ◌||◌, not, ℕ, ok, is_empty, refl,
  length, ◌≤◌, Option,
}
use obs_live_delay_plugin.Multistream.{
  MultistreamDestination, MultistreamConfiguration, Seen, valid_identifier, contains, eq_text,
  build_destination_identity, build_rtmp_publish_url, RtmpTarget, current_version, primary_urls,
}

-- The destinations that are enabled.
unfoldable pub enabled_of : List MultistreamDestination → List MultistreamDestination
enabled_of [] = []
enabled_of (d ∷ ds) = let rest = enabled_of ds in if d.enabled then d ∷ rest else rest

-- A destination that can be published to.
pub record IsUsable (d : MultistreamDestination) : Type 0 where
  safe : valid_identifier d.id ≡ true
  named : is_empty d.name ≡ false
  short : length d.name ≤ 80
  publishes : (url : List ℕ) × (build_rtmp_publish_url d.target ≡ ok url)
  identified : (url : List ℕ) × (build_destination_identity d.target ≡ ok url)

-- A destination whose identifier and address are not among those seen.
abbrev pub IsNew : Seen → MultistreamDestination → Type 0
IsNew seen d =
    (contains d.id seen.ids ≡ false)
    × ((url : List ℕ)
        → build_destination_identity d.target ≡ ok url
        → contains url seen.publish_urls ≡ false)

-- Two destinations with different identifiers and addresses.
abbrev pub AreApart : (first second : MultistreamDestination) → Type 0
AreApart d e =
    (eq_text e.id d.id ≡ false)
    × ((u v : List ℕ)
        → build_destination_identity d.target ≡ ok u
        → build_destination_identity e.target ≡ ok v
        → eq_text v u ≡ false)

abbrev pub ArePairwiseApart : List MultistreamDestination → Type 0
ArePairwiseApart [] = Unit
ArePairwiseApart (d ∷ ds) = Every (AreApart d) ds × ArePairwiseApart ds

pub or_false : (a b : Bool) → (a || b) ≡ false → (a ≡ false) × (b ≡ false)
or_false true b e = cc
or_false false b e = (refl, e)

pub not-true : (b : Bool) → not b ≡ false → b ≡ true
not-true true e = refl
not-true false e = cc

-- What a pass of the loop adds to what is seen.
abbrev Adds : Seen → MultistreamDestination → Seen → Type 0
Adds seen d next =
    IsUsable d
    × IsNew seen d
    × ((url : List ℕ) × (build_destination_identity d.target ≡ ok url)
        × (next ≡ record { ids = d.id ∷ seen.ids; publish_urls = url ∷ seen.publish_urls }))

-- What the loop has checked of the destinations that are enabled.
abbrev AreChecked : Seen → List MultistreamDestination → Type 0
AreChecked seen ds = Every IsUsable ds × Every (IsNew seen) ds × ArePairwiseApart ds

abbrev Checked : (seen last : Seen) → List MultistreamDestination → Type 0
Checked seen last ds = AreChecked seen ds × (is_empty ds ≡ true → last ≡ seen)

-- A configuration that can be broadcast to.
pub record IsAccepted (c : MultistreamConfiguration) (primary : Option RtmpTarget) : Type 0 where
  current : c.version ≡ current_version
  slots : length c.secondary_destinations ≤ 2
  any_enabled : is_empty (enabled_of c.secondary_destinations) ≡ false
  usable : Every IsUsable (enabled_of c.secondary_destinations)
  apart : ArePairwiseApart (enabled_of c.secondary_destinations)
  not_primary :
      Every
        (IsNew (record { ids = []; publish_urls = primary_urls primary }))
        (enabled_of c.secondary_destinations)
