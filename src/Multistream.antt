-- ===== src/Multistream.antt =====
-- src/multistream-config.hpp and src/multistream-config.cpp: the secondary destinations.
pub mod Validation
pub mod Platforms
mod Tests
use obs_live_delay_plugin.Diagnostic.{diagnostic_error, DiagnosticCode}
use obs_live_delay_plugin.RtmpTarget.{RtmpTarget, build_rtmp_publish_url, is_alnum, eq_text}
use obs_live_delay_plugin.Base.{
  List, ℕ, String, Result, Option, Bool, err, if◌then◌else◌, ok, [], true, not, false, ◌∷◌, some,
  is_empty, ◌||◌, ◌&&◌, ◌>>=◌, none, ◌==◌, ltb, length,
}

pub data DestinationPlatform : Type 0 where
  custom_rtmp twitch you_tube kick : DestinationPlatform

pub record MultistreamDestination : Type 0 where
  pub id : List ℕ
  pub name : List ℕ
  pub target : RtmpTarget
  pub platform : DestinationPlatform
  pub enabled : Bool

pub record MultistreamConfiguration : Type 0 where
  pub version : ℕ
  pub secondary_destinations : List MultistreamDestination

abbrev pub current_version : ℕ
current_version = 2

abbrev pub is_identifier_byte : ℕ → Bool
is_identifier_byte byte = is_alnum byte || ((byte == b'-') || (byte == b'_'))

abbrev pub all_bytes : (ℕ → Bool) → List ℕ → Bool
all_bytes test [] = true
all_bytes test (byte ∷ text) = test byte && all_bytes test text

unfoldable pub valid_identifier : List ℕ → Bool
valid_identifier value = not (is_empty value) && all_bytes is_identifier_byte value

unfoldable pub build_destination_identity : RtmpTarget → Result (List ℕ)
build_destination_identity target =
    build_rtmp_publish_url (record target { username = []; password = [] })

-- `set.count(text) != 0`.
unfoldable pub contains : List ℕ → List (List ℕ) → Bool
contains text [] = false
contains text (t ∷ texts) = eq_text text t || contains text texts

-- The sets `ids` and `publish_urls`.
pub record Seen : Type 0 where
  pub ids : List (List ℕ)
  pub publish_urls : List (List ℕ)

abbrev pub configuration_error {ℓ} : {A : Type ℓ} → String → Result A
configuration_error message =
    err (diagnostic_error DiagnosticCode.multistream_configuration_invalid message)

abbrev pub insert_identity : Seen → List ℕ → Result (List ℕ) → Result Seen
insert_identity seen id (err message) =
    configuration_error "A secondary RTMP destination is incomplete or unsupported"
insert_identity seen id (ok identity) =
    if contains identity seen.publish_urls
    then configuration_error "Each enabled destination must use a different server and stream key"
    else ok (record { ids = id ∷ seen.ids; publish_urls = identity ∷ seen.publish_urls })

abbrev pub check_target : Seen → MultistreamDestination → Result (List ℕ) → Result Seen
check_target seen destination (err message) =
    configuration_error "A secondary RTMP destination is incomplete or unsupported"
check_target seen destination (ok url) =
    insert_identity seen destination.id (build_destination_identity destination.target)

-- One pass of the loop for a destination that is enabled.
unfoldable pub check_destination : Seen → MultistreamDestination → Result Seen
check_destination seen destination =
    if not (valid_identifier destination.id) || contains destination.id seen.ids
    then configuration_error "Each enabled secondary destination needs a unique safe identifier"
    else if is_empty destination.name || ltb 80 (length destination.name)
    then configuration_error
        "Each enabled secondary destination needs a display name of 1 to 80 characters"
    else check_target seen destination (build_rtmp_publish_url destination.target)

unfoldable pub check_destinations : Seen → List MultistreamDestination → Result Seen
check_destinations seen [] = ok seen
check_destinations seen (destination ∷ destinations) =
    if destination.enabled
    then check_destination seen destination >>= (λ next. check_destinations next destinations)
    else check_destinations seen destinations

abbrev pub primary_urls : Option RtmpTarget → List (List ℕ)
primary_urls none = []
primary_urls (some primary) = elim (build_destination_identity primary) [
  | err message ↦ []
  | ok url ↦ url ∷ []
]

abbrev pub require_one : Seen → Result (Unit {0})
require_one seen =
    if is_empty seen.ids
    then configuration_error "Native Multistream needs at least one enabled secondary destination"
    else ok tt

unfoldable pub validate_configuration :
    MultistreamConfiguration → Option RtmpTarget → Result (Unit {0})
validate_configuration configuration primary =
    if not (configuration.version == current_version)
    then configuration_error
        "The saved multistream destination format is not supported by this plugin version"
    else if ltb 2 (length configuration.secondary_destinations)
    then configuration_error
        "Native Multistream supports exactly two optional secondary destination slots"
    else check_destinations (record { ids = []; publish_urls = primary_urls primary })
        configuration.secondary_destinations
      >>= require_one
