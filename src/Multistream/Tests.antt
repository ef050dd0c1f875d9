-- ===== src/Multistream/Tests.antt =====
-- Tests of a configuration with two destinations beside a primary.
use obs_live_delay_plugin.Multistream.Platforms.{safe_destination_label}
use obs_live_delay_plugin.Base.{◌∷◌, [], some, List, Option, ℕ, ◌≡◌, true, refl}
use obs_live_delay_plugin.Multistream.{
  MultistreamDestination, MultistreamConfiguration, DestinationPlatform,
}
use obs_live_delay_plugin.RtmpTarget.{RtmpTarget, eq_text, find_text, begins_with}

abbrev target_with : (key user : List ℕ) → RtmpTarget
target_with key user = record {
  server_url = b'r' ∷ b't' ∷ b'm' ∷ b'p' ∷ b':' ∷ b'/' ∷ b'/' ∷ b'h' ∷ b'/' ∷ b'a' ∷ [];
  stream_key = key;
  username = user;
  password = [];
}

abbrev destination : (id name key user : List ℕ) → DestinationPlatform → MultistreamDestination
destination id name key user platform = record {
  id = id;
  name = name;
  target = target_with key user;
  platform = platform;
  enabled = true;
}

abbrev two_destinations : MultistreamConfiguration
two_destinations = record {
  version = 2;
  secondary_destinations =
      destination (b's' ∷ b'_' ∷ 49 ∷ []) (b'M' ∷ b'a' ∷ b'i' ∷ b'n' ∷ []) (b'k' ∷ []) (b'u' ∷ [])
        DestinationPlatform.kick
      ∷ destination (b's' ∷ b'_' ∷ 50 ∷ []) (b'O' ∷ b't' ∷ b'h' ∷ b'e' ∷ b'r' ∷ []) (b'y' ∷ []) []
          DestinationPlatform.you_tube
      ∷ [];
}

abbrev primary : Option RtmpTarget
primary = some (target_with (b'p' ∷ []) [])

-- The user is called like the platform, which the label names.
abbrev called_kick : MultistreamDestination
called_kick =
    destination (b's' ∷ []) (b'M' ∷ b'y' ∷ []) (b'q' ∷ []) (b'K' ∷ b'i' ∷ b'c' ∷ b'k' ∷ [])
      DestinationPlatform.kick

label_shows_user :
    safe_destination_label called_kick
    ≡ b'K' ∷ b'i' ∷ b'c' ∷ b'k' ∷ 32 ∷ b'-' ∷ 32 ∷ b'M' ∷ b'y' ∷ []
unfolding safe_destination_label find_text begins_with eq_text
label_shows_user = refl
