-- ===== src/Multistream/Platforms.antt =====
-- src/multistream-config.cpp: the platforms, their identifiers and names, the migration of the first
-- format and the labels that may be logged.
use obs_live_delay_plugin.Multistream.Validation.{or_false}
use obs_live_delay_plugin.RtmpTarget.Credentials.{eq_text-eq}
use obs_live_delay_plugin.Base.{
  ◌∷◌, [], some, none, List, Bool, ◌≡◌, ℕ, Option, not, if◌then◌else◌, ◌↔◌, is_empty, refl, ◌&&◌,
  ◌||◌, ◌∙◌, is_some, ap, ◌++◌, true, false, ◌⊎◌, if_cases, inl, inr,
}
use obs_live_delay_plugin.Multistream.{
  DestinationPlatform, MultistreamDestination, MultistreamConfiguration, current_version,
}
use obs_live_delay_plugin.RtmpTarget.{RtmpTarget, eq_text, find_text, scheme_mark}

abbrev pub destination_platform_id : DestinationPlatform → List ℕ
destination_platform_id DestinationPlatform.custom_rtmp =
    b'c' ∷ b'u' ∷ b's' ∷ b't' ∷ b'o' ∷ b'm' ∷ []
destination_platform_id DestinationPlatform.twitch = b't' ∷ b'w' ∷ b'i' ∷ b't' ∷ b'c' ∷ b'h' ∷ []
destination_platform_id DestinationPlatform.you_tube =
    b'y' ∷ b'o' ∷ b'u' ∷ b't' ∷ b'u' ∷ b'b' ∷ b'e' ∷ []
destination_platform_id DestinationPlatform.kick = b'k' ∷ b'i' ∷ b'c' ∷ b'k' ∷ []

abbrev pub destination_platform_name : DestinationPlatform → List ℕ
destination_platform_name DestinationPlatform.custom_rtmp =
    b'C' ∷ b'u' ∷ b's' ∷ b't' ∷ b'o' ∷ b'm' ∷ 32 ∷ b'R' ∷ b'T' ∷ b'M' ∷ b'P' ∷ []
destination_platform_name DestinationPlatform.twitch = b'T' ∷ b'w' ∷ b'i' ∷ b't' ∷ b'c' ∷ b'h' ∷ []
destination_platform_name DestinationPlatform.you_tube =
    b'Y' ∷ b'o' ∷ b'u' ∷ b'T' ∷ b'u' ∷ b'b' ∷ b'e' ∷ []
destination_platform_name DestinationPlatform.kick = b'K' ∷ b'i' ∷ b'c' ∷ b'k' ∷ []

-- The loop of `parse_destination_platform`.
unfoldable pub parse_among : List DestinationPlatform → List ℕ → Option DestinationPlatform
parse_among [] value = none
parse_among (candidate ∷ candidates) value =
    let rest = parse_among candidates value in
    if eq_text value (destination_platform_id candidate) then some candidate else rest

abbrev pub all_platforms : List DestinationPlatform
all_platforms =
    DestinationPlatform.custom_rtmp ∷ DestinationPlatform.twitch ∷ DestinationPlatform.you_tube
    ∷ DestinationPlatform.kick ∷ []

unfoldable pub parse_destination_platform : List ℕ → Option DestinationPlatform
parse_destination_platform value = parse_among all_platforms value

pub record LegacyMultistreamSettings : Type 0 where
  pub enabled : Bool
  pub name : List ℕ
  pub target : RtmpTarget

unfoldable pub migrate_multistream : LegacyMultistreamSettings → MultistreamConfiguration
migrate_multistream legacy = record {
  version = current_version;
  secondary_destinations =
      record {
        id = b's' ∷ b'e' ∷ b'c' ∷ b'o' ∷ b'n' ∷ b'd' ∷ b'a' ∷ b'r' ∷ b'y' ∷ b'_' ∷ b'2' ∷ [];
        name = legacy.name;
        target = legacy.target;
        platform = DestinationPlatform.custom_rtmp;
        enabled = legacy.enabled;
      }
      ∷ [];
}

-- A secret that the name contains.
abbrev pub shows_secret : (name secret : List ℕ) → Bool
shows_secret name secret = not (is_empty secret) && is_some (find_text secret name)

unfoldable pub safe_destination_label : MultistreamDestination → List ℕ
safe_destination_label d =
    let fallback = destination_platform_name d.platform in
    if is_empty d.name || is_some (find_text scheme_mark d.name)
    then fallback
    else if shows_secret d.name d.target.stream_key
        || (shows_secret d.name d.target.username || shows_secret d.name d.target.password)
    then fallback
    else if eq_text d.name fallback
    then fallback
    else fallback ++ (32 ∷ b'-' ∷ 32 ∷ d.name)

some_platform : (p q : DestinationPlatform) → some p ≡ some q → p ≡ q
some_platform p q e = cc

parsed_by :
    (value : List ℕ) (candidate platform : DestinationPlatform) (rest : Option DestinationPlatform)
    (test : Bool)
    → eq_text value (destination_platform_id candidate) ≡ test
    → (rest ≡ some platform → value ≡ destination_platform_id platform)
    → (if test then some candidate else rest) ≡ some platform
    → value ≡ destination_platform_id platform
parsed_by value candidate platform rest true same later e =
    eq_text-eq value (destination_platform_id candidate) same
    ∙ ap destination_platform_id (some_platform candidate platform e)
parsed_by value candidate platform rest false same later e = later e

eq_id-parse_among :
    (value : List ℕ) (candidates : List DestinationPlatform) (platform : DestinationPlatform)
    → parse_among candidates value ≡ some platform
    → value ≡ destination_platform_id platform
unfolding parse_among
eq_id-parse_among value [] platform e = cc
eq_id-parse_among value (c ∷ cs) platform e =
    parsed_by value c platform (parse_among cs value) (eq_text value (destination_platform_id c))
      refl (eq_id-parse_among value cs platform) e

parse-id :
    (platform : DestinationPlatform)
    → parse_destination_platform (destination_platform_id platform) ≡ some platform
unfolding parse_destination_platform parse_among eq_text
parse-id DestinationPlatform.custom_rtmp = refl
parse-id DestinationPlatform.twitch = refl
parse-id DestinationPlatform.you_tube = refl
parse-id DestinationPlatform.kick = refl

-- A text parses as a platform exactly if it is the identifier of that platform.
parse_destination_platform_iff :
    (value : List ℕ) (platform : DestinationPlatform)
    → (parse_destination_platform value ≡ some platform)
      ↔ (value ≡ destination_platform_id platform)
unfolding parse_destination_platform
parse_destination_platform_iff value platform = (
  eq_id-parse_among value all_platforms platform,
  λ e. ap parse_destination_platform e ∙ parse-id platform,
)

-- A name that shows no address and none of the secrets of its target.
abbrev IsDiscreet : MultistreamDestination → Type 0
IsDiscreet d =
    (is_some (find_text scheme_mark d.name) ≡ false)
    × (shows_secret d.name d.target.stream_key ≡ false)
    × (shows_secret d.name d.target.username ≡ false)
    × (shows_secret d.name d.target.password ≡ false)

abbrev IsSafeLabel : MultistreamDestination → List ℕ → Type 0
IsSafeLabel d label =
    (label ≡ destination_platform_name d.platform)
    ⊎ (IsDiscreet d × (label ≡ destination_platform_name d.platform ++ (32 ∷ b'-' ∷ 32 ∷ d.name)))

-- The label of a destination is the name of its platform, or that and the name of the destination,
-- in which neither an address nor the key, the user or the password of the target occurs.
safe_destination_label-IsSafeLabel :
    (d : MultistreamDestination) → IsSafeLabel d (safe_destination_label d)
unfolding safe_destination_label
safe_destination_label-IsSafeLabel d =
    if_cases (IsSafeLabel d) (is_empty d.name || is_some (find_text scheme_mark d.name))
      (λ e. inl refl)
      (λ shown.
        if_cases (IsSafeLabel d)
          (shows_secret d.name d.target.stream_key
            || (shows_secret d.name d.target.username || shows_secret d.name d.target.password))
          (λ e. inl refl)
          (λ hidden.
            if_cases (IsSafeLabel d) (eq_text d.name (destination_platform_name d.platform))
              (λ e. inl refl)
              (λ e.
                (let (first, others) =
                    or_false (shows_secret d.name d.target.stream_key) _ hidden in
                  let (second, third) = or_false (shows_secret d.name d.target.username) _ others in
                  inr (((or_false (is_empty d.name) _ shown).1, first, second, third), refl)))))
