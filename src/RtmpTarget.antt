-- ===== src/RtmpTarget.antt =====
-- src/rtmp-connection.hpp and src/rtmp-connection.cpp: the address of an RTMP destination. A text
-- is the list of its bytes, and `std::isalnum` is that of the "C" locale.
pub mod Credentials
pub mod Host
pub mod ReadBack
mod Tests
use obs_live_delay_plugin.Diagnostic.{diagnostic_error, DiagnosticCode}
use obs_live_delay_plugin.Base.{
  List, ℕ, Option, String, Result, Bool, if◌then◌else◌, ◌∷◌, none, ◌++◌, err, some, leb, ◌||◌, ltb,
  ◌/◌, true, suc, [], ◌==◌, false, is_empty, ok, take, ◌&&◌, ◌+◌, ◌%◌, not, drop,
}

pub record RtmpTarget : Type 0 where
  pub server_url : List ℕ
  pub stream_key : List ℕ
  pub username : List ℕ
  pub password : List ℕ

abbrev pub is_between : (low high byte : ℕ) → Bool
is_between low high byte = leb low byte && leb byte high

abbrev pub is_alnum : ℕ → Bool
is_alnum byte = is_between 48 57 byte || (is_between 65 90 byte || is_between 97 122 byte)

unfoldable pub is_unreserved : ℕ → Bool
is_unreserved byte =
    is_alnum byte || ((byte == b'-') || ((byte == b'.') || ((byte == b'_') || (byte == b'~'))))

-- `digits[digit]`.
abbrev pub hex_digit : ℕ → ℕ
hex_digit digit = if ltb digit 10 then 48 + digit else 55 + digit

unfoldable pub percent_encode : List ℕ → List ℕ
percent_encode [] = []
percent_encode (byte ∷ value) =
    let rest = percent_encode value in
    if is_unreserved byte
    then byte ∷ rest
    else b'%' ∷ hex_digit (byte / 16) ∷ hex_digit (byte % 16) ∷ rest

-- The test that `find` makes at a position.
unfoldable pub begins_with : (needle text : List ℕ) → Bool
begins_with [] text = true
begins_with (n ∷ needle) [] = false
begins_with (n ∷ needle) (x ∷ text) = (n == x) && begins_with needle text

-- `text.find(needle)` for a needle that is not empty.
unfoldable pub find_text : (needle text : List ℕ) → Option ℕ
find_text needle [] = none
find_text needle (x ∷ text) =
    let later = find_text needle text in
    if begins_with needle (x ∷ text)
    then some 0
    else elim later [ none ↦ none | some i ↦ some (suc i) ]

abbrev pub scheme_mark : List ℕ
scheme_mark = b':' ∷ b'/' ∷ b'/' ∷ []

abbrev pub rtmp_scheme : List ℕ
rtmp_scheme = b'r' ∷ b't' ∷ b'm' ∷ b'p' ∷ []

abbrev pub rtmps_scheme : List ℕ
rtmps_scheme = b'r' ∷ b't' ∷ b'm' ∷ b'p' ∷ b's' ∷ []

unfoldable pub eq_text : (first second : List ℕ) → Bool
eq_text [] [] = true
eq_text (x ∷ first) (y ∷ second) = (x == y) && eq_text first second
eq_text _ _ = false

-- The loop that removes slashes from the end, which stops behind the scheme.
unfoldable pub trim_end : List ℕ → List ℕ
trim_end [] = []
trim_end (x ∷ text) =
    let rest = trim_end text in if (x == b'/') && is_empty rest then [] else x ∷ rest

-- The loop that removes slashes from the front of the key.
unfoldable pub trim_front : List ℕ → List ℕ
trim_front [] = []
trim_front (x ∷ text) = let rest = trim_front text in if x == b'/' then rest else x ∷ text

-- Whether the first `@` stands in the authority, which the first slash ends.
abbrev pub at_before : (existing_at authority_end : Option ℕ) → Bool
at_before none authority_end = false
at_before (some at) none = true
at_before (some at) (some end) = ltb at end

-- The credentials in front of `@`.
abbrev pub user_info : RtmpTarget → List ℕ
user_info target =
    percent_encode target.username
    ++ (if is_empty target.password then [] else b':' ∷ percent_encode target.password)

abbrev pub target_error {ℓ} : {A : Type ℓ} → String → Result A
target_error message = err (diagnostic_error DiagnosticCode.rtmp_target_invalid message)

-- The server from the end of its scheme on, with the credentials.
abbrev pub authority : RtmpTarget → List ℕ → Result (List ℕ)
authority target rest =
    if is_empty target.username
    then ok rest
    else if at_before (find_text (b'@' ∷ []) rest) (find_text (b'/' ∷ []) rest)
    then target_error "RTMP URL already contains credentials"
    else ok (user_info target ++ (b'@' ∷ rest))

-- The end of `build_rtmp_publish_url`, for a server in front of its credentials and behind.
abbrev pub publish_url : RtmpTarget → List ℕ → Result (List ℕ) → Result (List ℕ)
publish_url target scheme (err message) = err message
publish_url target scheme (ok server) =
    let key = trim_front target.stream_key in
    if is_empty key
    then target_error "RTMP stream key is empty"
    else ok (scheme ++ (scheme_mark ++ (server ++ (b'/' ∷ key))))

abbrev pub build_behind : RtmpTarget → Option ℕ → Result (List ℕ)
build_behind target none = target_error "RTMP server URL has no scheme"
build_behind target (some scheme_end) =
    let scheme = take scheme_end target.server_url in
    if not (eq_text scheme rtmp_scheme) && not (eq_text scheme rtmps_scheme)
    then target_error "Only rtmp:// and rtmps:// server URLs are supported"
    else publish_url target scheme
        (authority target (trim_end (drop (scheme_end + 3) target.server_url)))

unfoldable pub build_rtmp_publish_url : RtmpTarget → Result (List ℕ)
build_rtmp_publish_url target =
    if is_empty target.server_url
    then target_error "RTMP server URL is empty"
    else if is_empty target.stream_key
    then target_error "RTMP stream key is empty"
    else build_behind target (find_text scheme_mark target.server_url)
