-- ===== src/RtmpTarget/ReadBack.antt =====
-- src/rtmp-connection.cpp: what is read of an address that `build_rtmp_publish_url` makes.
use obs_live_delay_plugin.RtmpTarget.Host.{clear_host}
use obs_live_delay_plugin.RtmpTarget.Credentials.{
  read_credentials, read_user_info, split_at, eq_text-eq, split_at-front, info_of-Differs,
  read_user_info-info_of, Differs, read_host,
}
use obs_live_delay_plugin.RtmpTarget.{
  find_text, RtmpTarget, build_rtmp_publish_url, begins_with, scheme_mark, build_behind,
  rtmp_scheme, rtmps_scheme, publish_url, trim_front, authority, user_info, eq_text, at_before,
  trim_end,
}
use obs_live_delay_plugin.Base.{
  IsByte, ◌∷◌, [], some, none, List, ℕ, Option, ◌≡◌, ◌++◌, Result, is_empty, false, ok, refl, ◌⊎◌,
  Every, inl, err, inr, Bool, if◌then◌else◌, sym, ok_inj, true, not_refused, not, take, ◌&&◌, ap,
  Bool-cases, ◌∙◌, drop, append_assoc, ◌+◌, subst,
}

find_behind_rtmp :
    (rest : List ℕ) → find_text scheme_mark (rtmp_scheme ++ (scheme_mark ++ rest)) ≡ some 4
unfolding find_text begins_with
find_behind_rtmp rest = refl

find_behind_rtmps :
    (rest : List ℕ) → find_text scheme_mark (rtmps_scheme ++ (scheme_mark ++ rest)) ≡ some 5
unfolding find_text begins_with
find_behind_rtmps rest = refl

-- Either of the two schemes.
abbrev IsScheme : List ℕ → Type 0
IsScheme scheme = (scheme ≡ rtmp_scheme) ⊎ (scheme ≡ rtmps_scheme)

read_credentials-scheme :
    (scheme rest : List ℕ)
    → IsScheme scheme
    → read_credentials (scheme ++ (scheme_mark ++ rest)) ≡ read_user_info ((split_at b'@' rest).0)
unfolding read_credentials
read_credentials-scheme scheme rest (inl e) = rw e (rw (find_behind_rtmp rest) refl)
read_credentials-scheme scheme rest (inr e) = rw e (rw (find_behind_rtmps rest) refl)

-- The address in its parts.
abbrev address : (scheme server key : List ℕ) → List ℕ
address scheme server key = scheme ++ (scheme_mark ++ (server ++ (b'/' ∷ key)))

publish_url-ok :
    (target : RtmpTarget) (scheme : List ℕ) (authorised : Result (List ℕ)) (url : List ℕ)
    → publish_url target scheme authorised ≡ ok url
    → (server : List ℕ) × (authorised ≡ ok server)
      × (url ≡ address scheme server (trim_front target.stream_key))
publish_url-ok target scheme (err message) url e = cc
publish_url-ok target scheme (ok server) url e =
    (server, refl, sym (ok_inj (not_refused (is_empty (trim_front target.stream_key)) _ _ e).1))

named_branch :
    (unnamed : Bool) (a b : Result (List ℕ)) {r : Result (List ℕ)}
    → unnamed ≡ false
    → (if unnamed then a else b) ≡ r
    → b ≡ r
named_branch true a b f e = cc
named_branch false a b f e = e

second_test : (a b : Bool) → a ≡ false → (not a && not b) ≡ false → b ≡ true
second_test true b f e = cc
second_test false true f e = refl
second_test false false f e = cc

is_scheme :
    (scheme : List ℕ)
    → (not (eq_text scheme rtmp_scheme) && not (eq_text scheme rtmps_scheme)) ≡ false
    → IsScheme scheme
is_scheme scheme e = elim (Bool-cases (eq_text scheme rtmp_scheme)) [
  | inl f ↦ inl (eq_text-eq scheme rtmp_scheme f)
  | inr f ↦ inr (
      eq_text-eq scheme rtmps_scheme
        (second_test (eq_text scheme rtmp_scheme) (eq_text scheme rtmps_scheme) f e))
]

authority-ok :
    (target : RtmpTarget) (rest server : List ℕ)
    → is_empty target.username ≡ false
    → authority target rest ≡ ok server
    → (at_before (find_text (b'@' ∷ []) rest) (find_text (b'/' ∷ []) rest) ≡ false)
      × (server ≡ user_info target ++ (b'@' ∷ rest))
authority-ok target rest server named e =
    let (clear, made) =
      not_refused (at_before (find_text (b'@' ∷ []) rest) (find_text (b'/' ∷ []) rest)) _ _
        (named_branch (is_empty target.username) _ _ named e) in
    (clear, sym (ok_inj made))

build_behind-ok :
    (target : RtmpTarget) (scheme_end : Option ℕ) (url : List ℕ)
    → build_behind target scheme_end ≡ ok url
    → (scheme : List ℕ) × (rest : List ℕ) × IsScheme scheme
      × (publish_url target scheme (authority target rest) ≡ ok url)
build_behind-ok target none url e = cc
build_behind-ok target (some n) url e =
    let scheme = take n target.server_url in
    let (known, made) =
      not_refused (not (eq_text scheme rtmp_scheme) && not (eq_text scheme rtmps_scheme)) _ _ e in
    (scheme, trim_end (drop (n + 3) target.server_url), is_scheme scheme known, made)

-- What is read of an address by its first `@`.
abbrev Reads : RtmpTarget → List ℕ → Type 0
Reads target url =
    (read_credentials url ≡ (target.username, target.password))
    × Every (Differs b'@') (read_host url)

read_host-scheme :
    (scheme rest : List ℕ)
    → IsScheme scheme
    → read_host (scheme ++ (scheme_mark ++ rest)) ≡ (split_at b'/' ((split_at b'@' rest).1)).0
unfolding read_host
read_host-scheme scheme rest (inl e) = rw e (rw (find_behind_rtmp rest) refl)
read_host-scheme scheme rest (inr e) = rw e (rw (find_behind_rtmps rest) refl)

Reads-address :
    (target : RtmpTarget) (scheme rest key : List ℕ)
    → IsScheme scheme
    → at_before (find_text (b'@' ∷ []) rest) (find_text (b'/' ∷ []) rest) ≡ false
    → Every IsByte target.username
    → Every IsByte target.password
    → Reads target (address scheme (user_info target ++ (b'@' ∷ rest)) key)
Reads-address target scheme rest key known clear hu hp =
    let server = user_info target ++ (b'@' ∷ rest) in
    let split =
      ap (split_at b'@') (append_assoc (user_info target) (b'@' ∷ rest) (b'/' ∷ key))
      ∙ split_at-front b'@' (user_info target) (rest ++ (b'/' ∷ key))
          (info_of-Differs target.username target.password hu hp) in
    (
      read_credentials-scheme scheme (server ++ (b'/' ∷ key)) known
          ∙ ap (λ (t : List ℕ × List ℕ). read_user_info (t.0)) split
          ∙ read_user_info-info_of target.username target.password hu hp,
      subst (Every (Differs b'@'))
          (sym (
            read_host-scheme scheme (server ++ (b'/' ∷ key)) known
            ∙ ap (λ (t : List ℕ × List ℕ). (split_at b'/' (t.1)).0) split))
          (clear_host rest key clear),
    )

-- An address made for a target with a user is read back as that user and the target's password,
-- whatever bytes they have; and behind them, up to the first slash, the authority has no other `@`,
-- so that no other credentials stand in it.
pub read_credentials-build_rtmp_publish_url :
    (target : RtmpTarget) (url : List ℕ)
    → build_rtmp_publish_url target ≡ ok url
    → is_empty target.username ≡ false
    → Every IsByte target.username
    → Every IsByte target.password
    → (read_credentials url ≡ (target.username, target.password))
      × Every (Differs b'@') (read_host url)
unfolding build_rtmp_publish_url
read_credentials-build_rtmp_publish_url target url e named hu hp =
    let (s1, e1) = not_refused (is_empty target.server_url) _ _ e in
    let (s2, e2) = not_refused (is_empty target.stream_key) _ _ e1 in
    let (scheme, rest, known, made) =
      build_behind-ok target (find_text scheme_mark target.server_url) url e2 in
    let (server, authorised, whole) =
      publish_url-ok target scheme (authority target rest) url made in
    let (clear, inside) = authority-ok target rest server named authorised in
    let key = trim_front target.stream_key in
    subst (Reads target) (sym (whole ∙ ap (λ t. address scheme t key) inside))
      (Reads-address target scheme rest key known clear hu hp)
