-- ===== src/RtmpTarget/Tests.antt =====
-- Tests of addresses with credentials.
use obs_live_delay_plugin.RtmpTarget.ReadBack.{read_credentials-build_rtmp_publish_url}
use obs_live_delay_plugin.RtmpTarget.Credentials.{read_credentials, Differs, read_host}
use obs_live_delay_plugin.Base.{◌∷◌, [], List, ℕ, ◌≡◌, arith, ok, refl, Every}
use obs_live_delay_plugin.RtmpTarget.{
  RtmpTarget, build_rtmp_publish_url, find_text, begins_with, eq_text, trim_end, trim_front,
  percent_encode, is_unreserved,
}

-- rtmp://h/a/ with the key /k, the user a@ and the password :b.
abbrev target : RtmpTarget
target = record {
  server_url = b'r' ∷ b't' ∷ b'm' ∷ b'p' ∷ b':' ∷ b'/' ∷ b'/' ∷ b'h' ∷ b'/' ∷ b'a' ∷ b'/' ∷ [];
  stream_key = b'/' ∷ b'k' ∷ [];
  username = b'a' ∷ b'@' ∷ [];
  password = b':' ∷ b'b' ∷ [];
}

abbrev published : List ℕ
published =
    b'r' ∷ b't' ∷ b'm' ∷ b'p' ∷ b':' ∷ b'/' ∷ b'/' ∷ b'a' ∷ b'%' ∷ 52 ∷ 48 ∷ b':' ∷ b'%' ∷ 51 ∷ b'A'
    ∷ b'b' ∷ b'@' ∷ b'h' ∷ b'/' ∷ b'a' ∷ b'/' ∷ b'k' ∷ []

target_published : build_rtmp_publish_url target ≡ ok published
unfolding build_rtmp_publish_url find_text begins_with eq_text trim_end trim_front percent_encode
    is_unreserved
target_published = refl

read_credentials-build_rtmp_publish_url_example :
    (read_credentials published ≡ (target.username, target.password))
    × Every (Differs b'@') (read_host published)
read_credentials-build_rtmp_publish_url_example =
    read_credentials-build_rtmp_publish_url target published target_published refl
      (omega arith, (omega arith, tt)) (omega arith, (omega arith, tt))
