-- ===== src/SsKeys.antt =====
-- app/sskeys.py: the Shadowsocks keys. SHA-256 is an argument.
pub mod Agree
use testuder.Prelude.{
  ℕ, String, Bool, true, false, none, some, List, ◌++◌, if◌then◌else◌, take, one_of,
}
use testuder.Codes.{Codes, codes, split_first}
use testuder.Url.{encode_utf8}
use testuder.Base64.{encode, standard, url_safe, unpad}
use testuder.Config.{ss_2022_methods}

-- `part in s`, for a part that is not empty
unfoldable pub contains : Codes → Codes → Bool
unfolding split_first
contains part s = elim (split_first part s) [ none ↦ false | some _ ↦ true ]

module _ (sha256 : List ℕ → List ℕ) where
  unfoldable pub psk_bytes : String → String → List ℕ
  unfolding contains encode_utf8
  psk_bytes uuid method =
      if one_of method ss_2022_methods
      then take (if contains (codes "128") (codes method) then 16 else 32)
          (sha256 (encode_utf8 (codes "titan-ss:" ++ codes uuid)))
      else take 16 (encode_utf8 (codes uuid))

  unfoldable pub psk_link : String → String → Codes
  unfolding unpad encode
  psk_link uuid method = unpad (encode url_safe (psk_bytes uuid method))

  unfoldable pub psk_inbound : String → String → Codes
  unfolding encode
  psk_inbound uuid method =
      if one_of method ss_2022_methods
      then encode standard (psk_bytes uuid method)
      else psk_link uuid method

  unfoldable pub server_psk : String → Codes
  unfolding encode encode_utf8
  server_psk method =
      encode standard (take 16 (sha256 (encode_utf8 (codes "titan-ss-server:" ++ codes method))))
