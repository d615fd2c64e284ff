-- ===== src/SsKeys/Agree.antt =====
-- The key of a link and the key of the server's config, for one method, are the same bytes.
use testuder.Prelude.{
  ◌≡◌, inl, inr, ℕ, zero, suc, ◌<◌, String, refl, ap, true, some, List, [], ◌∷◌, ◌++◌, Bool-cases,
  take, All, All-append, one_of, ◌∙◌,
}
use testuder.Codes.{codes}
use testuder.Url.{encode_utf8, utf8}
use testuder.Url.Utf8.{Scalar-of_IsScalar, utf8-lt, AllScalar}
use testuder.Url.RoundTrip.{codes-AllScalar}
use testuder.Base64.{standard, url_safe, decode, padding, six_bits, sextet}
use testuder.Base64.RoundTrip.{Usable, decode-encode, unpad-encode}
use testuder.Config.{ss_2022_methods}
use testuder.SsKeys.{psk_bytes, psk_link, psk_inbound}

standard-Usable : Usable standard
unfolding six_bits sextet
standard-Usable = (refl, refl, refl, refl)

url_safe-Usable : Usable url_safe
unfolding six_bits sextet
url_safe-Usable = (refl, refl, refl, refl)

encode_utf8-lt : (s : List ℕ) → AllScalar s → All (λ b. b < 256) (encode_utf8 s)
unfolding encode_utf8
encode_utf8-lt [] h = tt
encode_utf8-lt (c ∷ s) h =
    All-append _ (utf8 c) (encode_utf8 s) (utf8-lt c (Scalar-of_IsScalar c h.0))
      (encode_utf8-lt s h.1)

All-take {ℓ κ} : {A : Type ℓ} (P : A → Type κ) (n : ℕ) (xs : List A) → All P xs → All P (take n xs)
All-take P zero xs h = tt
All-take P (suc n) [] h = tt
All-take P (suc n) (x ∷ xs) h = (h.0, All-take P n xs h.1)

module _ (sha256 : List ℕ → List ℕ) (bytes : (m : List ℕ) → All (λ b. b < 256) (sha256 m)) where
  psk_bytes-lt : (uuid method : String) → All (λ b. b < 256) (psk_bytes sha256 uuid method)
  unfolding psk_bytes
  psk_bytes-lt uuid method = elim (Bool-cases (one_of method ss_2022_methods)) [
    | inl e ↦ rw e (All-take _ _ (sha256 _) (bytes _))
    | inr e ↦
        rw e (All-take _ 16 (encode_utf8 (codes uuid)) (encode_utf8-lt _ (codes-AllScalar uuid)))
  ]

  -- Decoding the key of a link, with its padding put back, gives the bytes of the key.
  pub decode-psk_link :
      (uuid method : String)
      → decode url_safe (psk_link sha256 uuid method ++ padding (psk_link sha256 uuid method))
        ≡ some (psk_bytes sha256 uuid method)
  unfolding psk_link
  decode-psk_link uuid method =
      let key = psk_bytes sha256 uuid method in
      let small = psk_bytes-lt uuid method in
      ap (decode url_safe) (unpad-encode url_safe key url_safe-Usable small)
      ∙ decode-encode url_safe key url_safe-Usable small

  -- So does decoding the key of the config for a 2022 method, in the standard alphabet.
  pub decode-psk_inbound :
      (uuid method : String)
      → one_of method ss_2022_methods ≡ true
      → decode standard (psk_inbound sha256 uuid method) ≡ some (psk_bytes sha256 uuid method)
  unfolding psk_inbound
  decode-psk_inbound uuid method e = rw e (
      decode-encode standard (psk_bytes sha256 uuid method) standard-Usable
        (psk_bytes-lt uuid method))
