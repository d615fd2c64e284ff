-- ===== src/Subfmt/Vless/Sound.antt =====
-- The pairs of the VLESS links are made of sound parts.
use testuder.Links.Tame.{is_unreserved, sound_pairs}
use testuder.Url.{unreserved}
use testuder.Tuning.{
  vision_on, client_only_modes, fragment_values, flow_for, xhttp_mode, fragment_in_link,
}
use testuder.User.{User}
use testuder.Prelude.{
  ◌≡◌, inl, inr, String, refl, Bool, true, false, [], ◌∷◌, ◌++◌, ◌==◌, if◌then◌else◌, Bool-cases,
  lower, one_of, one_of-elim,
}
use testuder.Links.{
  grpc_params, fingerprint_of, path_for, fragment_params, host_params, sni_of, vless_params,
  reality_params, quoted, raw,
}
use testuder.Subfmt.{Settings}

pub flow_for-is_unreserved : (s : Settings) → is_unreserved (flow_for s "tcp" "reality") ≡ true
unfolding flow_for unreserved lower
flow_for-is_unreserved s = elim (Bool-cases (vision_on s)) [ inl e ↦ rw e | inr e ↦ rw e ]

sound_tail :
    (a m f : Bool) (al mo l i : String)
    → sound_pairs (
        (if a then [] else ("alpn", quoted ",/" al) ∷ [])
        ++ ((if m then ("mode", quoted "" mo) ∷ [] else [])
            ++ (if f then ("fp_len", quoted "" l) ∷ ("fp_int", quoted "" i) ∷ [] else [])))
      ≡ true
unfolding unreserved
sound_tail true true true al mo l i = refl
sound_tail true true false al mo l i = refl
sound_tail true false true al mo l i = refl
sound_tail true false false al mo l i = refl
sound_tail false true true al mo l i = refl
sound_tail false true false al mo l i = refl
sound_tail false false true al mo l i = refl
sound_tail false false false al mo l i = refl

sound-host :
    (a m f tls : Bool) (t h p sni fp al mo l i : String)
    → sound_pairs (
        ("encryption", raw "none")
        ∷ ("security", raw (if tls then "tls" else "none"))
        ∷ ("type", quoted "" t)
        ∷ ("host", quoted "" h)
        ∷ ("path", quoted "/" p)
        ∷ ("sni", quoted "" sni)
        ∷ ("fp", quoted "" fp)
        ∷ ((if a then [] else ("alpn", quoted ",/" al) ∷ [])
            ++ ((if m then ("mode", quoted "" mo) ∷ [] else [])
                ++ (if f then ("fp_len", quoted "" l) ∷ ("fp_int", quoted "" i) ∷ [] else []))))
      ≡ true
unfolding unreserved
sound-host a m f true t h p sni fp al mo l i = sound_tail a m f al mo l i
sound-host a m f false t h p sni fp al mo l i = sound_tail a m f al mo l i

sound-tls :
    (a : Bool) (sni fp al : String)
    → is_unreserved fp ≡ true
    → sound_pairs (
        ("encryption", raw "none")
        ∷ ("security", raw "tls")
        ∷ ("type", raw "tcp")
        ∷ ("headerType", raw "none")
        ∷ ("sni", quoted "" sni)
        ∷ ("fp", raw fp)
        ∷ (if a then [] else ("alpn", quoted ",/" al) ∷ []))
      ≡ true
unfolding unreserved
sound-tls true sni fp al h = rw h
sound-tls false sni fp al h = rw h

pub sound-reality :
    (v f : Bool) (pbk sid sni spx fp flow l i : String)
    → is_unreserved fp ≡ true
    → is_unreserved flow ≡ true
    → sound_pairs (
        ("encryption", raw "none")
        ∷ ("security", raw "reality")
        ∷ ("pbk", quoted "" pbk)
        ∷ ("sid", quoted "" sid)
        ∷ ("sni", quoted "" sni)
        ∷ ("spx", quoted "" spx)
        ∷ ("fp", raw fp)
        ∷ ("type", raw "tcp")
        ∷ ("headerType", raw "none")
        ∷ ((if v then [] else ("flow", raw flow) ∷ [])
            ++ (if f then ("fp_len", quoted "" l) ∷ ("fp_int", quoted "" i) ∷ [] else [])))
      ≡ true
unfolding unreserved
sound-reality true true pbk sid sni spx fp flow l i h k = rw h
sound-reality true false pbk sid sni spx fp flow l i h k = rw h
sound-reality false true pbk sid sni spx fp flow l i h k = rw (h, k)
sound-reality false false pbk sid sni spx fp flow l i h k = rw (h, k)

pub sound_vless :
    (host : String) (u : User) (s : Settings) (sec t : String)
    → is_unreserved (fingerprint_of u s) ≡ true
    → one_of t ("ws" ∷ "xhttp" ∷ "grpc" ∷ "tcp" ∷ "httpupgrade" ∷ []) ≡ true
    → sound_pairs (vless_params host u s sec t) ≡ true
unfolding vless_params host_params grpc_params fragment_params path_for unreserved
sound_vless host u s sec t h =
    one_of-elim (λ x. sound_pairs (vless_params host u s sec x) ≡ true) t
      ("ws" ∷ "xhttp" ∷ "grpc" ∷ "tcp" ∷ "httpupgrade" ∷ [])
      (
        sound-host (u.alpn == "") false (fragment_in_link s) (sec == "tls") "ws" host "/vl-ws"
            (sni_of host s) (fingerprint_of u s) u.alpn (xhttp_mode s) (fragment_values s).0
            (fragment_values s).1,
        (
          sound-host (u.alpn == "") (one_of (xhttp_mode s) client_only_modes) (fragment_in_link s)
              (sec == "tls") "xhttp" host "/xhttp" (sni_of host s) (fingerprint_of u s) u.alpn
              (xhttp_mode s) (fragment_values s).0 (fragment_values s).1,
          (
            elim (Bool-cases (sec == "tls")) [ inl e ↦ rw e | inr e ↦ rw e ],
            (
              elim (Bool-cases (sec == "tls")) [
                | inl e ↦
                    rw e (sound-tls (u.alpn == "") (sni_of host s) (fingerprint_of u s) u.alpn h)
                | inr e ↦ rw e
              ],
              (
                sound-host (u.alpn == "") false (fragment_in_link s) (sec == "tls") "httpupgrade"
                    host "/hup" (sni_of host s) (fingerprint_of u s) u.alpn (xhttp_mode s)
                    (fragment_values s).0 (fragment_values s).1,
                tt,
              ),
            ),
          ),
        ),
      )

pub sound_reality :
    (host : String) (u : User) (s : Settings)
    → is_unreserved (fingerprint_of u s) ≡ true
    → sound_pairs (reality_params host u s) ≡ true
unfolding reality_params fragment_params
sound_reality host u s h =
    sound-reality (flow_for s "tcp" "reality" == "") (fragment_in_link s) "" "" "" ""
      (fingerprint_of u s) (flow_for s "tcp" "reality") (fragment_values s).0 (fragment_values s).1
      h (flow_for-is_unreserved s)
