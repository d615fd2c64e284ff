-- ===== src/Subfmt/Vless.antt =====
-- A VLESS link of app/links.py is read back by app/subfmt.py as what the client is to dial.
pub mod Fields
pub mod Dialled
pub mod Sound
use testuder.Subfmt.Vless.Fields.{bare_entry}
use testuder.Subfmt.Vless.Dialled.{
  over, Gives, gives_reality, Gives-ws, Gives-xhttp, Gives-grpc, Gives-tcp, Gives-httpupgrade,
}
use testuder.Subfmt.Vless.Sound.{sound_reality, sound_vless}
use testuder.Links.{name_of, quote_path}
use testuder.Codes.{codes-append, lower_codes}
use testuder.Subfmt.Parse.{parse_url-place, parse_link-uri, place, url_entry-place, url_entry-place}
use testuder.Protocol.{served_transports}
use testuder.Links.Tame.{
  unquote-quote_safe, quote-Tame, SoundPairs-of, unquote-Unreserved, Unreserved-of, Unreserved-Tame,
  is_unreserved, sound_pairs,
}
use testuder.Url.{unreserved}
use testuder.Tuning.{
  vision_on, client_only_modes, fragment_values, flow_for, xhttp_mode, fragment_in_link,
}
use testuder.Settings.{get_text, text_or}
use testuder.User.{User}
use testuder.Prelude.{
  ◌≡◌, ◌≢◌, ◌↔◌, ◌⊎◌, inl, inr, ℕ, zero, suc, ◌+◌, ◌-◌, ◌*◌, ◌/◌, ◌%◌, ◌≤◌, ◌<◌, String, refl, sym,
  ap, Bool, true, false, ◌&&◌, ◌||◌, not, Option, none, some, List, [], ◌∷◌, ◌++◌, map, arith, ◌==◌,
  eq_iff, eq_refl, ltb, leb, eqb, if◌then◌else◌, Bool-cases, Option-cases, &&-split, length, take,
  drop, any, all, filter, find?, All, any-append, all-append, find?-sound, any-filter, All-append,
  All-filter, All-map, All-of_forall, All-mono, any-map, length-map, lower, truncate, strip, one_of,
  or_else, one_of-elim, coerce_to, lookup, insert, remove, lookup-insert, lookup-remove,
  lookup-insert_self, append, coerce_to-all, min, max, subst, ◌∙◌, append-nil, append_assoc, upper,
  length-append,
}
use testuder.Prelude.Int.{pos}
use testuder.Codes.{lower_codes, split, Codes, codes, or_codes, same, is_one_of}
use testuder.Links.{
  quote_path, uri, Pairs, Part, build_vless_link, transport_for, grpc_service, grpc_params,
  fingerprint_of, path_for, fragment_params, host_params, sni_of, vless_params, reality_params,
  quoted, raw,
}
use testuder.Subfmt.{
  parse_url, parse_link, scheme_of, Loads, parse_scheme, Settings, Entry, lookup_param, param,
  words, url_entry,
}
use testuder.Subfmt.Params.{values}

place_entry :
    (credential host : String) (port : ℕ) (name : Codes)
    → is_unreserved credential ≡ true
    → is_unreserved host ≡ true
    → url_entry (codes "vless") (place (codes credential) host port) [] name
      ≡ bare_entry "vless" credential port host name
unfolding url_entry same or_codes is_one_of words split
place_entry credential host port name hc hh =
    url_entry-place (codes "vless") (codes credential) credential host port [] name
      (Unreserved-Tame credential (Unreserved-of credential hc))
      (unquote-Unreserved credential (Unreserved-of credential hc)) (Unreserved-of host hh)

served-transport :
    (u : User) (s : Settings)
    → u.protocol ≡ "vless"
    → one_of (transport_for u s) ("ws" ∷ "xhttp" ∷ "grpc" ∷ "tcp" ∷ "httpupgrade" ∷ []) ≡ true
unfolding transport_for served_transports lower
served-transport u s h = rw h (
    coerce_to-all (λ t. one_of t ("ws" ∷ "xhttp" ∷ "grpc" ∷ "tcp" ∷ "httpupgrade" ∷ []))
      (lower (or_else (or_else u.transport (get_text "default_transport" "ws" s)) "ws"))
      ("ws" ∷ "xhttp" ∷ "grpc" ∷ "tcp" ∷ "httpupgrade" ∷ []) "ws" refl)

-- What a client is to dial for a VLESS user.
abbrev pub dialled : String → ℕ → User → Settings → Entry
dialled host port u s =
    let t = transport_for u s in
    over host u s (lower (or_else u.security "tls")) t (
      bare_entry "vless" u.uuid port host
        (codes (append "TiTaN-" (append u.name (append "-VLESS-" (upper t))))))

gives :
    (rest name : Codes) (host : String) (u : User) (s : Settings) (sec t : String)
    → one_of t ("ws" ∷ "xhttp" ∷ "grpc" ∷ "tcp" ∷ "httpupgrade" ∷ []) ≡ true
    → (sec == "reality") ≡ false
    → Gives rest name host u s sec t
gives rest name host u s sec t h k =
    one_of-elim (Gives rest name host u s sec) t
      ("ws" ∷ "xhttp" ∷ "grpc" ∷ "tcp" ∷ "httpupgrade" ∷ [])
      (
        Gives-ws rest name host u s sec k,
        (
          Gives-xhttp rest name host u s sec k,
          (
            Gives-grpc rest name host u s sec k,
            (Gives-tcp rest name host u s sec k, (Gives-httpupgrade rest name host u s sec k, tt)),
          ),
        ),
      )
      h

named :
    (name : String)
    → or_codes (codes (append "TiTaN-" name)) (codes "TiTaN") ≡ codes (append "TiTaN-" name)
unfolding or_codes
named name = rw (codes-append "TiTaN-" name)

-- a link with these pairs
parse_pairs :
    (loads : Loads) (host uuid : String) (port : ℕ) (q : String × Part) (ps : Pairs) (name : String)
    → is_unreserved uuid ≡ true
    → is_unreserved host ≡ true
    → (host == "") ≡ false
    → sound_pairs (q ∷ ps) ≡ true
    → parse_link loads
        (uri "vless" (codes uuid) host port (q ∷ ps) (quote_path (append "TiTaN-" name)))
      ≡ some (
          url_entry
            (codes "vless")
            (place (codes uuid) host port)
            (values (q ∷ ps))
            (codes (append "TiTaN-" name)))
unfolding parse_scheme scheme_of lower_codes same is_one_of unreserved
parse_pairs loads host uuid port q ps name hu hh ne hp =
    let cred = Unreserved-of uuid hu in
    let full = append "TiTaN-" name in
    let read = parse_url (codes "vless") (place (codes uuid) host port) (values (q ∷ ps)) in
    parse_link-uri loads "vless" (codes uuid) host port q ps (quote_path full)
      (Unreserved-of "vless" refl) refl (Unreserved-Tame uuid cred) (Unreserved-of host hh)
      (SoundPairs-of (q ∷ ps) hp) (quote-Tame "/" full refl)
    ∙ ap (λ n. read (or_codes n (codes "TiTaN"))) (unquote-quote_safe "/" full refl)
    ∙ ap read (named name)
    ∙ parse_url-place (codes "vless") (codes uuid) uuid host port (values (q ∷ ps)) (codes full)
        (Unreserved-Tame uuid cred) (unquote-Unreserved uuid cred) (Unreserved-of host hh) ne

parse_reality :
    (loads : Loads) (host : String) (port : ℕ) (u : User) (s : Settings) (t : String)
    → is_unreserved u.uuid ≡ true
    → is_unreserved (fingerprint_of u s) ≡ true
    → is_unreserved host ≡ true
    → (host == "") ≡ false
    → parse_link loads (
        uri "vless"
          (codes u.uuid)
          host
          port
          (reality_params host u s)
          (name_of u (append "-VLESS-" (upper t))))
      ≡ some (
          over host u s "reality" t (
            bare_entry "vless" u.uuid port host
              (codes (append "TiTaN-" (append u.name (append "-VLESS-" (upper t)))))))
unfolding reality_params
parse_reality loads host port u s t hu hf hh ne =
    let kind = append u.name (append "-VLESS-" (upper t)) in
    let full = codes (append "TiTaN-" kind) in
    let at = place (codes u.uuid) host port in
    parse_pairs loads host u.uuid port _ _ kind hu hh ne (sound_reality host u s hf)
    ∙ ap some (
        gives_reality at full host u s t
        ∙ ap (over host u s "reality" t) (place_entry u.uuid host port full hu hh))

parse_vless :
    (loads : Loads) (host : String) (port : ℕ) (u : User) (s : Settings) (t sec : String)
    → is_unreserved u.uuid ≡ true
    → is_unreserved (fingerprint_of u s) ≡ true
    → is_unreserved host ≡ true
    → (host == "") ≡ false
    → one_of t ("ws" ∷ "xhttp" ∷ "grpc" ∷ "tcp" ∷ "httpupgrade" ∷ []) ≡ true
    → (sec == "reality") ≡ false
    → parse_link loads (
        uri "vless"
          (codes u.uuid)
          host
          port
          (vless_params host u s sec t)
          (name_of u (append "-VLESS-" (upper t))))
      ≡ some (
          over host u s sec t (
            bare_entry "vless" u.uuid port host
              (codes (append "TiTaN-" (append u.name (append "-VLESS-" (upper t)))))))
unfolding vless_params
parse_vless loads host port u s t sec hu hf hh ne ht e =
    let kind = append u.name (append "-VLESS-" (upper t)) in
    let full = codes (append "TiTaN-" kind) in
    let at = place (codes u.uuid) host port in
    parse_pairs loads host u.uuid port _ _ kind hu hh ne (sound_vless host u s sec t hf ht)
    ∙ ap some (
        gives at full host u s sec t ht e
        ∙ ap (over host u s sec t) (place_entry u.uuid host port full hu hh))

-- the link of a transport and a security
parse_branch :
    (loads : Loads) (host : String) (port : ℕ) (u : User) (s : Settings) (t sec : String)
    → is_unreserved u.uuid ≡ true
    → is_unreserved (fingerprint_of u s) ≡ true
    → is_unreserved host ≡ true
    → (host == "") ≡ false
    → one_of t ("ws" ∷ "xhttp" ∷ "grpc" ∷ "tcp" ∷ "httpupgrade" ∷ []) ≡ true
    → parse_link loads (
        uri "vless"
          (codes u.uuid)
          host
          port
          (if sec == "reality" then reality_params host u s else vless_params host u s sec t)
          (name_of u (append "-VLESS-" (upper t))))
      ≡ some (
          over host u s sec t (
            bare_entry "vless" u.uuid port host
              (codes (append "TiTaN-" (append u.name (append "-VLESS-" (upper t)))))))
parse_branch loads host port u s t sec hu hf hh ne ht = elim (Bool-cases (sec == "reality")) [
  | inl e ↦ rw ((eq_iff sec "reality").0 e) (parse_reality loads host port u s t hu hf hh ne)
  | inr e ↦
      ap
        (λ (b : Bool). parse_link loads (
          uri "vless" (codes u.uuid) host port
            (if b then reality_params host u s else vless_params host u s sec t)
            (name_of u (append "-VLESS-" (upper t)))))
        e
      ∙ parse_vless loads host port u s t sec hu hf hh ne ht e
]

-- For a VLESS user whose uuid and fingerprint, and a host, are made of unreserved characters, with
-- the host not empty: taking the link apart that the panel publishes gives exactly the entry that
-- the row and the settings describe, whatever the user's name, keys, paths and SNI are. It has the
-- host, the port and the uuid; over Reality it has raw TCP with the keys and the flow; else the
-- transport with the path or the service of the inbound.
pub parse_link-build_vless_link :
    (loads : Loads) (host : String) (port : ℕ) (u : User) (s : Settings)
    → u.protocol ≡ "vless"
    → is_unreserved u.uuid ≡ true
    → is_unreserved (fingerprint_of u s) ≡ true
    → is_unreserved host ≡ true
    → (host == "") ≡ false
    → parse_link loads (build_vless_link host port u s) ≡ some (dialled host port u s)
unfolding build_vless_link
parse_link-build_vless_link loads host port u s hv hu hf hh ne =
    parse_branch loads host port u s (transport_for u s) (lower (or_else u.security "tls")) hu hf hh
      ne (served-transport u s hv)
