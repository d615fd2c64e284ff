-- ===== src/Subfmt/XrayFile/Vless.antt =====
-- From the row of a VLESS user to the outbound in its Xray file.

use testuder.Subfmt.Sort.{is_info, loopback, parse_links, sort_link, sort_parsed, usable}
use testuder.Prelude.{
  ◌≡◌, ℕ, String, refl, ap, true, false, some, [], ◌∷◌, ◌++◌, arith, ◌==◌, eqb, ◌∙◌,
}
use testuder.Codes.{codes, same, or_codes, is_one_of}
use testuder.Settings.{Settings}
use testuder.User.{User}
use testuder.Links.{build_vless_link, fingerprint_of}
use testuder.Links.Tame.{is_unreserved}
use testuder.Subfmt.{Loads, parse_link}
use testuder.Subfmt.Tag.{tag, clean, search_tag, candidate}
use testuder.Subfmt.Outbounds.{outbounds}
use testuder.Subfmt.Outbounds.Named.{entries_of}
use testuder.Subfmt.Vless.{dialled, parse_link-build_vless_link}
use testuder.Subfmt.XrayFile.{xray_kind, xray_stream, xray_outbound, xray_outbounds, xray_config}
use testuder.Subfmt.Doc.{
  Doc, Doc, object, array, lit, str, int, when_given, list_at, items-list_of, fields_of, find_key,
}
use testuder.Prelude.Int.{pos}

codes_some : (s : String) → (s == "") ≡ false → same (codes s) [] ≡ false
unfolding same
codes_some String.[] h = ground (arith, h)
codes_some (String.◌∷◌ c s) h = refl

dialled-usable :
    (host : String) (port : ℕ) (u : User) (s : Settings)
    → (host == "") ≡ false
    → eqb port 0 ≡ false
    → usable (dialled host port u s) ≡ true
unfolding usable
dialled-usable host port u s ne np = rw (codes_some host ne, np) refl

dialled_proper :
    (host : String) (port : ℕ) (u : User) (s : Settings)
    → is_one_of (codes host) loopback ≡ false
    → is_info (dialled host port u s) ≡ false
unfolding is_info
dialled_proper host port u s h = ground (arith, h)

-- the one entry of the link
one_entry_of :
    (loads : Loads) (host : String) (port : ℕ) (u : User) (s : Settings)
    → parse_link loads (build_vless_link host port u s) ≡ some (dialled host port u s)
    → (host == "") ≡ false
    → eqb port 0 ≡ false
    → is_one_of (codes host) loopback ≡ false
    → entries_of loads (build_vless_link host port u s ∷ []) ≡ dialled host port u s ∷ []
unfolding parse_links sort_link sort_parsed
one_entry_of loads host port u s p ne np out =
    ap (λ o. (sort_parsed (build_vless_link host port u s) o).0 ++ []) p
    ∙ rw (dialled_proper host port u s out, dialled-usable host port u s ne np) refl

-- the outbound that a VLESS user is to have
abbrev pub vless_outbound : String → ℕ → User → Settings → Doc
vless_outbound host port u s =
    let e = dialled host port u s in
    object (
      ("tag", str (clean e.name))
      ∷ ("streamSettings", xray_stream s e)
      ∷ ("protocol", lit "vless")
      ∷ (
        "settings",
        object (
            (
              "vnext",
              array (
                  object (
                    ("address", lit host)
                    ∷ ("port", int (pos port))
                    ∷ (
                      "users",
                      array (
                          object (
                            ("id", lit u.uuid)
                            ∷ ("encryption", lit "none")
                            ∷ when_given "flow" e.flow)
                          ∷ []),
                    )
                    ∷ [])
                  ∷ []),
            )
            ∷ []),
      )
      ∷ [])

-- In the Xray file that is made from the published link of a VLESS user (under the conditions of the
-- link's round trip, with a port that is not 0 and a host that is no loopback name) there is one
-- outbound before `direct` and `block`: it dials the host and the port, with the uuid and the flow of
-- the user, over the stream that the row and the settings describe.
pub xray_config-vless :
    (loads : Loads) (host : String) (port : ℕ) (u : User) (s : Settings)
    → u.protocol ≡ "vless"
    → is_unreserved u.uuid ≡ true
    → is_unreserved (fingerprint_of u s) ≡ true
    → is_unreserved host ≡ true
    → (host == "") ≡ false
    → eqb port 0 ≡ false
    → is_one_of (codes host) loopback ≡ false
    → list_at "outbounds" (xray_config (entries_of loads (build_vless_link host port u s ∷ [])) s)
      ≡ vless_outbound host port u s
        ∷ object (("protocol", lit "freedom") ∷ ("tag", lit "direct") ∷ [])
        ∷ object (("protocol", lit "blackhole") ∷ ("tag", lit "block") ∷ [])
        ∷ []
unfolding xray_config xray_outbounds list_at find_key fields_of outbounds xray_outbound xray_kind
    same or_codes tag search_tag candidate
xray_config-vless loads host port u s hv hu hf hh ne np out =
    ap (λ es. list_at "outbounds" (xray_config es s))
      (one_entry_of loads host port u s
        (parse_link-build_vless_link loads host port u s hv hu hf hh ne) ne np out)
    ∙ items-list_of (xray_outbounds s (dialled host port u s ∷ []))
