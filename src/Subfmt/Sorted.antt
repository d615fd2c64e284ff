-- ===== src/Subfmt/Sorted.antt =====
-- `parse_links` of app/subfmt.py: what becomes an entry, and what is reported as skipped.
use testuder.Subfmt.Sort.{is_info, parse_links, skip, sort_link, sort_parsed, usable}
use testuder.Subfmt.Parse.{url_entry-place, parse_url-place, parse_link-uri, place}
use testuder.Subfmt.Params.{values}
use testuder.Links.Tame.{
  quote-Tame, SoundPairs-of, unquote-Unreserved, Unreserved-Tame, Unreserved-of, Unreserved,
}
use testuder.Url.{unreserved}
use testuder.Links.{quote_path, info_uuid, raw, Pairs, info_link}
use testuder.Prelude.{
  ◌≡◌, ℕ, suc, ◌+◌, String, refl, ap, true, false, Option, none, some, List, [], ◌∷◌, ◌++◌, arith,
  length, All, All-append, ◌∙◌, length-append,
}
use testuder.Codes.{or_codes, codes, is_one_of, same, lower_codes, Codes, split_first, strip_codes}
use testuder.Subfmt.{url_entry, unquote, scheme_of, parse_scheme, Loads, Entry, parse_link}

-- an entry that may become an outbound
abbrev pub Proper : Entry → Type 0
Proper e = (is_info e ≡ false) × (usable e ≡ true)

-- the links that are not the empty text
abbrev pub given : List Codes → ℕ
given [] = 0
given ([] ∷ links) = given links
given ((c ∷ l) ∷ links) = suc (given links)

sort_parsed-Proper : (link : Codes) (o : Option Entry) → All Proper (sort_parsed link o).0
unfolding sort_parsed
sort_parsed-Proper link none = tt
sort_parsed-Proper link (some e) = ground arith

sort_parsed_one :
    (c : ℕ) (link : Codes) (o : Option Entry)
    → length (sort_parsed (c ∷ link) o).0 + length (sort_parsed (c ∷ link) o).1 ≡ 1
unfolding sort_parsed skip
sort_parsed_one c link none = refl
sort_parsed_one c link (some e) = ground arith

sort_link-Proper : (loads : Loads) (link : Codes) → All Proper (sort_link loads link).0
unfolding sort_link
sort_link-Proper loads link = sort_parsed-Proper link (parse_link loads link)

sort_link_one :
    (loads : Loads) (c : ℕ) (link : Codes)
    → length (sort_link loads (c ∷ link)).0 + length (sort_link loads (c ∷ link)).1 ≡ 1
unfolding sort_link
sort_link_one loads c link = sort_parsed_one c link (parse_link loads (c ∷ link))

sort_link_none : (loads : Loads) → sort_link loads [] ≡ ([], [])
unfolding sort_link parse_link skip split_first strip_codes
sort_link_none loads = refl

-- Every entry of the result is no status link and has a server and a port that is not 0, and every
-- link that is not the empty text is counted once: as an entry, or as skipped with a reason.
pub parse_links-sorted :
    (loads : Loads) (links : List Codes)
    → All Proper (parse_links loads links).0
      × (length (parse_links loads links).0 + length (parse_links loads links).1 ≡ given links)
unfolding parse_links
parse_links-sorted loads [] = (tt, refl)
parse_links-sorted loads ([] ∷ links) = rw (sort_link_none loads) (parse_links-sorted loads links)
parse_links-sorted loads ((c ∷ link) ∷ links) = (
  All-append Proper (sort_link loads (c ∷ link)).0 (parse_links loads links).0
      (sort_link-Proper loads (c ∷ link)) (parse_links-sorted loads links).0,
  omega (
    arith,
    length-append (sort_link loads (c ∷ link)).0 (parse_links loads links).0,
    length-append (sort_link loads (c ∷ link)).1 (parse_links loads links).1,
    sort_link_one loads c link,
    (parse_links-sorted loads links).1,
  ),
)

info_credential : Unreserved info_uuid × Unreserved "127.0.0.1"
unfolding unreserved
info_credential = (Unreserved-of info_uuid refl, Unreserved-of "127.0.0.1" refl)

info_params : Pairs
info_params = ("security", raw "none") ∷ ("type", raw "tcp") ∷ ("headerType", raw "none") ∷ []

info_entry :
    (loads : Loads) (remark : String)
    → (e : Entry) × (parse_link loads (info_link remark) ≡ some e) × (is_info e ≡ true)
unfolding info_link parse_scheme scheme_of lower_codes same is_one_of unreserved is_info info_params
info_entry loads remark =
    let cred = codes info_uuid in
    let tame_cred = Unreserved-Tame info_uuid info_credential.0 in
    let read = unquote-Unreserved info_uuid info_credential.0 in
    let ps = values (("encryption", raw "none") ∷ info_params) in
    let name = or_codes (unquote (quote_path remark)) (codes "TiTaN") in
    (
      url_entry (codes "vless") (place cred "127.0.0.1" 10001) ps name,
      parse_link-uri loads "vless" cred "127.0.0.1" 10001 ("encryption", raw "none") info_params
            (quote_path remark) (Unreserved-of "vless" refl) refl tame_cred info_credential.1
            (SoundPairs-of (("encryption", raw "none") ∷ info_params) refl)
            (quote-Tame "/" remark refl)
          ∙ parse_url-place (codes "vless") cred info_uuid "127.0.0.1" 10001 ps name tame_cred read
              info_credential.1 refl,
      ap is_info (
          url_entry-place (codes "vless") cred info_uuid "127.0.0.1" 10001 ps name tame_cred read
            info_credential.1),
    )

-- Whatever its remark is, the status link that every subscription carries becomes no entry.
pub parse_links-info :
    (loads : Loads) (remark : String) (links : List Codes)
    → (parse_links loads (info_link remark ∷ links)).0 ≡ (parse_links loads links).0
unfolding parse_links sort_link sort_parsed
parse_links-info loads remark links =
    let (e, parsed, info) = info_entry loads remark in
    ap (λ o. (sort_parsed (info_link remark) o).0 ++ (parse_links loads links).0) parsed ∙ rw info
