-- ===== src/Subfmt/Sort.antt =====
-- `parse_links` of app/subfmt.py: each link becomes an entry, or is skipped with a reason.
use testuder.Prelude.{
  String, Bool, ◌&&◌, not, Option, none, some, List, [], ◌∷◌, ◌++◌, if◌then◌else◌,
}
use testuder.Prelude.Int.{pos, eqz}
use testuder.Codes.{Codes, codes, same, is_one_of, or_codes, after_last}
use testuder.Url.{unquote}
use testuder.Subfmt.{Entry, Loads, parse_link}

pub record Skipped : Type 0 where
  pub name : Codes
  pub reason : String

abbrev pub loopback : List String
loopback = "127.0.0.1" ∷ "localhost" ∷ "::1" ∷ "0.0.0.0" ∷ []

abbrev pub info_link_uuid : String
info_link_uuid = "00000000-0000-0000-0000-000000000001"

-- the panel's own status link
unfoldable pub is_info : Entry → Bool
is_info e = same e.user (codes info_link_uuid) && is_one_of e.server loopback

unfoldable pub usable : Entry → Bool
usable e = not (same e.server []) && not (eqz e.port (pos 0))

-- why a link gives no entry; an empty link leaves no trace
unfoldable pub skip : Codes → List Skipped
skip [] = []
skip (c ∷ s) =
    record {
      name = or_codes (unquote (after_last b'#' (c ∷ s))) (codes "—");
      reason = "no client-config form for this link type";
    }
    ∷ []

-- one round of the loop of `parse_links`, once the link is parsed
unfoldable pub sort_parsed : Codes → Option Entry → List Entry × List Skipped
unfolding is_info usable skip
sort_parsed link none = ([], skip link)
sort_parsed link (some e) =
    if is_info e
    then ([], record { name = e.name; reason = "it is the usage-remark link, not a config" } ∷ [])
    else if usable e
    then (e ∷ [], [])
    else ([], skip link)

unfoldable pub sort_link : Loads → Codes → List Entry × List Skipped
unfolding sort_parsed
sort_link loads link = sort_parsed link (parse_link loads link)

-- `parse_links(links)`
unfoldable pub parse_links : Loads → List Codes → List Entry × List Skipped
unfolding sort_link
parse_links loads [] = ([], [])
parse_links loads (link ∷ links) = (
  (sort_link loads link).0 ++ (parse_links loads links).0,
  (sort_link loads link).1 ++ (parse_links loads links).1,
)
