-- ===== src/Tests/Formats.antt =====
-- The properties of the links and of the files that are made from them, at concrete inputs.
use testuder.Subfmt.Sort.{parse_links}
use testuder.Subscriptions.Handlers.{api_rotate_subscription}
use testuder.Prelude.{
  ◌≡◌, ◌+◌, refl, true, false, none, some, List, [], ◌∷◌, ◌++◌, map, length, any, All, strip,
}
use testuder.User.{User}
use testuder.Settings.{Settings}
use testuder.Value.{text}
use testuder.Tests.{user, db, panel}
use testuder.Codes.{
  or_codes, has, split_first, strip_codes, is_space, is_one_of, same, lower_codes, count, after,
  before, before_last, after_last, Codes, codes,
}
use testuder.Url.{unquote, unreserved}
use testuder.Links.{build_vless_link, info_link}
use testuder.Codes.Decimal.{decimal, number, scan}
use testuder.Subfmt.{Loads, parse_link}
use testuder.Subfmt.Vless.{dialled, parse_link-build_vless_link}
use testuder.Subfmt.Sorted.{Proper, given, parse_links-sorted, parse_links-info}
use testuder.Subfmt.Tag.{tags, taken}
use testuder.Subscriptions.{Target, group_payload, seen, sub_target}
use testuder.Subscriptions.Exact.{NoRepeat, gives_line, group_payload-exact}
use testuder.Subscriptions.Rotation.{sub_target-rotate}
use testuder.Db.{Subscription}
use testuder.Db.Users.{get_user}
use testuder.Db.Groups.{decode_members}
use testuder.Panel.{Panel}
use testuder.Subfmt.Outbounds.{entry_tags}
use testuder.Subfmt.Outbounds.Named.{entries_of}
use testuder.Subfmt.Doc.{str, object, lit, text_at, list_at}
use testuder.Subfmt.Singbox.{singbox_config, selector}
use testuder.Subfmt.Singbox.References.{singbox_config-references}
use testuder.Subfmt.Clash.File.{clash_dict, match_group}
use testuder.Subfmt.Clash.References.{Known, clash_dict-references}
use testuder.Subfmt.XrayFile.{xray_config}
use testuder.Subfmt.XrayFile.Vless.{vless_outbound, xray_config-vless}
use testuder.Subfmt.XrayFile.Kept.{without_hysteria, xray_config-kept}
use testuder.Subfmt.Tag.Fresh.{Distinct, tags-Distinct}

abbrev no_json : Loads
no_json = λ _. none

abbrev cara : User
cara = record (user "cara" "vless" "xhttp" "tls") { name = "Zoé & co?" }

abbrev upload : Settings
upload = ("xhttp_mode", text "stream-up") ∷ ("sni_override", text "cdn.example/#1") ∷ []

parse_link-build_vless_link_example :
    parse_link no_json (build_vless_link "vpn.example.org" 8443 cara upload)
    ≡ some (dialled "vpn.example.org" 8443 cara upload)
unfolding unreserved
parse_link-build_vless_link_example =
    parse_link-build_vless_link no_json "vpn.example.org" 8443 cara upload refl refl refl refl refl

abbrev published : List Codes
published = codes "vless://u@h:1?type=ws#a" ∷ codes "tuic://x" ∷ [] ∷ []

parse_links-sorted_example :
    All Proper (parse_links no_json published).0
    × (length (parse_links no_json published).0 + length (parse_links no_json published).1
        ≡ given published)
parse_links-sorted_example = parse_links-sorted no_json published

parse_links-info_example :
    (parse_links no_json (info_link "ada | 1/2GB" ∷ published)).0
    ≡ (parse_links no_json published).0
parse_links-info_example = parse_links-info no_json "ada | 1/2GB" published

one_entry : length (parse_links no_json published).0 ≡ 1
unfolding parse_links parse_link split_first strip_codes is_space is_one_of same lower_codes count
    after before before_last unquote after_last number scan
one_entry = refl

tags-Distinct_example :
    Distinct (tags (codes "a b" ∷ codes "a-b" ∷ codes "a b" ∷ []) [])
    × All (λ t. taken t [] ≡ false) (tags (codes "a b" ∷ codes "a-b" ∷ codes "a b" ∷ []) [])
tags-Distinct_example = tags-Distinct (codes "a b" ∷ codes "a-b" ∷ codes "a b" ∷ []) []

three_tags :
    tags (codes "a b" ∷ codes "a-b" ∷ codes "a b" ∷ []) []
    ≡ codes "a-b" ∷ codes "a-b-2" ∷ codes "a-b-3" ∷ []
unfolding tags or_codes same strip_codes has is_space decimal
three_tags = refl

abbrev family : Subscription
family = record {
  id = 1;
  skey = "old";
  name = "family";
  remark = "";
  member_uids = "ada" ∷ "bob" ∷ "cid" ∷ [];
  enabled = true;
  include_info = true;
  updated_at = 0;
}

abbrev uid_link : User → List Codes
uid_link u = codes u.uid ∷ []

group_payload-exact_example :
    NoRepeat (group_payload uid_link uid_link family db).links
    × (seen [] (group_payload uid_link uid_link family db).links ≡ false)
    × ((line : Codes)
        → same line [] ≡ false
        → seen line (group_payload uid_link uid_link family db).links
          ≡ any family.member_uids (gives_line uid_link db line))
group_payload-exact_example = group_payload-exact uid_link uid_link family db

abbrev with_family : Panel
with_family = record panel { db = record panel.db { subscriptions = family ∷ [] } }

sub_target-rotate_example :
    (sub_target "new" (api_rotate_subscription 7 "ip" "new" 1 with_family).1.db
      ≡ some (Target.group (decode_members (record family { skey = "new"; updated_at = 7 }))))
    × (sub_target "old" (api_rotate_subscription 7 "ip" "new" 1 with_family).1.db ≡ none)
unfolding get_user strip
sub_target-rotate_example =
    sub_target-rotate 7 "ip" "new" "old" 1 with_family family refl refl refl refl refl refl refl
      refl refl (λ _. refl, tt)

abbrev mixed : List Codes
mixed = codes "vless://u@h:1?type=ws#a" ∷ codes "hysteria2://p@h:443?sni=x#a" ∷ []

singbox_config-references_example :
    (map (text_at "tag") (list_at "outbounds" (singbox_config (entries_of no_json mixed) upload))
      ≡ codes "proxy"
        ∷ (entry_tags (entries_of no_json mixed) ++ codes "direct" ∷ codes "block" ∷ []))
    × (list_at "actors" (selector (entries_of no_json mixed))
        ≡ map str (entry_tags (entries_of no_json mixed) ++ codes "direct" ∷ []))
    × Distinct (entry_tags (entries_of no_json mixed))
singbox_config-references_example = singbox_config-references no_json mixed upload

clash_dict-references_example :
    (map (text_at "name") (list_at "proxies" (clash_dict (entries_of no_json mixed) upload))
      ≡ entry_tags (entries_of no_json mixed))
    × Distinct (entry_tags (entries_of no_json mixed))
    × All
        (λ g. All (Known (entry_tags (entries_of no_json mixed))) (list_at "proxies" g))
        (list_at "proxy-groups" (clash_dict (entries_of no_json mixed) upload))
    × (any (list_at "proxy-groups" (clash_dict (entries_of no_json mixed) upload)) (λ g.
          same (text_at "name" g) (codes (match_group (entry_tags (entries_of no_json mixed)))))
        ≡ true)
clash_dict-references_example = clash_dict-references (entries_of no_json mixed) upload

xray_config-kept_example :
    map (text_at "tag") (list_at "outbounds" (xray_config (entries_of no_json mixed) upload))
    ≡ without_hysteria (entry_tags (entries_of no_json mixed)) (entries_of no_json mixed)
      ++ codes "direct" ∷ codes "block" ∷ []
xray_config-kept_example = xray_config-kept no_json mixed upload

xray_config-vless_example :
    list_at "outbounds" (
      xray_config
        (entries_of no_json (build_vless_link "vpn.example.org" 8443 cara upload ∷ []))
        upload)
    ≡ vless_outbound "vpn.example.org" 8443 cara upload
      ∷ object (("protocol", lit "freedom") ∷ ("tag", lit "direct") ∷ [])
      ∷ object (("protocol", lit "blackhole") ∷ ("tag", lit "block") ∷ [])
      ∷ []
unfolding unreserved same is_one_of
xray_config-vless_example =
    xray_config-vless no_json "vpn.example.org" 8443 cara upload refl refl refl refl refl refl refl
