-- ===== src/Xray.antt =====
-- app/xray.py `generate_xray_config`: the inbounds and the routing rules of the Xray config. The parts
-- that are the same in every config (log, dns, stats, policy, outbounds) are left out. SHA-256,
-- and which of several Shadowsocks-2022 methods a Python set yields first, are the `Oracle` of Clients.
pub mod Build
pub mod Clients
pub mod Served
pub mod Withdrawn
pub mod SsKeys
use testuder.Codes.{Codes}
use testuder.Prelude.{
  ◌≡◌, ◌≢◌, ◌↔◌, ◌⊎◌, inl, inr, ℕ, zero, suc, ◌+◌, ◌-◌, ◌*◌, ◌/◌, ◌%◌, ◌≤◌, ◌<◌, String, refl, sym,
  ap, Bool, true, false, ◌&&◌, ◌||◌, not, Option, none, some, List, [], ◌∷◌, ◌++◌, map, arith, ◌==◌,
  eq_iff, eq_refl, ltb, leb, eqb, if◌then◌else◌, Bool-cases, Option-cases, &&-split, length, take,
  drop, any, all, filter, find?, All, any-append, all-append, find?-sound, any-filter, All-append,
  All-filter, All-map, All-of_forall, All-mono, any-map, length-map, lower, truncate, strip, one_of,
  or_else, one_of-elim, coerce_to, lookup, insert, remove, lookup-insert, lookup-remove,
  lookup-insert_self, append, coerce_to-all, min, max, subst, ◌∙◌, append-nil, append_assoc, upper,
  length-append,
}
use testuder.Value.{Value}
use testuder.User.{User}
use testuder.Tuning.{Sniffing, XhttpSettings, sockopt, sniffing, udp_only_networks}
use testuder.Settings.{Settings, get}
use testuder.Value.{truthy}

-- One entry of `clients` or of Hysteria2's `users`; an absent key is "". `id` is also the password of
-- Trojan and the `auth` of Hysteria2.
pub record Client : Type 0 where
  pub id : String
  pub email : String
  pub flow : String
  pub method : String
  pub password : Codes

pub data Stream : Type 0 where
  bare : Stream
  ws : String → Bool → Stream
  xhttp : XhttpSettings → Stream
  httpupgrade grpc : String → Stream
  tcp_plain : Stream
  tcp_tls : List String → Stream
  tcp_reality : String → List String → String → List String → Stream
  hysteria : String → String → Stream

pub record Inbound : Type 0 where
  pub listen : String
  pub port : ℕ
  pub protocol : String
  pub clients : List Client
  pub method : String
  pub password : Codes
  pub stream : Stream
  pub fallbacks : List (String × ℕ)
  pub tag : String
  pub sockopt : List (String × Value)
  pub sniffing : Option Sniffing

pub record Rule : Type 0 where
  pub inbound_tag : List String
  pub domain : List String
  pub ip : List String
  pub outbound_tag : String

-- `streamSettings["network"]`; an inbound without `streamSettings` has none.
unfoldable pub network : Stream → String
network Stream.bare = ""
network (Stream.ws _ _) = "ws"
network (Stream.xhttp _) = "xhttp"
network (Stream.httpupgrade _) = "httpupgrade"
network (Stream.grpc _) = "grpc"
network Stream.tcp_plain = "tcp"
network (Stream.tcp_tls _) = "tcp"
network (Stream.tcp_reality _ _ _ _) = "tcp"
network (Stream.hysteria _ _) = "hysteria"

-- `_blocked_rules(settings)`
unfoldable pub blocked_rules : Settings → List Rule
blocked_rules s =
    (if truthy (get "block_ads" s)
      then record {
        inbound_tag = [];
        domain = "geosite:category-ads-all" ∷ [];
        ip = [];
        outbound_tag = "block-ads";
      }
        ∷ []
      else [])
    ++ (if truthy (get "block_iran_sites" s)
        then record {
          inbound_tag = [];
          domain = "geosite:category-iran" ∷ [];
          ip = [];
          outbound_tag = "block-iran";
        }
          ∷ []
        else [])
    ++ (if truthy (get "restrict_ips" s)
        then record {
          inbound_tag = [];
          domain = [];
          ip = "10.0.0.0/8" ∷ "172.16.0.0/12" ∷ "192.168.0.0/16" ∷ "127.0.0.0/8" ∷ [];
          outbound_tag = "block";
        }
          ∷ []
        else [])

-- `routing_rules`
unfoldable pub routing_rules : Settings → List Rule
routing_rules s =
    record { inbound_tag = "api" ∷ []; domain = []; ip = []; outbound_tag = "api" }
    ∷ blocked_rules s

-- One inbound of `tuning.apply_to_inbounds`.
tuned : Settings → Inbound → Inbound
tuned s ib = record ib {
  sockopt = sockopt s;
  sniffing =
      if one_of ib.protocol ("vless" ∷ "vmess" ∷ "trojan" ∷ "shadowsocks" ∷ [])
      then sniffing s
      else ib.sniffing;
}

abbrev skips_tuning : Stream → Bool
skips_tuning st = (network st == "") || one_of (network st) udp_only_networks

-- `apply_to_inbounds(inbounds, settings)`
unfoldable pub apply_to_inbounds : List Inbound → Settings → List Inbound
unfolding tuned
apply_to_inbounds ibs s = map (λ ib. if skips_tuning ib.stream then ib else tuned s ib) ibs
