-- ===== src/Tests/Services.antt =====
-- The properties of the generated config, the links, the loops and the nodes, at concrete inputs.
use testuder.Prelude.{
  ◌≡◌, ℕ, ◌+◌, ◌≤◌, ◌<◌, refl, true, false, not, some, List, [], ◌∷◌, arith, eq_refl, any, all,
  filter, All, strip, one_of, lookup, insert,
}
use mathlib.Core.Option
use testuder.Prelude.Int.{pos}
use testuder.Config.{Env, default_env}
use testuder.Settings.{on, Settings}
use testuder.Tasks.Quota.{up_for, down_for}
use testuder.Stats.{Item, at, poll, collect, deltas, growth}
use testuder.Stats.Polls.{polls, reset_up, reset_down}
use testuder.Value.{truthy, text, num}
use testuder.Db.Users.{get_user}
use testuder.Tests.{user, User, ada, bob, remote_node, db}
use testuder.Xray.SsKeys.{Picks, Paired, SameKey, SameBytes, ss_clients-agree}
use testuder.Xray.Clients.{
  Oracle, is_2022, ss_users, ss_legacy, ss_2022_clients, ss_method, ss_2022_method,
}
use testuder.Xray.Build.{RealityKeys, generate_xray_config}
use testuder.Xray.Served.{serves, shared-serves, shared_port}
use testuder.Xray.Withdrawn.{knows, withdrawn-unserved}
use testuder.Endpoint.{dial_port}
use testuder.Endpoint.Agree.{link-inbound-agree}
use testuder.Protocol.{normalize_protocol_fields}
use testuder.Protocol.Served.{is_served, normalize-is_served}
use testuder.Tasks.{Delta, State, flush, housekeeping}
use testuder.Tasks.Quota.{flush-settles, settled}
use testuder.Tasks.Expiry.{housekeeping-expires, expired_row}
use testuder.Tasks.Usage.{
  rounds-account, accounted, rounds, traffic_of, Round, flushed, reported, Ledger,
}
use testuder.Stats.Polls.{polls-report_all}
use testuder.Nodes.{pushed, has_remote, served_locally}
use testuder.Db.Nodes.{list_nodes}
use testuder.Reality.{add_new}
use testuder.Db.{get_meta}
use testuder.Nodes.Placement.{served-once}
use testuder.Reality.{Keys, accepted_short_ids, rotate_short_id}
use testuder.Reality.Grace.{rotate-keeps}
use testuder.Tuning.{wg_tuning, xhttp_extra, sockopt, sockopt_checked, xhttp_mode, xhttp_modes}
use testuder.Tuning.Bounds.{
  in_limits, numbers-in_limits, stored-emitted, sockopt_checked_total, xhttp_mode-known,
}
use testuder.Reload.{idle, request, step, start, requests}
use testuder.Reload.Kept.{change-kept}

-- a hash that gives sixteen zeros, for the shape of the keys
abbrev zeros : List ℕ → List ℕ
zeros m = 0 ∷ 0 ∷ 0 ∷ 0 ∷ 0 ∷ 0 ∷ 0 ∷ 0 ∷ 0 ∷ 0 ∷ 0 ∷ 0 ∷ 0 ∷ 0 ∷ 0 ∷ 0 ∷ []

zeros-lt : (m : List ℕ) → All (λ b. b < 256) (zeros m)
zeros-lt m = omega arith

abbrev oracle : Oracle
oracle = record { sha256 = zeros; first = λ ms. elim ms [ [] ↦ "" | m ∷ more ↦ m ] }

abbrev reality_keys : RealityKeys
reality_keys = record { priv = "key"; server_names = "sni" ∷ []; short_ids = "ab" ∷ [] }

link-inbound-agree_example :
    any
      (generate_xray_config oracle default_env [] reality_keys (bob ∷ ada ∷ [])).0
      (serves (dial_port default_env [] ada 443) "vless" "tcp" "ada")
    ≡ true
link-inbound-agree_example =
    link-inbound-agree oracle default_env [] reality_keys (bob ∷ []) [] ada 443 refl refl refl

shared-serves_example :
    any
      (generate_xray_config oracle default_env [] reality_keys (bob ∷ ada ∷ [])).0
      (serves (shared_port default_env.ports "vless" "xhttp") "vless" "xhttp" "ada")
    ≡ true
shared-serves_example =
    shared-serves oracle default_env [] reality_keys (bob ∷ ada ∷ []) "ada" "vless" "xhttp" refl
      refl refl

withdrawn-unserved_example :
    any (generate_xray_config oracle default_env [] reality_keys (bob ∷ ada ∷ [])).0 (knows "bob")
    ≡ false
withdrawn-unserved_example =
    withdrawn-unserved oracle default_env [] reality_keys (bob ∷ ada ∷ []) "bob" refl

normalize-is_served_example :
    is_served "trojan"
      (normalize_protocol_fields "trojan" "grpc" "none").0
      (normalize_protocol_fields "trojan" "grpc" "none").1
    ≡ true
normalize-is_served_example = normalize-is_served "trojan" "grpc" "none" refl

abbrev state : State
state = record { db = db; pending = []; last_traffic = [] }

abbrev delta : Delta
delta = record { uid = "ada"; up = 30; down = 40 }

flush-settles_example :
    get_user "ada" (flush default_env 7200 (delta ∷ []) state).db
    ≡ Option.map (settled default_env 7200 "ada" (delta ∷ [])) (get_user "ada" db)
flush-settles_example = flush-settles default_env 7200 (delta ∷ []) state "ada"

housekeeping-expires_example :
    get_user "ada" (housekeeping 600 db) ≡ Option.map (expired_row 600) (get_user "ada" db)
housekeeping-expires_example = housekeeping-expires 600 db "ada" (refl, (refl, tt))

abbrev node_env : Env
node_env = record default_env { is_node = true }

abbrev ledger : Ledger
ledger = record { state = state; received = 0; refused = 0 }

abbrev some_rounds : List Round
some_rounds = flushed (delta ∷ []) ∷ reported false ∷ flushed (delta ∷ []) ∷ reported true ∷ []

rounds-account_example :
    accounted "ada" (rounds node_env 7200 "ada" some_rounds ledger)
    ≡ accounted "ada" ledger + traffic_of "ada" some_rounds
rounds-account_example = rounds-account node_env 7200 "ada" some_rounds ledger refl

served-once_example : pushed remote_node ada ≡ false
unfolding has_remote list_nodes strip served_locally
served-once_example = served-once db ada remote_node refl refl refl refl

abbrev keys : Keys
keys = record { sids = "aa" ∷ "bb" ∷ []; snis = [] }

rotate-keeps_example :
    one_of "aa" (
      accepted_short_ids
        (rotate_short_id "cc" [] true keys db).0
        (rotate_short_id "cc" [] true keys db).1)
    ≡ true
unfolding accepted_short_ids add_new get_meta lookup
rotate-keeps_example = rotate-keeps "cc" "aa" [] keys db (omega arith) refl

abbrev slow : Settings
slow = ("operator_profile", text "MCI ") ∷ ("tcp_user_timeout", text "50") ∷ []

numbers-in_limits_example :
    (all (sockopt slow) in_limits ≡ true)
    × (all (xhttp_extra slow "packet-up") in_limits ≡ true)
    × ((wg_tuning slow).0 ≤ 300)
    × ((wg_tuning slow).1 ≤ 1420)
numbers-in_limits_example = numbers-in_limits slow "packet-up"

abbrev chosen : Settings
chosen =
    ("tcp_keepalive_idle", num (pos 45))
    ∷ ("tcp_user_timeout", num (pos 9000))
    ∷ ("wg_keepalive", num (pos 20))
    ∷ ("wg_mtu", num (pos 1300))
    ∷ []

stored-emitted_example :
    (lookup "tcpKeepAliveIdle" (sockopt chosen) ≡ some (num (pos 45)))
    × (lookup "tcpUserTimeout" (sockopt chosen) ≡ some (num (pos 9000)))
    × (wg_tuning chosen ≡ (20, 1300))
unfolding on lookup truthy
stored-emitted_example =
    stored-emitted chosen 45 9000 20 1300 refl refl refl refl refl (omega arith, omega arith)
      (omega arith, omega arith) (omega arith) (omega arith)

sockopt_checked_total_example : sockopt_checked slow ≡ some (sockopt slow)
sockopt_checked_total_example = sockopt_checked_total slow

xhttp_mode-known_example : one_of (xhttp_mode slow) xhttp_modes ≡ true
xhttp_mode-known_example = xhttp_mode-known slow

abbrev replies : List (List Item)
replies =
    (record { name = "user>>>ada>>>traffic>>>uplink"; value = some 70 } ∷ [])
    ∷ (record { name = "user>>>ada>>>traffic>>>uplink"; value = some 10 } ∷ [])
    ∷ []

polls-report_all_example :
    (up_for "ada" (polls replies []).0 + (at "ada" []).up
      ≡ (at "ada" (polls replies []).1).up + reset_up "ada" replies [])
    × (down_for "ada" (polls replies []).0 + (at "ada" []).down
        ≡ (at "ada" (polls replies []).1).down + reset_down "ada" replies [])
polls-report_all_example = polls-report_all "ada" replies []

polls_total : up_for "ada" (polls replies []).0 ≡ 80
unfolding polls poll collect deltas growth lookup insert
polls_total = refl

change-kept_example :
    (0 < (request idle).wanted)
    × (0 < (request idle).spawned + (request idle).reloading + (request idle).sleeping)
unfolding request
change-kept_example =
    change-kept (request idle) (step idle (request idle) start (requests idle)) refl

abbrev ss_old : User
ss_old = record (user "old" "shadowsocks" "tcp" "none") { ss_method = "aes-256-gcm" }

abbrev ss_new : User
ss_new = record (user "new" "shadowsocks" "tcp" "none") { ss_method = "2022-blake3-aes-128-gcm" }

abbrev ss_rows : List User
ss_rows = ss_old ∷ ss_new ∷ []

Picks-first : Picks oracle
Picks-first m ms = ground (arith, eq_refl m)

ss_clients-agree_example :
    Paired
      (SameKey oracle zeros-lt default_env [])
      (filter (λ u. not (is_2022 default_env [] u)) (ss_users ss_rows))
      (ss_legacy oracle default_env [] ss_rows)
    × Paired
        (SameBytes oracle zeros-lt default_env [])
        (filter (is_2022 default_env []) (ss_users ss_rows))
        (ss_2022_clients oracle default_env [] ss_rows)
unfolding ss_users ss_method ss_2022_method
ss_clients-agree_example =
    ss_clients-agree oracle zeros-lt default_env [] ss_rows Picks-first (refl, (refl, tt))
      (refl, tt)
