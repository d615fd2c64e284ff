-- ===== src/Subfmt/Vless/Fields.antt =====
-- What `url_entry` reads off the queries of the VLESS links.
use testuder.Prelude.{◌≡◌, ℕ, String, refl, Bool, true, false, [], ◌∷◌, ◌++◌, if◌then◌else◌}
use testuder.Prelude.Int.{pos}
use testuder.Codes.{split, Codes, codes, or_codes, same, is_one_of}
use testuder.Links.{quoted, raw}
use testuder.Subfmt.{Entry, lookup_param, param, words, url_entry}
use testuder.Subfmt.Params.{values}

-- an entry with what the address gives, and with nothing of a query
abbrev pub bare_entry : String → String → ℕ → String → Codes → Entry
bare_entry kind credential port host name = record {
  kind = codes kind;
  name = name;
  server = codes host;
  port = pos port;
  user = codes credential;
  password = codes credential;
  cipher = [];
  transport = codes "tcp";
  security = codes "none";
  path = [];
  host = [];
  sni = [];
  fp = [];
  alpn = [];
  service = [];
  flow = [];
  mode = [];
  pbk = [];
  sid = [];
  spx = [];
  insecure = false;
  obfs = [];
  obfs_param = [];
}

pub entry_over_host :
    (a m f : Bool) (rest name : Codes) (sec t h p sni fp al mo l i : String)
    → url_entry
        (codes "vless")
        rest
        (values (
          ("encryption", raw "none")
          ∷ ("security", raw sec)
          ∷ ("type", quoted "" t)
          ∷ ("host", quoted "" h)
          ∷ ("path", quoted "/" p)
          ∷ ("sni", quoted "" sni)
          ∷ ("fp", quoted "" fp)
          ∷ ((if a then [] else ("alpn", quoted ",/" al) ∷ [])
              ++ ((if m then ("mode", quoted "" mo) ∷ [] else [])
                  ++ (if f then ("fp_len", quoted "" l) ∷ ("fp_int", quoted "" i) ∷ [] else [])))))
        name
      ≡ record (url_entry (codes "vless") rest [] name) {
        cipher = codes "none";
        security = or_codes (codes sec) (codes "none");
        transport = or_codes (codes t) (codes "tcp");
        host = codes h;
        path = codes p;
        sni = codes sni;
        fp = codes fp;
        alpn = if a then [] else words (codes al);
        mode = if m then codes mo else [];
      }
unfolding url_entry param lookup_param same values or_codes words split is_one_of
entry_over_host true true true rest name sec t h p sni fp al mo l i = refl
entry_over_host true true false rest name sec t h p sni fp al mo l i = refl
entry_over_host true false true rest name sec t h p sni fp al mo l i = refl
entry_over_host true false false rest name sec t h p sni fp al mo l i = refl
entry_over_host false true true rest name sec t h p sni fp al mo l i = refl
entry_over_host false true false rest name sec t h p sni fp al mo l i = refl
entry_over_host false false true rest name sec t h p sni fp al mo l i = refl
entry_over_host false false false rest name sec t h p sni fp al mo l i = refl

pub entry_over_grpc :
    (rest name : Codes) (sec t service sni fp : String)
    → url_entry
        (codes "vless")
        rest
        (values (
          ("encryption", raw "none")
          ∷ ("security", raw sec)
          ∷ ("type", raw t)
          ∷ ("serviceName", quoted "" service)
          ∷ ("sni", quoted "" sni)
          ∷ ("fp", quoted "" fp)
          ∷ []))
        name
      ≡ record (url_entry (codes "vless") rest [] name) {
        cipher = codes "none";
        security = or_codes (codes sec) (codes "none");
        transport = or_codes (codes t) (codes "tcp");
        service = codes service;
        sni = codes sni;
        fp = codes fp;
      }
unfolding url_entry param lookup_param same values or_codes words split is_one_of
entry_over_grpc rest name sec t service sni fp = refl

pub entry_over_tls :
    (a : Bool) (rest name : Codes) (sni fp al : String)
    → url_entry
        (codes "vless")
        rest
        (values (
          ("encryption", raw "none")
          ∷ ("security", raw "tls")
          ∷ ("type", raw "tcp")
          ∷ ("headerType", raw "none")
          ∷ ("sni", quoted "" sni)
          ∷ ("fp", raw fp)
          ∷ (if a then [] else ("alpn", quoted ",/" al) ∷ [])))
        name
      ≡ record (url_entry (codes "vless") rest [] name) {
        cipher = codes "none";
        security = codes "tls";
        sni = codes sni;
        fp = codes fp;
        alpn = if a then [] else words (codes al);
      }
unfolding url_entry param lookup_param same values or_codes words split is_one_of
entry_over_tls true rest name sni fp al = refl
entry_over_tls false rest name sni fp al = refl

pub entry_plain :
    (rest name : Codes) (sec : String)
    → url_entry
        (codes "vless")
        rest
        (values (
          ("encryption", raw "none")
          ∷ ("security", raw sec)
          ∷ ("type", raw "tcp")
          ∷ ("headerType", raw "none")
          ∷ []))
        name
      ≡ record (url_entry (codes "vless") rest [] name) {
        cipher = codes "none";
        security = or_codes (codes sec) (codes "none");
      }
unfolding url_entry param lookup_param same values or_codes words split is_one_of
entry_plain rest name sec = refl

pub entry_over_reality :
    (v f : Bool) (rest name : Codes) (pbk sid sni spx fp flow l i : String)
    → url_entry
        (codes "vless")
        rest
        (values (
          ("encryption", raw "none")
          ∷ ("security", raw "reality")
          ∷ ("pbk", quoted "" pbk)
          ∷ ("sid", quoted "" sid)
          ∷ ("sni", quoted "" sni)
          ∷ ("spx", quoted "" spx)
          ∷ ("fp", raw fp)
          ∷ ("type", raw "tcp")
          ∷ ("headerType", raw "none")
          ∷ ((if v then [] else ("flow", raw flow) ∷ [])
              ++ (if f then ("fp_len", quoted "" l) ∷ ("fp_int", quoted "" i) ∷ [] else []))))
        name
      ≡ record (url_entry (codes "vless") rest [] name) {
        cipher = codes "none";
        security = codes "reality";
        sni = codes sni;
        fp = codes fp;
        flow = if v then [] else codes flow;
        pbk = or_codes (codes pbk) [];
        sid = or_codes (codes sid) [];
        spx = or_codes (codes spx) [];
      }
unfolding url_entry param lookup_param same values or_codes words split is_one_of
entry_over_reality true true rest name pbk sid sni spx fp flow l i = refl
entry_over_reality true false rest name pbk sid sni spx fp flow l i = refl
entry_over_reality false true rest name pbk sid sni spx fp flow l i = refl
entry_over_reality false false rest name pbk sid sni spx fp flow l i = refl
