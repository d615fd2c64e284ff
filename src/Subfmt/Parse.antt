-- ===== src/Subfmt/Parse.antt =====
-- A link that is put together from sound parts is taken apart into them.
use testuder.Subfmt.Address.{port_of-append, host_of-append}
use testuder.Subfmt.Params.{values, params-query}
use testuder.Url.{unquote}
use testuder.Codes.Lacks.{after-append, before-append, Lacks}
use testuder.Subfmt.{
  pos, Params, url_entry, parse_url, parse_split, unquote, params, parse_scheme, supported,
  scheme_of, Loads, parse_link,
}
use testuder.Links.{Part, query, Pairs, uri}
use testuder.Prelude.{
  ◌≡◌, ℕ, String, refl, ap, true, false, some, [], ◌∷◌, ◌++◌, arith, ◌==◌, eqb, All, All-append,
  ◌∙◌, append_assoc,
}
use testuder.Codes.{
  same, after, or_codes, before, is_one_of, is_space, Codes, codes, split_first, starts_with,
}
use testuder.Codes.Decimal.{decimal}
use testuder.Links.Tame.{
  query-space, query-Lacks, strip_codes_none, SoundPairs, decimal-Tame, Unreserved-Tame, Tame-Lacks,
  Tame-space, Unreserved, separator, Tame, tame,
}

-- `{credential}@{host}:{port}`
abbrev pub place : Codes → String → ℕ → Codes
place credential host port = credential ++ (b'@' ∷ (codes host ++ (b':' ∷ decimal port)))

split_scheme :
    (s t : Codes) → Tame s → split_first (codes "://") (s ++ (codes "://" ++ t)) ≡ some (s, t)
unfolding split_first starts_with tame
split_scheme [] t h = refl
split_scheme (c ∷ s) t h = ground (arith, split_scheme s t h.1)

-- a text with no spaces
abbrev pub Solid : Codes → Type 0
Solid s = All (λ c. is_space c ≡ false) s

parse_split-some :
    (loads : Loads) (scheme body name : Codes)
    → is_one_of (scheme_of scheme) supported ≡ true
    → Lacks b'#' body
    → parse_split loads (some (scheme, body ++ b'#' ∷ name))
      ≡ parse_scheme loads
          (scheme_of scheme)
          (before b'?' body)
          (params (after b'?' body))
          (or_codes (unquote name) (codes "TiTaN"))
unfolding parse_split
parse_split-some loads scheme body name known lack =
    rw (before-append b'#' body name lack, after-append b'#' body name lack, known)

-- any link with a fragment
pub parse_link-fragment :
    (loads : Loads) (scheme : String) (body name : Codes)
    → Unreserved scheme
    → is_one_of (scheme_of (codes scheme)) supported ≡ true
    → Solid body
    → Solid name
    → Lacks b'#' body
    → parse_link loads (codes scheme ++ (codes "://" ++ (body ++ b'#' ∷ name)))
      ≡ parse_scheme loads
          (scheme_of (codes scheme))
          (before b'?' body)
          (params (after b'?' body))
          (or_codes (unquote name) (codes "TiTaN"))
unfolding parse_link
parse_link-fragment loads scheme body name hs known hb hn lack =
    let tame_scheme = Unreserved-Tame scheme hs in
    let solid =
      All-append _ (codes scheme) (codes "://" ++ (body ++ b'#' ∷ name))
        (Tame-space (codes scheme) tame_scheme)
        (unfold is_space in
          (refl, (refl, (refl, All-append _ body (b'#' ∷ name) hb (refl, hn))))) in
    ap (λ l. parse_split loads (split_first (codes "://") l)) (strip_codes_none _ solid)
    ∙ ap (parse_split loads) (split_scheme (codes scheme) (body ++ b'#' ∷ name) tame_scheme)
    ∙ parse_split-some loads (codes scheme) body name known lack

place-Lacks :
    (x : ℕ) (credential : Codes) (host : String) (port : ℕ)
    → separator x ≡ true
    → eqb b'@' x ≡ false
    → eqb b':' x ≡ false
    → Tame credential
    → Unreserved host
    → Lacks x (place credential host port)
place-Lacks x credential host port k a b hc hh =
    All-append _ credential (b'@' ∷ (codes host ++ (b':' ∷ decimal port)))
      (Tame-Lacks x credential k hc)
      (
        a,
        All-append _ (codes host) (b':' ∷ decimal port)
            (Tame-Lacks x (codes host) k (Unreserved-Tame host hh))
            (b, Tame-Lacks x (decimal port) k (decimal-Tame port)),
      )

place-Solid :
    (credential : Codes) (host : String) (port : ℕ)
    → Tame credential
    → Unreserved host
    → Solid (place credential host port)
unfolding is_space
place-Solid credential host port hc hh =
    All-append _ credential (b'@' ∷ (codes host ++ (b':' ∷ decimal port)))
      (Tame-space credential hc)
      (
        refl,
        All-append _ (codes host) (b':' ∷ decimal port)
            (Tame-space (codes host) (Unreserved-Tame host hh))
            (refl, Tame-space (decimal port) (decimal-Tame port)),
      )

uri-fragment :
    (scheme : String) (credential : Codes) (host : String) (port : ℕ) (ps : Pairs) (name : Codes)
    → uri scheme credential host port ps name
      ≡ codes scheme
        ++ (codes "://" ++ ((place credential host port ++ b'?' ∷ query ps) ++ b'#' ∷ name))
unfolding uri
uri-fragment scheme credential host port ps name = simp append_assoc

-- A link of a scheme that is known, from sound parts: the parser gets the credential, the host and
-- the port in one piece, the pairs of the query as they were before quoting, and the name.
pub parse_link-uri :
    (loads : Loads) (scheme : String) (credential : Codes) (host : String) (port : ℕ)
    (q : String × Part) (ps : Pairs) (name : Codes)
    → Unreserved scheme
    → is_one_of (scheme_of (codes scheme)) supported ≡ true
    → Tame credential
    → Unreserved host
    → SoundPairs (q ∷ ps)
    → Tame name
    → parse_link loads (uri scheme credential host port (q ∷ ps) name)
      ≡ parse_scheme loads
          (scheme_of (codes scheme))
          (place credential host port)
          (values (q ∷ ps))
          (or_codes (unquote name) (codes "TiTaN"))
unfolding separator is_space
parse_link-uri loads scheme credential host port q ps name hs known hc hh hp hn =
    let front = place credential host port in
    let sharp =
      All-append {A = ℕ} _ front (b'?' ∷ query (q ∷ ps))
        (place-Lacks b'#' credential host port refl refl refl hc hh)
        (refl, query-Lacks (q ∷ ps) hp) in
    let solid =
      All-append {A = ℕ} _ front (b'?' ∷ query (q ∷ ps)) (place-Solid credential host port hc hh)
        (refl, query-space (q ∷ ps) hp) in
    let mark = place-Lacks b'?' credential host port refl refl refl hc hh in
    rw (
      uri-fragment scheme credential host port (q ∷ ps) name,
      parse_link-fragment loads scheme (front ++ b'?' ∷ query (q ∷ ps)) name hs known solid
          (Tame-space name hn) sharp,
      before-append b'?' front (query (q ∷ ps)) mark,
      after-append b'?' front (query (q ∷ ps)) mark,
      params-query q ps hp,
    )

-- an entry of a link whose address is made of sound parts
pub url_entry-place :
    (kind credential : Codes) (cred host : String) (port : ℕ) (p : Params) (name : Codes)
    → Tame credential
    → unquote credential ≡ codes cred
    → Unreserved host
    → url_entry kind (place credential host port) p name ≡ record (url_entry kind [] p name) {
      server = codes host;
      port = pos port;
      user = codes cred;
      password = codes cred;
    }
unfolding url_entry separator
url_entry-place kind credential cred host port p name hc hu hh =
    let loc = codes host ++ (b':' ∷ decimal port) in
    let lack = Tame-Lacks b'@' credential refl hc in
    rw (
      before-append b'@' credential loc lack,
      after-append b'@' credential loc lack,
      hu,
      host_of-append (codes host) port (Unreserved-Tame host hh),
      port_of-append (codes host) port,
    )

codes-ne : (s : String) → (s == "") ≡ false → same (codes s) [] ≡ false
unfolding same
codes-ne String.[] h = ground arith
codes-ne (String.◌∷◌ c s) h = refl

-- such an entry is not refused, if the host is not empty
pub parse_url-place :
    (kind credential : Codes) (cred host : String) (port : ℕ) (p : Params) (name : Codes)
    → Tame credential
    → unquote credential ≡ codes cred
    → Unreserved host
    → (host == "") ≡ false
    → parse_url kind (place credential host port) p name
      ≡ some (url_entry kind (place credential host port) p name)
unfolding parse_url
parse_url-place kind credential cred host port p name hc hu hh ne = rw (
  ap (λ e. e.server) (url_entry-place kind credential cred host port p name hc hu hh),
  codes-ne host ne,
)
