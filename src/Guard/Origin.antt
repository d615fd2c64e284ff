-- ===== src/Guard/Origin.antt =====
-- Whose pages may make the panel write.
use testuder.Prelude.{
  ◌≡◌, inl, inr, ℕ, String, refl, sym, ap, Bool, true, false, ◌&&◌, ◌||◌, not, Option, none, some,
  List, [], ◌∷◌, ◌++◌, arith, eqb, if◌then◌else◌, Bool-cases, take, any, one_of, one_of-elim, ◌∙◌,
  append-nil, append_assoc,
}
use testuder.Codes.{after_last, split, strip_codes, codes, Codes, same, join}
use testuder.Codes.Lacks.{split-Lacks, split-append, Lacks}
use testuder.Guard.{
  last_part, lstrip, text_or, hosts, source, guarded, Request, Settings, allowed_origins, origins,
  csrf_origin_guard, rstrip, root,
}

-- the name is the host, but for slashes at its end
abbrev pub answers_to : Codes → Codes → Bool
answers_to h x = same (rstrip b'/' x) h

rstrip-Lacks : (x : ℕ) (h : Codes) → Lacks x h → rstrip x h ≡ h
unfolding rstrip
rstrip-Lacks x [] l = refl
rstrip-Lacks x (c ∷ h) l = rw (rstrip-Lacks x h l.1) (rstrip_last x c h l)
  where
    rstrip_last :
        (x c : ℕ) (h : Codes)
        → Lacks x (c ∷ h)
        → (elim h [ [] ↦ if eqb c x then [] else c ∷ [] | d ∷ t ↦ c ∷ d ∷ t ]) ≡ c ∷ h
    rstrip_last x c [] l = rw l.0 refl
    rstrip_last x c (d ∷ t) l = refl

-- a text before one that does not end in slashes only stays
rstrip-scheme :
    (p x : Codes) (c : ℕ) (t : Codes) → rstrip b'/' x ≡ c ∷ t → rstrip b'/' (p ++ x) ≡ p ++ c ∷ t
unfolding rstrip
rstrip-scheme [] x c t e = e
rstrip-scheme (a ∷ p) x c t e = rw (rstrip-scheme p x c t e) (cons_more a p c t)
  where
    cons_more :
        (a : ℕ) (p : Codes) (c : ℕ) (t : Codes)
        → (elim (p ++ c ∷ t) [ [] ↦ if eqb a b'/' then [] else a ∷ [] | d ∷ r ↦ a ∷ d ∷ r ])
          ≡ a ∷ (p ++ c ∷ t)
    cons_more a [] c t = refl
    cons_more a (b ∷ p) c t = refl

-- what may follow the host of a page: nothing, or a path
abbrev pub then_path : Option Codes → Codes
then_path none = []
then_path (some path) = b'/' ∷ path

-- the origin of a page is its scheme and its host, whatever its path is
root-page :
    (scheme h : Codes) (path : Option Codes)
    → Lacks b'/' scheme
    → Lacks b'/' h
    → root (scheme ++ b'/' ∷ b'/' ∷ (h ++ then_path path)) ≡ scheme ++ b'/' ∷ b'/' ∷ h
unfolding root join
root-page scheme h none ls l =
    ap (λ ps. join b'/' (take 3 ps))
      (split-append b'/' scheme (b'/' ∷ (h ++ [])) ls
        ∙ ap (λ ps. scheme ∷ ps)
            (split-append b'/' [] (h ++ []) tt
              ∙ ap (λ ps. [] ∷ ps) (ap (split b'/') (append-nil h) ∙ split-Lacks b'/' h l)))
root-page scheme h (some path) ls l =
    ap (λ ps. join b'/' (take 3 ps))
      (split-append b'/' scheme (b'/' ∷ (h ++ b'/' ∷ path)) ls
        ∙ ap (λ ps. scheme ∷ ps)
            (split-append b'/' [] (h ++ b'/' ∷ path) tt
              ∙ ap (λ ps. [] ∷ ps) (split-append b'/' h path l)))

-- one origin of a name against the origin of the page, over either scheme
own :
    (x y : Codes) (c : ℕ) (t : Codes)
    → rstrip b'/' x ≡ y
    → (same (rstrip b'/' (codes "https://" ++ x)) (codes "https://" ++ c ∷ t) ≡ same y (c ∷ t))
      × (same (rstrip b'/' (codes "http://" ++ x)) (codes "http://" ++ c ∷ t) ≡ same y (c ∷ t))
unfolding rstrip same
own x [] c t e = (rw e refl, rw e refl)
own x (d ∷ y) c t e = (
  rw (rstrip-scheme (codes "https://") x d y e) refl,
  rw (rstrip-scheme (codes "http://") x d y e) refl,
)

other :
    (x y : Codes) (c : ℕ) (t : Codes)
    → rstrip b'/' x ≡ y
    → (same (rstrip b'/' (codes "http://" ++ x)) (codes "https://" ++ c ∷ t) ≡ false)
      × (same (rstrip b'/' (codes "https://" ++ x)) (codes "http://" ++ c ∷ t) ≡ false)
unfolding rstrip same
other x [] c t e = (rw e refl, rw e refl)
other x (d ∷ y) c t e = (
  rw (rstrip-scheme (codes "http://") x d y e) refl,
  rw (rstrip-scheme (codes "https://") x d y e) refl,
)

answers_to_blank : (c : ℕ) (t : Codes) → answers_to (c ∷ t) [] ≡ false
unfolding rstrip same
answers_to_blank c t = refl

-- the page's origin is among the allowed ones exactly if one of the names is the page's
origins-page :
    (hs : List Codes) (c : ℕ) (t : Codes)
    → (any (origins hs) (λ a. same (rstrip b'/' a) (codes "https://" ++ c ∷ t))
        ≡ any hs (answers_to (c ∷ t)))
      × (any (origins hs) (λ a. same (rstrip b'/' a) (codes "http://" ++ c ∷ t))
          ≡ any hs (answers_to (c ∷ t)))
unfolding origins same
origins-page [] c t = (refl, refl)
origins-page ([] ∷ hs) c t =
    let (a, b) = origins-page hs c t in
    let blank = sym (ap (λ n. n || any hs (answers_to (c ∷ t))) (answers_to_blank c t)) in
    (a ∙ blank, b ∙ blank)
origins-page ((d ∷ x) ∷ hs) c t =
    let y = rstrip b'/' (d ∷ x) in
    let (a, b) = origins-page hs c t in
    (
      ground (arith, (own (d ∷ x) y c t refl).0, (other (d ∷ x) y c t refl).0, a),
      ground (arith, (own (d ∷ x) y c t refl).1, (other (d ∷ x) y c t refl).1, b),
    )

page_schemes : Lacks b'/' (codes "https:") × Lacks b'/' (codes "http:")
page_schemes =
    ((refl, (refl, (refl, (refl, (refl, (refl, tt)))))), (refl, (refl, (refl, (refl, (refl, tt))))))

page_kept :
    (scheme : Codes) (c : ℕ) (t : Codes) (path : Option Codes)
    → Lacks b'/' scheme
    → Lacks b'/' (c ∷ t)
    → rstrip b'/' (root (scheme ++ b'/' ∷ b'/' ∷ (c ∷ t ++ then_path path)))
      ≡ (scheme ++ b'/' ∷ b'/' ∷ []) ++ c ∷ t
page_kept scheme c t path ls l =
    ap (rstrip b'/')
      (root-page scheme (c ∷ t) path ls l ∙ sym (append_assoc scheme (b'/' ∷ b'/' ∷ []) (c ∷ t)))
    ∙ rstrip-scheme (scheme ++ b'/' ∷ b'/' ∷ []) (c ∷ t) c t (rstrip-Lacks b'/' (c ∷ t) l)

guard-any :
    (trust : Bool) (s : Settings) (r : Request) (d : ℕ) (q page : Codes)
    → guarded r ≡ true
    → source r ≡ d ∷ q
    → rstrip b'/' (root (d ∷ q)) ≡ page
    → csrf_origin_guard trust s r ≡ any (allowed_origins trust s r) (λ a. same (rstrip b'/' a) page)
unfolding csrf_origin_guard same
guard-any trust s r d q page g e k = rw (g, e, k) refl

-- The host of a page is one that may make the panel write: that of the `Host` header; that of the
-- public domain, without a scheme and slashes around it, if one is set; or the last forwarded one, if
-- there is one and proxies are trusted.
abbrev pub own_page_host : Bool → Settings → Request → Codes → Bool
own_page_host trust s r h =
    let domain = strip_codes (codes (text_or "public_domain" "" s)) in
    let forwarded = strip_codes r.forwarded_host in
    answers_to h (strip_codes r.host)
    || (not (same domain []) && answers_to h (lstrip b'/' (last_part [] domain)))
    || (trust
        && (not (same forwarded []) && answers_to h (strip_codes (after_last b',' forwarded))))

rstrip-twice : (x : ℕ) (s : Codes) → rstrip x (rstrip x s) ≡ rstrip x s
unfolding rstrip
rstrip-twice x [] = refl
rstrip-twice x (c ∷ s) = once_more (rstrip x s) (rstrip-twice x s)
  where
    once_more :
        (r : Codes)
        → rstrip x r ≡ r
        → rstrip x (elim r [ [] ↦ if eqb c x then [] else c ∷ [] | d ∷ t ↦ c ∷ d ∷ t ])
          ≡ elim r [ [] ↦ if eqb c x then [] else c ∷ [] | d ∷ t ↦ c ∷ d ∷ t ]
    once_more [] e = elim (Bool-cases (eqb c x)) [ inl h ↦ rw h refl | inr h ↦ rw (h, h) refl ]
    once_more (d ∷ t) e = rw e refl

hosts-own :
    (trust : Bool) (s : Settings) (r : Request) (h : Codes)
    → any (hosts trust s r) (answers_to h) ≡ own_page_host trust s r h
unfolding hosts
hosts-own trust s r h =
    let domain = strip_codes (codes (text_or "public_domain" "" s)) in
    ground (arith, ap (λ x. same x h) (rstrip-twice b'/' (lstrip b'/' (last_part [] domain))))

-- A request that is guarded, from a page under http or https on the host (with its port) `h`, as its
-- `Origin` without a path or its `Referer` with any path says, passes exactly if `h` is the host of
-- the `Host` header or of the public domain or, where proxies are trusted, the last forwarded host.
pub csrf_origin_guard-exact :
    (trust : Bool) (s : Settings) (r : Request) (scheme : String) (h : Codes) (path : Option Codes)
    → guarded r ≡ true
    → one_of scheme ("https:" ∷ "http:" ∷ []) ≡ true
    → same h [] ≡ false
    → Lacks b'/' h
    → source r ≡ codes scheme ++ b'/' ∷ b'/' ∷ (h ++ then_path path)
    → csrf_origin_guard trust s r ≡ own_page_host trust s r h
unfolding same allowed_origins
csrf_origin_guard-exact trust s r scheme [] path g sch n l = ground (arith, n)
csrf_origin_guard-exact trust s r scheme (c ∷ t) path g sch n l =
    one_of-elim
      (λ p.
        source r ≡ codes p ++ b'/' ∷ b'/' ∷ (c ∷ t ++ then_path path)
        → csrf_origin_guard trust s r ≡ own_page_host trust s r (c ∷ t))
      scheme ("https:" ∷ "http:" ∷ [])
      (
        λ e.
            guard-any trust s r _ _ _ g e (page_kept (codes "https:") c t path page_schemes.0 l)
            ∙ (origins-page (hosts trust s r) c t).0
            ∙ hosts-own trust s r (c ∷ t),
        (
          λ e.
              guard-any trust s r _ _ _ g e (page_kept (codes "http:") c t path page_schemes.1 l)
              ∙ (origins-page (hosts trust s r) c t).1
              ∙ hosts-own trust s r (c ∷ t),
          tt,
        ),
      )
      sch
