-- ===== src/Subfmt/Vless/Dialled.antt =====
-- What the client is to dial for a VLESS user, and that the pairs of each transport give it.
use testuder.Subfmt.Vless.Fields.{
  entry_over_host, entry_over_grpc, entry_over_tls, entry_plain, entry_over_reality,
}
use testuder.Tuning.{client_only_modes, fragment_values, flow_for, xhttp_mode, fragment_in_link}
use testuder.Settings.{get_text, text_or}
use testuder.User.{User}
use testuder.Prelude.{
  ◌≡◌, inl, inr, String, refl, false, ◌&&◌, ◌||◌, not, [], ◌∷◌, ◌==◌, eq_iff, if◌then◌else◌,
  Bool-cases, one_of, or_else, ◌∙◌,
}
use testuder.Codes.{split, Codes, codes, or_codes, same, is_one_of}
use testuder.Links.{
  grpc_service, grpc_params, fingerprint_of, path_for, fragment_params, host_params, sni_of,
  vless_params, reality_params,
}
use testuder.Subfmt.{Settings, Entry, words, url_entry}
use testuder.Subfmt.Params.{values}

-- What the client is to dial: `e` has the address, and the rest is by transport and security.
abbrev pub over : String → User → Settings → String → String → Entry → Entry
over host u s sec t e =
    let reality = sec == "reality" in
    let tls = sec == "tls" in
    let web = not reality && one_of t ("ws" ∷ "xhttp" ∷ "httpupgrade" ∷ []) in
    let bare = not reality && ((t == "tcp") && not tls) in
    let rsni = text_or "reality_sni" (sni_of host s) s in
    record e {
      cipher = codes "none";
      transport = codes (if reality then "tcp" else t);
      security = codes (if reality then "reality" else if tls then "tls" else "none");
      path = codes (if web then path_for "vless" t else "");
      host = codes (if web then host else "");
      sni = codes (if reality then rsni else if bare then "" else sni_of host s);
      fp = codes (if bare then "" else fingerprint_of u s);
      alpn = if web || (not reality && ((t == "tcp") && tls)) then words (codes u.alpn) else [];
      service = codes (if not reality && (t == "grpc") then "titan" else "");
      flow = codes (if reality then flow_for s "tcp" "reality" else "");
      mode =
          if web && ((t == "xhttp") && one_of (xhttp_mode s) client_only_modes)
          then codes (xhttp_mode s)
          else [];
      pbk = codes (if reality then or_else u.public_key (get_text "reality_pub" "" s) else "");
      sid = codes (if reality then or_else u.short_id (get_text "reality_sid" "" s) else "");
      spx = codes (if reality then or_else u.spider_x rsni else "");
    }

words_none : (s : String) → (if s == "" then [] else words (codes s)) ≡ words (codes s)
unfolding words split same
words_none s = elim (Bool-cases (s == "")) [ inl e ↦ rw ((eq_iff s "").0 e) | inr e ↦ rw e ]

codes_none : (s : String) → (if s == "" then [] else codes s) ≡ codes s
codes_none s = elim (Bool-cases (s == "")) [ inl e ↦ rw ((eq_iff s "").0 e) | inr e ↦ rw e ]

or_codes-nil : (s : Codes) → or_codes s [] ≡ s
unfolding or_codes
or_codes-nil [] = refl
or_codes-nil (c ∷ s) = refl

module _ (rest name : Codes) (host : String) (u : User) (s : Settings) where
  -- the entry that the pairs of a transport give
  abbrev pub Gives : String → String → Type 0
  Gives sec t =
      url_entry (codes "vless") rest (values (vless_params host u s sec t)) name
      ≡ over host u s sec t (url_entry (codes "vless") rest [] name)

  pub gives_reality :
      (t : String)
      → url_entry (codes "vless") rest (values (reality_params host u s)) name
        ≡ over host u s "reality" t (url_entry (codes "vless") rest [] name)
  unfolding reality_params fragment_params url_entry same split is_one_of or_codes
  gives_reality t =
      let rsni = text_or "reality_sni" (sni_of host s) s in
      let pbk = or_else u.public_key (get_text "reality_pub" "" s) in
      let sid = or_else u.short_id (get_text "reality_sid" "" s) in
      let spx = or_else u.spider_x rsni in
      let flow = flow_for s "tcp" "reality" in
      entry_over_reality (flow == "") (fragment_in_link s) rest name pbk sid rsni spx
        (fingerprint_of u s) flow (fragment_values s).0 (fragment_values s).1
      ∙ rw (
        or_codes-nil (codes pbk),
        or_codes-nil (codes sid),
        or_codes-nil (codes spx),
        codes_none flow,
      )

  pub Gives-ws : (sec : String) → (sec == "reality") ≡ false → Gives sec "ws"
  unfolding vless_params host_params fragment_params path_for or_codes url_entry
  Gives-ws sec k = elim (Bool-cases (sec == "tls")) [
    | inl e ↦
        rw (k, e, ← words_none u.alpn)
          (entry_over_host (u.alpn == "") false (fragment_in_link s) rest name "tls" "ws" host
            "/vl-ws" (sni_of host s) (fingerprint_of u s) u.alpn (xhttp_mode s)
            (fragment_values s).0 (fragment_values s).1)
    | inr e ↦
        rw (k, e, ← words_none u.alpn)
          (entry_over_host (u.alpn == "") false (fragment_in_link s) rest name "none" "ws" host
            "/vl-ws" (sni_of host s) (fingerprint_of u s) u.alpn (xhttp_mode s)
            (fragment_values s).0 (fragment_values s).1)
  ]

  pub Gives-httpupgrade : (sec : String) → (sec == "reality") ≡ false → Gives sec "httpupgrade"
  unfolding vless_params host_params fragment_params path_for or_codes url_entry
  Gives-httpupgrade sec k = elim (Bool-cases (sec == "tls")) [
    | inl e ↦
        rw (k, e, ← words_none u.alpn)
          (entry_over_host (u.alpn == "") false (fragment_in_link s) rest name "tls" "httpupgrade"
            host "/hup" (sni_of host s) (fingerprint_of u s) u.alpn (xhttp_mode s)
            (fragment_values s).0 (fragment_values s).1)
    | inr e ↦
        rw (k, e, ← words_none u.alpn)
          (entry_over_host (u.alpn == "") false (fragment_in_link s) rest name "none" "httpupgrade"
            host "/hup" (sni_of host s) (fingerprint_of u s) u.alpn (xhttp_mode s)
            (fragment_values s).0 (fragment_values s).1)
  ]

  pub Gives-xhttp : (sec : String) → (sec == "reality") ≡ false → Gives sec "xhttp"
  unfolding vless_params host_params fragment_params path_for or_codes url_entry
  Gives-xhttp sec k = elim (Bool-cases (sec == "tls")) [
    | inl e ↦
        rw (k, e, ← words_none u.alpn)
          (entry_over_host (u.alpn == "") (one_of (xhttp_mode s) client_only_modes)
            (fragment_in_link s) rest name "tls" "xhttp" host "/xhttp" (sni_of host s)
            (fingerprint_of u s) u.alpn (xhttp_mode s) (fragment_values s).0 (fragment_values s).1)
    | inr e ↦
        rw (k, e, ← words_none u.alpn)
          (entry_over_host (u.alpn == "") (one_of (xhttp_mode s) client_only_modes)
            (fragment_in_link s) rest name "none" "xhttp" host "/xhttp" (sni_of host s)
            (fingerprint_of u s) u.alpn (xhttp_mode s) (fragment_values s).0 (fragment_values s).1)
  ]

  pub Gives-grpc : (sec : String) → (sec == "reality") ≡ false → Gives sec "grpc"
  unfolding vless_params grpc_params or_codes url_entry same split
  Gives-grpc sec k = elim (Bool-cases (sec == "tls")) [
    | inl e ↦
        rw (k, e)
          (entry_over_grpc rest name "tls" "grpc" grpc_service (sni_of host s) (fingerprint_of u s))
    | inr e ↦
        rw (k, e)
          (entry_over_grpc rest name "none" "grpc" grpc_service (sni_of host s)
            (fingerprint_of u s))
  ]

  pub Gives-tcp : (sec : String) → (sec == "reality") ≡ false → Gives sec "tcp"
  unfolding vless_params or_codes url_entry same split
  Gives-tcp sec k = elim (Bool-cases (sec == "tls")) [
    | inl e ↦
        rw (k, e, ← words_none u.alpn)
          (entry_over_tls (u.alpn == "") rest name (sni_of host s) (fingerprint_of u s) u.alpn)
    | inr e ↦ rw (k, e) (entry_plain rest name "none")
  ]
