-- ===== src/Handlers/Settings/Valid.antt =====
-- `api_set_settings` stores only values that the config generator can use.
use testuder.Prelude.{
  ◌≡◌, inl, inr, ℕ, String, refl, Bool, true, false, ◌&&◌, ◌||◌, not, Option, none, some, [], ◌∷◌,
  arith, ◌==◌, if◌then◌else◌, Bool-cases, Option-cases, &&-split, all, one_of, one_of-elim, insert,
  subst,
}
use testuder.Value.{Value, num, to_text, to_int}
use testuder.Config.{valid_fingerprints, valid_alpns}
use testuder.Settings.{Settings}
use testuder.Tuning.{profiles, xhttp_modes}
use testuder.Db.{Db, set_setting, set_settings}
use testuder.Db.Events.{add_event}
use testuder.Panel.{Panel}
use testuder.Handlers.Settings.{
  keep, ℤ, as_number, is_setting, accept, updates, api_set_settings, text_in, padding_fits,
  number_keys, tcp_congestion,
}

abbrev pub is_number : Value → Bool
is_number (num n) = true
is_number _ = false

-- What a stored row must be, by its key.
abbrev pub row_valid : String × Value → Bool
row_valid (k, v) =
    (not (k == "default_fingerprint") || text_in valid_fingerprints v)
    && (not (k == "default_alpn") || text_in valid_alpns v)
    && (not (k == "operator_profile") || one_of (to_text v) profiles)
    && (not (k == "xhttp_mode") || one_of (to_text v) xhttp_modes)
    && (not (k == "tcp_congestion") || one_of (to_text v) tcp_congestion)
    && (not (k == "xhttp_padding") || padding_fits v)
    && (not (one_of k number_keys) || is_number v)

from_number :
    (b : Bool) (n : Option ℤ) (w : Value)
    → (if not b then none else as_number n) ≡ some w
    → is_number w ≡ true
unfolding as_number
from_number false n w h = ground arith
from_number true none w h = ground arith
from_number true (some n) w h = ground arith

accept_number-valid :
    (k : String) (v w : Value)
    → one_of k number_keys ≡ true
    → accept k v ≡ some w
    → row_valid (k, w) ≡ true
unfolding accept
accept_number-valid k v w =
    one_of-elim (λ j. accept j v ≡ some w → row_valid (j, w) ≡ true) k number_keys
      (
        from_number (is_setting "tcp_keepalive_idle") (to_int v) w,
        (
          from_number (is_setting "tcp_user_timeout") (to_int v) w,
          (
            from_number (is_setting "wg_keepalive") (to_int v) w,
            (from_number (is_setting "wg_mtu") (to_int v) w, tt),
          ),
        ),
      )

peel :
    (b : Bool) (o : Option Value) (w : Value)
    → (if b then none else o) ≡ some w
    → (b ≡ false) × (o ≡ some w)
peel true o w h = ground arith
peel false o w h = (refl, h)

otherwise :
    (b : Bool) (x y : Option Value) (w : Value)
    → b ≡ false
    → (if b then x else y) ≡ some w
    → y ≡ some w
otherwise true x y w e h = ground arith
otherwise false x y w e h = h

implied : (a q : Bool) → (a && not q) ≡ false → (not a || q) ≡ true
implied true true h = refl
implied true false h = ground arith
implied false q h = refl

both : (a b : Bool) → a ≡ true → b ≡ true → (a && b) ≡ true
both a b h g = rw (h, g) refl

abbrev fails : String → String → Bool → Bool
fails k j q = (k == j) && not q

accept_other-valid :
    (k : String) (v w : Value)
    → one_of k number_keys ≡ false
    → accept k v ≡ some w
    → row_valid (k, w) ≡ true
unfolding accept
accept_other-valid k v w n h =
    let h0 = peel (not (is_setting k)) _ w h in
    let h1 = peel (fails k "default_fingerprint" (text_in valid_fingerprints v)) _ w h0.1 in
    let h2 = peel (fails k "default_alpn" (text_in valid_alpns v)) _ w h1.1 in
    let h3 = peel (fails k "operator_profile" (one_of (to_text v) profiles)) _ w h2.1 in
    let h4 = peel (fails k "xhttp_mode" (one_of (to_text v) xhttp_modes)) _ w h3.1 in
    let h5 = peel (fails k "tcp_congestion" (one_of (to_text v) tcp_congestion)) _ w h4.1 in
    let h6 = peel (fails k "xhttp_padding" (padding_fits v)) _ w h5.1 in
    subst (λ (x : Value). row_valid (k, x) ≡ true)
      (same v w (otherwise (one_of k number_keys) _ (some v) w n h6.1))
      (both _ _
        (both _ _
          (both _ _
            (both _ _
              (both _ _
                (both _ _ (implied (k == "default_fingerprint") (text_in valid_fingerprints v) h1.0)
                  (implied (k == "default_alpn") (text_in valid_alpns v) h2.0))
                (implied (k == "operator_profile") (one_of (to_text v) profiles) h3.0))
              (implied (k == "xhttp_mode") (one_of (to_text v) xhttp_modes) h4.0))
            (implied (k == "tcp_congestion") (one_of (to_text v) tcp_congestion) h5.0))
          (implied (k == "xhttp_padding") (padding_fits v) h6.0))
        (number_free v))
  where
    same : (v w : Value) → some v ≡ some w → v ≡ w
    same v w e = ground arith

    number_free : (v : Value) → (not (one_of k number_keys) || is_number v) ≡ true
    number_free v = rw n refl

accept-valid : (k : String) (v w : Value) → accept k v ≡ some w → row_valid (k, w) ≡ true
accept-valid k v w h = elim (Bool-cases (one_of k number_keys)) [
  | inl n ↦ accept_number-valid k v w n h
  | inr n ↦ accept_other-valid k v w n h
]

updates-valid : (m : Settings) → all (updates m) row_valid ≡ true
unfolding updates keep
updates-valid [] = refl
updates-valid ((k, v) ∷ m) = elim (Option-cases (accept k v)) [
  | inl e ↦ rw e (updates-valid m)
  | inr (w, e) ↦ rw e (both _ _ (accept-valid k v w e) (updates-valid m))
]

insert-valid :
    (k : String) (v : Value) (m : Settings)
    → row_valid (k, v) ≡ true
    → all m row_valid ≡ true
    → all (insert k v m) row_valid ≡ true
unfolding insert
insert-valid k v [] r h = rw r refl
insert-valid k v ((j, w) ∷ m) r h =
    let parts = &&-split (row_valid (j, w)) (all m row_valid) h in
    elim (Bool-cases (j == k)) [
      | inl e ↦ rw e (both _ _ r parts.1)
      | inr e ↦ rw e (both _ _ parts.0 (insert-valid k v m r parts.1))
    ]

set_settings-valid :
    (m : Settings) (d : Db)
    → all m row_valid ≡ true
    → all d.settings row_valid ≡ true
    → all (set_settings m d).settings row_valid ≡ true
unfolding set_settings set_setting
set_settings-valid [] d r h = h
set_settings-valid ((k, v) ∷ m) d r h =
    let parts = &&-split (row_valid (k, v)) (all m row_valid) r in
    set_settings-valid m (set_setting k v d) parts.1 (insert-valid k v d.settings parts.0 h)

-- Whatever a request asks for, stored settings that are valid stay valid: fingerprint, ALPN, operator
-- profile, XHTTP mode and congestion control from their tables, padding a range, the four counts
-- numbers.
pub api_set_settings-valid :
    (now : ℕ) (shown : String) (body : Settings) (p : Panel)
    → all p.db.settings row_valid ≡ true
    → all (api_set_settings now shown body p).1.db.settings row_valid ≡ true
unfolding api_set_settings add_event
api_set_settings-valid now shown body p h =
    set_settings-valid (updates body) p.db (updates-valid body) h
