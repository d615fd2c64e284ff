-- ===== src/Reality/Grace.antt =====
-- Rotating the Reality short id: what the inbound goes on accepting.
use testuder.Prelude.{
  lookup-insert_self, ◌≡◌, ◌+◌, ◌-◌, ◌≤◌, String, refl, true, false, ◌||◌, List, [], ◌∷◌, ◌++◌,
  arith, ◌==◌, eq_iff, length, one_of, ◌∙◌,
}
use testuder.Db.{get_meta, set_meta, set_setting, Db}
use testuder.Reality.{
  text, or_list, Keys, add_new, last_12, accepted_short_ids, without, rotate_short_id,
}

one_of-append :
    (s : String) (xs ys : List String) → one_of s (xs ++ ys) ≡ (one_of s xs || one_of s ys)
one_of-append s [] ys = refl
one_of-append s (x ∷ xs) ys = ground (arith, one_of-append s xs ys)

one_of-add_new :
    (s : String) (out vs : List String) → one_of s (add_new out vs) ≡ (one_of s out || one_of s vs)
unfolding add_new
one_of-add_new s out [] = ground arith
one_of-add_new s out (v ∷ vs) = ground (
  arith,
  one_of-add_new s out vs,
  one_of-add_new s (out ++ v ∷ []) vs,
  one_of-append s out (v ∷ []),
  eq_iff s v,
)

one_of-without :
    (s t : String) (xs : List String) → (s == t) ≡ false → one_of s (without t xs) ≡ one_of s xs
one_of-without s t [] h = refl
one_of-without s t (x ∷ xs) h = ground (arith, one_of-without s t xs h, eq_iff s x, eq_iff x t)

length-without : (t : String) (xs : List String) → length (without t xs) ≤ length xs
length-without t [] = omega arith
length-without t (x ∷ xs) = ground (arith, length-without t xs)

length-append : (xs ys : List String) → length (xs ++ ys) ≡ length xs + length ys
length-append [] ys = omega arith
length-append (x ∷ xs) ys = ground (arith, length-append xs ys)

last_12-short : (xs : List String) → length xs ≤ 12 → last_12 xs ≡ xs
unfolding last_12
last_12-short xs h = let e : length xs - 12 ≡ 0 = omega arith in rw e refl

one_of-or_list :
    (s : String) (xs ds : List String) → one_of s xs ≡ true → one_of s (or_list xs ds) ≡ true
unfolding or_list
one_of-or_list s [] ds h = ground arith
one_of-or_list s (x ∷ xs) ds h = h

kept :
    (sid s : String) (old more : List String)
    → one_of s (sid ∷ old) ≡ true
    → one_of s ((without sid old ++ sid ∷ more) ++ sid ∷ []) ≡ true
kept sid s old more a = ground (
  arith,
  one_of-append s (without sid old ++ sid ∷ more) (sid ∷ []),
  one_of-append s (without sid old) (sid ∷ more),
  one_of-without s sid old,
)

accepts_published :
    (s sid : String) (xs : List String) (k : Keys) (d : Db)
    → one_of s (add_new [] (xs ++ sid ∷ [])) ≡ true
    → one_of s (
        accepted_short_ids
          (record k { sids = xs })
          (set_setting "reality_sid" (text sid) (set_meta "reality_sid" sid d)))
      ≡ true
unfolding accepted_short_ids set_setting set_meta get_meta
accepts_published s sid xs k d h =
    rw (lookup-insert_self "reality_sid" sid d.meta)
      (one_of-or_list s (add_new [] (xs ++ sid ∷ [])) ("" ∷ []) h)

-- While the accepted ids and the new ones are at most twelve, rotating with grace keeps every id that
-- was accepted, and accepts the id that is published from now on.
pub rotate-keeps :
    (sid s : String) (more : List String) (k : Keys) (d : Db)
    → length (accepted_short_ids k d) + length (sid ∷ more) ≤ 12
    → one_of s (sid ∷ accepted_short_ids k d) ≡ true
    → one_of s (
        accepted_short_ids
          (rotate_short_id sid more true k d).0
          (rotate_short_id sid more true k d).1)
      ≡ true
unfolding rotate_short_id
rotate-keeps sid s more k d h a =
    let old = accepted_short_ids k d in
    let xs = without sid old ++ sid ∷ more in
    rw
      (last_12-short xs
        (ground (arith, length-append (without sid old) (sid ∷ more), length-without sid old)))
      (accepts_published s sid xs k d
        (one_of-add_new s [] (xs ++ sid ∷ []) ∙ kept sid s old more a))
