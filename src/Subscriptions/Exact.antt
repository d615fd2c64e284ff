-- ===== src/Subscriptions/Exact.antt =====
-- What the payload of a group holds.
use testuder.Prelude.{
  ◌≡◌, inl, inr, String, refl, ap, Bool, false, ◌&&◌, ◌||◌, Option, none, some, List, [], ◌∷◌, ◌++◌,
  arith, if◌then◌else◌, Bool-cases, any, any-append, ◌∙◌,
}
use testuder.Codes.{Codes, same, same_iff}
use testuder.User.{User}
use testuder.Db.{Db, Subscription}
use testuder.Db.Users.{get_user}
use testuder.Subscriptions.{add_member, members_of, seen, add_lines, add_members, group_payload}

-- No line stands twice.
abbrev pub NoRepeat : List Codes → Type 0
NoRepeat [] = Unit
NoRepeat (l ∷ ls) = (seen l ls ≡ false) × NoRepeat ls

-- The row is enabled, and the line is one of its links.
abbrev pub row_gives : (User → List Codes) → Codes → Option User → Bool
row_gives links_for line none = false
row_gives links_for line (some u) = u.enabled && seen line (links_for u)

-- The uid is that of a row that gives the line.
abbrev pub gives_line : (User → List Codes) → Db → Codes → String → Bool
gives_line links_for d line uid = row_gives links_for line (get_user uid d)

seen-append : (l : Codes) (xs ys : List Codes) → seen l (xs ++ ys) ≡ (seen l xs || seen l ys)
unfolding seen
seen-append l xs ys = any-append xs ys (λ x. same l x)

seen-one : (l x : Codes) → seen l (x ∷ []) ≡ same l x
unfolding seen
seen-one l x = ground arith

-- one link is added, unless it is empty or there
seen-add_line :
    (l x : Codes) (links : List Codes)
    → same l [] ≡ false
    → seen l (if same x [] || seen x links then links else links ++ x ∷ [])
      ≡ (seen l links || same l x)
seen-add_line l x links h = elim (Bool-cases (same l x)) [
  | inl e ↦
      let p = (same_iff l x).0 e in
      ground (
        arith,
        e,
        h,
        ap (λ m. seen m links) p,
        ap (λ m. same m []) p,
        seen-append l links (x ∷ []),
        seen-one l x,
      )
  | inr e ↦ ground (arith, e, seen-append l links (x ∷ []), seen-one l x)
]

seen-add_lines :
    (l : Codes) (lines links : List Codes)
    → same l [] ≡ false
    → seen l (add_lines lines links) ≡ (seen l links || seen l lines)
unfolding add_lines seen
seen-add_lines l [] links h = ground arith
seen-add_lines l (x ∷ lines) links h =
    seen-add_lines l lines (if same x [] || seen x links then links else links ++ x ∷ []) h
    ∙ ground (arith, seen-add_line l x links h)

seen-add_members :
    (links_for : User → List Codes) (l : Codes) (us : List User) (links : List Codes)
    → same l [] ≡ false
    → seen l (add_members links_for us links) ≡ (seen l links || any us (λ u. seen l (links_for u)))
unfolding add_members
seen-add_members links_for l [] links h = ground arith
seen-add_members links_for l (u ∷ us) links h =
    seen-add_members links_for l us (add_lines (links_for u) links) h
    ∙ ground (arith, seen-add_lines l (links_for u) links h)

any-add_member :
    (links_for : User → List Codes) (l : Codes) (o : Option User) (us : List User)
    → any (add_member o us) (λ u. seen l (links_for u))
      ≡ (row_gives links_for l o || any us (λ u. seen l (links_for u)))
unfolding add_member
any-add_member links_for l none us = refl
any-add_member links_for l (some u) us = ground arith

any-members_of :
    (links_for : User → List Codes) (l : Codes) (uids : List String) (d : Db)
    → any (members_of uids d) (λ u. seen l (links_for u)) ≡ any uids (gives_line links_for d l)
unfolding members_of
any-members_of links_for l [] d = refl
any-members_of links_for l (uid ∷ uids) d =
    any-add_member links_for l (get_user uid d) (members_of uids d)
    ∙ ap (λ b. gives_line links_for d l uid || b) (any-members_of links_for l uids d)

same_sym : (l x : Codes) → same l x ≡ false → same x l ≡ false
same_sym l x h = ground (arith, same_iff l x, same_iff x l)

NoRepeat-append :
    (x : Codes) (links : List Codes)
    → seen x links ≡ false
    → NoRepeat links
    → NoRepeat (links ++ x ∷ [])
unfolding seen
NoRepeat-append x [] h n = (refl, tt)
NoRepeat-append x (l ∷ links) h n = (
  seen-append l links (x ∷ []) ∙ ground (arith, n.0, h, seen-one l x, same_sym x l),
  NoRepeat-append x links (ground arith) n.1,
)

-- what the loop keeps: no line twice, and no empty line
abbrev Clean : List Codes → Type 0
Clean links = NoRepeat links × (seen [] links ≡ false)

add_line-Clean :
    (x : Codes) (links : List Codes)
    → Clean links
    → Clean (if same x [] || seen x links then links else links ++ x ∷ [])
add_line-Clean x links c = elim (Bool-cases (same x [] || seen x links)) [
  | inl e ↦ rw e c
  | inr e ↦ rw e (
    NoRepeat-append x links (ground arith) c.0,
    seen-append [] links (x ∷ []) ∙ ground (arith, c.1, e, seen-one [] x, same_sym x []),
  )
]

add_lines-Clean : (lines links : List Codes) → Clean links → Clean (add_lines lines links)
unfolding add_lines seen
add_lines-Clean [] links c = c
add_lines-Clean (x ∷ lines) links c =
    add_lines-Clean lines (if same x [] || seen x links then links else links ++ x ∷ [])
      (add_line-Clean x links c)

add_members-Clean :
    (links_for : User → List Codes) (us : List User) (links : List Codes)
    → Clean links
    → Clean (add_members links_for us links)
unfolding add_members
add_members-Clean links_for [] links c = c
add_members-Clean links_for (u ∷ us) links c =
    add_members-Clean links_for us (add_lines (links_for u) links)
      (add_lines-Clean (links_for u) links c)

-- The links of a group's payload: none stands twice and none is empty, and a line that is not empty
-- is among them exactly if it is a link of an enabled user whose uid the group lists.
pub group_payload-exact :
    (links_for info_for : User → List Codes) (sub : Subscription) (d : Db)
    → NoRepeat (group_payload links_for info_for sub d).links
      × (seen [] (group_payload links_for info_for sub d).links ≡ false)
      × ((line : Codes)
          → same line [] ≡ false
          → seen line (group_payload links_for info_for sub d).links
            ≡ any sub.member_uids (gives_line links_for d line))
unfolding group_payload seen
group_payload-exact links_for info_for sub d =
    let us = members_of sub.member_uids d in
    let clean = add_members-Clean links_for us [] (tt, refl) in
    (
      clean.0,
      clean.1,
      λ line h.
          seen-add_members links_for line us [] h ∙ any-members_of links_for line sub.member_uids d,
    )
