-- ===== src/Stats.antt =====
-- app/xray.py `get_xray_stats`: from the counters of the Xray API to traffic deltas. The reply of the
-- API is a list of its items; running the command and decoding its JSON are outside.
pub mod Keys
pub mod Polls
use Prim.Native.Char.{code}
use Prim.Native.String
use testuder.Prelude.{
  ◌≡◌, ◌≢◌, ◌↔◌, ◌⊎◌, inl, inr, ℕ, zero, suc, ◌+◌, ◌-◌, ◌*◌, ◌/◌, ◌%◌, ◌≤◌, ◌<◌, String, refl, sym,
  ap, Bool, true, false, ◌&&◌, ◌||◌, not, Option, none, some, List, [], ◌∷◌, ◌++◌, map, arith, ◌==◌,
  eq_iff, eq_refl, ltb, leb, eqb, if◌then◌else◌, Bool-cases, Option-cases, &&-split, length, take,
  any, all, filter, find?, All, any-append, all-append, find?-sound, any-filter, All-append,
  All-filter, All-map, All-of_forall, All-mono, any-map, length-map, lower, truncate, strip, one_of,
  or_else, one_of-elim, coerce_to, lookup, insert, remove, lookup-insert, lookup-remove,
  lookup-insert_self, append, subst, ◌∙◌,
}
use testuder.Tasks.{Delta}

-- One entry of `data["stat"]`; "" is a name that is absent.
pub record Item : Type 0 where
  pub name : String
  pub value : Option ℕ

pub record Counter : Type 0 where
  pub up : ℕ
  pub down : ℕ

abbrev pub Counters : Type 0
Counters = List (String × Counter)

abbrev pub zero_counter : Counter
zero_counter = record { up = 0; down = 0 }

-- `name.split(">>>")`
split_from : String → String → List String
split_from cur (String.◌∷◌ a (String.◌∷◌ b (String.◌∷◌ c s))) =
    let closed = cur ∷ split_from "" s in
    let longer = split_from (append cur (String.◌∷◌ a "")) (String.◌∷◌ b (String.◌∷◌ c s)) in
    if eqb (code a) b'>' && eqb (code b) b'>' && eqb (code c) b'>' then closed else longer
split_from cur s = append cur s ∷ []

split_name : String → List String
unfolding split_from
split_name s = split_from "" s

abbrev pub or_zero : Option Counter → Counter
or_zero none = zero_counter
or_zero (some c) = c

-- the counters of a user, or zeros: `.get(uid, {"up": 0, "down": 0})`
abbrev pub at : String → Counters → Counter
at k m = or_zero (lookup k m)

-- `current.setdefault(uid, …)`, then the direction's counter
count_in : String → ℕ → Counter → Counter
count_in direction v c =
    if direction == "uplink"
    then record c { up = c.up + v }
    else if direction == "downlink"
    then record c { down = c.down + v }
    else c

-- A name counts if it is `user>>>UID>>>traffic>>>DIRECTION`.
add_parts : List String → ℕ → Counters → Counters
unfolding count_in
add_parts (kind ∷ uid ∷ what ∷ direction ∷ []) v m =
    if (kind == "user") && (what == "traffic")
    then insert uid (count_in direction v (at uid m)) m
    else m
add_parts parts v m = m

add_value : String → Option ℕ → Counters → Counters
unfolding add_parts split_name
add_value name none m = m
add_value name (some v) m = if name == "" then m else add_parts (split_name name) v m

unfoldable pub collect : List Item → Counters → Counters
unfolding add_value
collect [] m = m
collect (i ∷ is) m = collect is (add_value i.name i.value m)

-- The growth since the last poll. A counter that fell was reset, and counts from 0.
unfoldable pub growth : ℕ → ℕ → ℕ
growth now before = if ltb now before then now else now - before

delta_of : String → Counter → Counter → Delta
unfolding growth
delta_of uid c prev = record { uid = uid; up = growth c.up prev.up; down = growth c.down prev.down }

-- the loop over `current.items()`
unfoldable pub deltas : Counters → Counters → List Delta
unfolding delta_of
deltas prev [] = []
deltas prev ((uid, c) ∷ m) =
    let x = delta_of uid c (at uid prev) in
    let rest = deltas prev m in if ltb 0 x.up || ltb 0 x.down then x ∷ rest else rest

-- `get_xray_stats()`: the deltas, and the new `_previous_stats`
unfoldable pub poll : List Item → Counters → List Delta × Counters
poll items prev = let current = collect items [] in (deltas prev current, current)
