-- ===== src/Stats/Keys.antt =====
-- A dict built by assignment has each key once.
use testuder.Prelude.{
  ◌≡◌, inl, inr, ℕ, String, refl, ◌&&◌, Option, none, some, List, [], ◌∷◌, arith, ◌==◌, eq_iff,
  Bool-cases, lookup, insert, lookup-insert,
}
use testuder.Stats.{
  Item, Counter, Counters, at, count_in, add_parts, add_value, split_name, collect,
}

abbrev pub UniqueKeys : Counters → Type 0
UniqueKeys [] = Unit
UniqueKeys ((k, c) ∷ m) = (lookup k m ≡ none) × UniqueKeys m

insert-UniqueKeys :
    (k : String) (c : Counter) (m : Counters) → UniqueKeys m → UniqueKeys (insert k c m)
unfolding insert
insert-UniqueKeys k c [] h = unfold lookup in (refl, tt)
insert-UniqueKeys k c ((j, d) ∷ m) h = elim (Bool-cases (j == k)) [
  | inl e ↦ rw e (rw (← (eq_iff j k).0 e) h.0, h.1)
  | inr e ↦ rw e (
    ground (arith, lookup-insert k j c m, eq_iff k j, eq_iff j k, h.0),
    insert-UniqueKeys k c m h.1,
  )
]

add_parts-UniqueKeys :
    (ps : List String) (v : ℕ) (m : Counters) → UniqueKeys m → UniqueKeys (add_parts ps v m)
unfolding add_parts
add_parts-UniqueKeys (kind ∷ uid ∷ what ∷ direction ∷ []) v m h =
    elim (Bool-cases ((kind == "user") && (what == "traffic"))) [
      | inl e ↦ rw e (insert-UniqueKeys uid (count_in direction v (at uid m)) m h)
      | inr e ↦ rw e h
    ]
add_parts-UniqueKeys _ v m h = h

add_value-UniqueKeys :
    (name : String) (v : Option ℕ) (m : Counters) → UniqueKeys m → UniqueKeys (add_value name v m)
unfolding add_value
add_value-UniqueKeys name none m h = h
add_value-UniqueKeys name (some v) m h = elim (Bool-cases (name == "")) [
  | inl e ↦ rw e h
  | inr e ↦ rw e (add_parts-UniqueKeys (split_name name) v m h)
]

pub collect-UniqueKeys : (is : List Item) (m : Counters) → UniqueKeys m → UniqueKeys (collect is m)
unfolding collect
collect-UniqueKeys [] m h = h
collect-UniqueKeys (i ∷ is) m h =
    collect-UniqueKeys is (add_value i.name i.value m) (add_value-UniqueKeys i.name i.value m h)
