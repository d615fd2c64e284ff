-- ===== src/Db/Traffic.antt =====
-- app/db.py, the table `traffic_hourly`: one row to the hour, a week of them.
use testuder.Prelude.{ℕ, ◌+◌, List, [], ◌∷◌, leb, eqb, if◌then◌else◌, filter}
use testuder.Db.{ltb, Db, Bucket}

abbrev pub week : ℕ
week = 604800

unfoldable pub add_to : ℕ → ℕ → ℕ → List Bucket → List Bucket
add_to at up down [] = record { at = at; up = up; down = down } ∷ []
add_to at up down (b ∷ bs) =
    let rest = add_to at up down bs in
    if eqb b.at at
    then record b { up = b.up + up; down = b.down + down } ∷ bs
    else if ltb at b.at
    then record { at = at; up = up; down = down } ∷ b ∷ bs
    else b ∷ rest

-- `add_traffic(bucket, up, down)`; `bucket < at - week` is written without a negative number
unfoldable pub add_traffic : ℕ → ℕ → ℕ → Db → Db
unfolding add_to
add_traffic at up down d = record d {
  traffic = filter (λ b. leb at (b.at + week)) (add_to at up down d.traffic);
}

-- `get_traffic(bucket_from)`: the rows are kept in the order of their buckets, which are their row ids
unfoldable pub get_traffic : ℕ → Db → List Bucket
get_traffic from d = filter (λ b. leb from b.at) d.traffic
