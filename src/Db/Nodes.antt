-- ===== src/Db/Nodes.antt =====
-- app/db.py, the table `nodes`.
use testuder.Prelude.{
  ℕ, ◌+◌, String, Bool, false, ◌&&◌, not, Option, none, List, [], ◌∷◌, ◌++◌, map, ◌==◌, eqb,
  if◌then◌else◌, any, filter, find?, truncate, strip,
}
use testuder.Db.{Db, Node}

locals_first : List Node → List Node
locals_first ns = filter (λ n. n.is_local) ns ++ filter (λ n. not n.is_local) ns

-- `list_nodes()`: ORDER BY is_local DESC, id ASC
unfoldable pub list_nodes : Db → List Node
unfolding locals_first
list_nodes d = locals_first d.nodes

unfoldable pub get_node : ℕ → Db → Option Node
get_node id d = find? (λ n. eqb n.id id) d.nodes

-- `create_node(data)`: a remote node; the texts are cut to the columns' lengths.
unfoldable pub create_node : ℕ → Node → Db → Node × Db
create_node now n d =
    let row = record n {
      id = d.next_node;
      name = truncate 64 n.name;
      address = truncate 200 n.address;
      city = truncate 64 n.city;
      country = truncate 64 n.country;
      country_code = truncate 2 n.country_code;
      wg_pub = "";
      is_local = false;
      last_seen = now;
    } in
    (row, record d { nodes = d.nodes ++ row ∷ []; next_node = d.next_node + 1 })

-- `get_node_by_token(token)`: never the local node, and never by an empty token
unfoldable pub get_node_by_token : String → Db → Option Node
get_node_by_token token d =
    let t = strip token in
    if t == "" then none else find? (λ n. (n.token == t) && not n.is_local) d.nodes

-- The columns that `update_node` may write.
pub data NodeField : Type 0 where
  name address city country country_code flag wg_pub : String → NodeField
  enabled : Bool → NodeField
  skipped : String → NodeField

unfoldable pub set_node_field : NodeField → Node → Node
set_node_field (NodeField.name v) n = record n { name = v }
set_node_field (NodeField.address v) n = record n { address = v }
set_node_field (NodeField.city v) n = record n { city = v }
set_node_field (NodeField.country v) n = record n { country = v }
set_node_field (NodeField.country_code v) n = record n { country_code = v }
set_node_field (NodeField.flag v) n = record n { flag = v }
set_node_field (NodeField.wg_pub v) n = record n { wg_pub = v }
set_node_field (NodeField.enabled v) n = record n { enabled = v }
set_node_field (NodeField.skipped _) n = n

unfoldable pub set_node_fields : List NodeField → Node → Node
set_node_fields [] n = n
set_node_fields (f ∷ fs) n = set_node_fields fs (set_node_field f n)

abbrev update_rows : (Node → Bool) → (Node → Node) → List Node → List Node
update_rows p f ns = map (λ n. if p n then f n else n) ns

unfoldable pub update_node : ℕ → List NodeField → Db → Db
update_node id fields d = record d {
  nodes = update_rows (λ n. eqb n.id id) (set_node_fields fields) d.nodes;
}

-- `delete_node(id)` spares the local node.
unfoldable pub delete_node : ℕ → Db → Bool × Db
delete_node id d = (
  any d.nodes (λ n. eqb n.id id && not n.is_local),
  record d { nodes = filter (λ n. not (eqb n.id id && not n.is_local)) d.nodes },
)

unfoldable pub touch_node : ℕ → ℕ → Db → Db
touch_node now id d = record d {
  nodes = update_rows (λ n. eqb n.id id) (λ n. record n { last_seen = now }) d.nodes;
}

unfoldable pub set_local_node_location : String → String → String → String → Db → Db
set_local_node_location c co cc fl d = record d {
  nodes =
      update_rows (λ n. n.is_local)
        (λ n. record n { city = c; country = co; country_code = cc; flag = fl }) d.nodes;
}
