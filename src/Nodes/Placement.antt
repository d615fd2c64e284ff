-- ===== src/Nodes/Placement.antt =====
-- Which process serves a user: `local_users` on the panel against what `sync_all` pushes to nodes.
use testuder.Prelude.{◌≡◌, ℕ, refl, true, false, ◌&&◌, List, [], ◌∷◌, arith, eqb, any}
use testuder.User.{User}
use testuder.Db.{Db, Node}
use testuder.Db.Nodes.{list_nodes}
use testuder.Nodes.{negsuc, pos, is_id, ℤ, assigned, has_remote, served_locally, pushed}

is_id-eq : (z : ℤ) (a b : ℕ) → is_id z a ≡ true → is_id z b ≡ eqb b a
is_id-eq (pos n) a b h = ground arith
is_id-eq (negsuc n) a b h = ground arith

no_local :
    (ns : List Node) (u : User) (a : ℕ)
    → any ns (λ m. m.is_local && eqb m.id a) ≡ false
    → assigned a u ≡ true
    → any ns (λ m. m.is_local && assigned m.id u) ≡ false
no_local [] u a h e = refl
no_local (m ∷ ns) u a h e = ground (arith, is_id-eq u.node_id a m.id e, no_local ns u a)

-- While some remote node can be reached, a user that the panel serves itself is pushed to no node
-- that is not local, ids being unique and 0 being no local node's.
pub served-once :
    (d : Db) (u : User) (n : Node)
    → has_remote d ≡ true
    → any (list_nodes d) (λ m. m.is_local && eqb m.id n.id) ≡ false
    → any (list_nodes d) (λ m. m.is_local && eqb m.id 0) ≡ false
    → served_locally d u ≡ true
    → pushed n u ≡ false
unfolding served_locally pushed
served-once d u n r h z s =
    ground (arith, no_local (list_nodes d) u n.id h, no_local (list_nodes d) u 0 z)
