-- ===== src/Wg/Allocation.antt =====
-- What `allocate_ip` gives.
use testuder.Prelude.{
  ◌≡◌, ◌⊎◌, inl, inr, ℕ, zero, suc, ◌+◌, ◌-◌, ◌≤◌, ◌<◌, String, refl, true, false, arith, leb,
  Bool-cases, subst,
}
use testuder.Db.{Db}
use testuder.Wg.{Subnet, taken, ip_text, first_free, allocate_ip}

-- The text is that of the first free number in a range, or "" when there is none.
abbrev pub FitsRange : ℕ → ℕ → Db → String → Type 0
FitsRange first rounds d x =
    ((n : ℕ) × (first ≤ n)
      × (n < first + rounds)
      × (x ≡ ip_text n)
      × (taken d x ≡ false)
      × ((m : ℕ) → first ≤ m → m < n → taken d (ip_text m) ≡ true))
    ⊎ ((x ≡ "") × ((m : ℕ) → first ≤ m → m < first + rounds → taken d (ip_text m) ≡ true))

-- The same of the numbers after the server's and before the broadcast address.
abbrev pub Fits : Subnet → Db → String → Type 0
Fits net d x =
    ((n : ℕ) × (net.network + 1 < n)
      × (n < net.broadcast)
      × (x ≡ ip_text n)
      × (taken d x ≡ false)
      × ((m : ℕ) → net.network + 1 < m → m < n → taken d (ip_text m) ≡ true))
    ⊎ ((x ≡ "") × ((m : ℕ) → net.network + 1 < m → m < net.broadcast → taken d (ip_text m) ≡ true))

-- a property of the first number, and of the later ones
from_first : (P : ℕ → Type 0) (first m : ℕ) → P first → (first + 1 ≤ m → P m) → first ≤ m → P m
from_first P first m now later h = elim (Bool-cases (leb (first + 1) m)) [
  | inl e ↦ later (ground arith)
  | inr e ↦ subst P (omega (arith, h, le_of e)) now
]
  where
    le_of : leb (first + 1) m ≡ false → m ≤ first
    le_of e = ground arith

Fits-later :
    (first rounds : ℕ) (d : Db) (x : String)
    → taken d (ip_text first) ≡ true
    → FitsRange (first + 1) rounds d x
    → FitsRange first (suc rounds) d x
Fits-later first rounds d x t (inl (n, lo, hi, e, free, before)) = inl (
  n,
  omega arith,
  omega arith,
  e,
  free,
  λ m h k. from_first (λ i. taken d (ip_text i) ≡ true) first m t (λ l. before m l k) h,
)
Fits-later first rounds d x t (inr (e, all_taken)) = inr (
  e,
  λ m h k.
      from_first (λ i. taken d (ip_text i) ≡ true) first m t (λ l. all_taken m l (omega arith)) h,
)

first_free-FitsRange :
    (rounds first : ℕ) (d : Db) → FitsRange first rounds d (first_free rounds first d)
unfolding first_free
first_free-FitsRange zero first d = inr (refl, λ m h k. absurd (omega arith))
first_free-FitsRange (suc rounds) first d = elim (Bool-cases (taken d (ip_text first))) [
  | inl t ↦ rw t (
      Fits-later first rounds d (first_free rounds (first + 1) d) t
        (first_free-FitsRange rounds (first + 1) d))
  | inr t ↦ rw t (inl (first, omega arith, omega arith, refl, t, λ m h k. absurd (omega arith)))
]

Fits-subnet :
    (net : Subnet) (d : Db) (x : String)
    → FitsRange (net.network + 2) (net.broadcast - 1 + 1 - (net.network + 2)) d x
    → Fits net d x
Fits-subnet net d x (inl (n, lo, hi, e, free, before)) =
    inl (n, omega arith, omega arith, e, free, λ m h k. before m (omega arith) k)
Fits-subnet net d x (inr (e, all_taken)) = inr (e, λ m h k. all_taken m (omega arith) (omega arith))

-- The address for a new WireGuard user is that of the first number after the server's, the
-- network's number and one, and before the broadcast address that no user has; or it is "", and all of
-- these numbers are taken.
pub allocate_ip-Fits : (net : Subnet) (d : Db) → Fits net d (allocate_ip net d)
unfolding allocate_ip
allocate_ip-Fits net d = Fits-subnet net d _ (first_free-FitsRange _ (net.network + 2) d)
