-- ===== src/Tasks/Usage.antt =====
-- The usage that a node collects and reports: nothing is counted twice, and what a refused report
-- held is gone.
use testuder.Prelude.{
  ◌≡◌, inl, inr, ℕ, ◌+◌, String, refl, Bool, true, false, Option, none, some, List, [], ◌∷◌, arith,
  ◌==◌, eq_iff, if◌then◌else◌, Option-cases, lookup, lookup-insert,
}
use testuder.Config.{Env}
use testuder.Tasks.{Delta, State, add_pending, flush, flush_one, flush_each, report_round}
use testuder.Tasks.Quota.{up_for, down_for}

abbrev pub pair_or_zero : Option (ℕ × ℕ) → ℕ × ℕ
pair_or_zero none = (0, 0)
pair_or_zero (some p) = p

-- What `m` holds for a user.
abbrev pub held : String → List (String × (ℕ × ℕ)) → ℕ × ℕ
held k m = pair_or_zero (lookup k m)

held-add_pending :
    (k : String) (x : Delta) (m : List (String × (ℕ × ℕ)))
    → held k (add_pending x m)
      ≡ (if x.uid == k then ((held k m).0 + x.up, (held k m).1 + x.down) else held k m)
unfolding add_pending
held-add_pending k x m = elim (Option-cases (lookup x.uid m)) [
  | inl e ↦ ground (arith, eq_iff x.uid k, lookup-insert x.uid k (x.up, x.down) m)
  | inr ((u, d), e) ↦ ground (arith, eq_iff x.uid k, lookup-insert x.uid k (u + x.up, d + x.down) m)
]

held-flush_one :
    (env : Env) (now : ℕ) (x : Delta) (s : State) (k : String)
    → env.is_node ≡ true
    → held k (flush_one env now x s).pending ≡ held k (add_pending x s.pending)
unfolding flush_one
held-flush_one env now x s k h = rw h

held-flush_each :
    (env : Env) (now : ℕ) (xs : List Delta) (s : State) (k : String)
    → env.is_node ≡ true
    → held k (flush_each env now xs s).pending
      ≡ ((held k s.pending).0 + up_for k xs, (held k s.pending).1 + down_for k xs)
unfolding flush_each
held-flush_each env now [] s k h = ground arith
held-flush_each env now (x ∷ xs) s k h = ground (
  arith,
  held-flush_each env now xs (flush_one env now x s) k h,
  held-flush_one env now x s k h,
  held-add_pending k x s.pending,
)

-- On a node, a round adds to the pending usage of each user exactly its deltas.
pub held-flush :
    (env : Env) (now : ℕ) (xs : List Delta) (s : State) (k : String)
    → env.is_node ≡ true
    → held k (flush env now xs s).pending
      ≡ ((held k s.pending).0 + up_for k xs, (held k s.pending).1 + down_for k xs)
unfolding flush
held-flush env now [] s k h = ground arith
held-flush env now (x ∷ xs) s k h = held-flush_each env now (x ∷ xs) s k h

-- What the two loops of a node do, one after the other: a flush with its deltas, or a report with
-- the answer of the main panel.
pub data Round : Type 0 where
  flushed : List Delta → Round
  reported : Bool → Round

-- A node's state, what the main panel received and what refused reports held.
pub record Ledger : Type 0 where
  pub state : State
  pub received : ℕ
  pub refused : ℕ

-- The bytes, both ways, that are held for a user.
abbrev pub weight : String → List (String × (ℕ × ℕ)) → ℕ
weight k m = (held k m).0 + (held k m).1

unfoldable pub round : Env → ℕ → String → Round → Ledger → Ledger
round env now k (flushed xs) l = record l { state = flush env now xs l.state }
round env now k (reported accepted) l =
    let (s, snapshot) = report_round accepted l.state in
    record {
      state = s;
      received = l.received + weight k snapshot;
      refused = l.refused + (if accepted then 0 else weight k l.state.pending);
    }

unfoldable pub rounds : Env → ℕ → String → List Round → Ledger → Ledger
rounds env now k [] l = l
rounds env now k (r ∷ rs) l = rounds env now k rs (round env now k r l)

-- The traffic of a user over the flushes.
abbrev pub traffic_of : String → List Round → ℕ
traffic_of k [] = 0
traffic_of k (flushed xs ∷ rs) = up_for k xs + down_for k xs + traffic_of k rs
traffic_of k (reported _ ∷ rs) = traffic_of k rs

abbrev pub accounted : String → Ledger → ℕ
accounted k l = l.received + weight k l.state.pending + l.refused

accounted-round :
    (env : Env) (now : ℕ) (k : String) (r : Round) (l : Ledger)
    → env.is_node ≡ true
    → accounted k (round env now k r l) ≡ accounted k l + traffic_of k (r ∷ [])
unfolding round report_round
accounted-round env now k (flushed xs) l h = ground (arith, held-flush env now xs l.state k h)
accounted-round env now k (reported true) l h = unfold lookup in omega arith
accounted-round env now k (reported false) l h = unfold lookup in omega arith

-- Over any rounds of a node, a user's traffic is what the main panel received, plus what is still
-- pending, plus what refused reports held: no byte is counted twice, and a refused report is not
-- sent again.
pub rounds-account :
    (env : Env) (now : ℕ) (k : String) (rs : List Round) (l : Ledger)
    → env.is_node ≡ true
    → accounted k (rounds env now k rs l) ≡ accounted k l + traffic_of k rs
unfolding rounds
rounds-account env now k [] l h = omega arith
rounds-account env now k (r ∷ rs) l h =
    ground
      (arith, rounds-account env now k rs (round env now k r l) h, accounted-round env now k r l h)

-- After a report, accepted or not, the node holds nothing; if it was refused, the main panel has
-- received nothing either.
pub refused-loses :
    (s : State) (k : String)
    → (weight k (report_round false s).0.pending ≡ 0) × (weight k (report_round false s).1 ≡ 0)
unfolding report_round lookup
refused-loses s k = (refl, refl)
