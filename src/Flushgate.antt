-- ===== src/Flushgate.antt =====
-- crates/casacure/src/flushgate.rs: the registry of the gates, one for each table directory. A path
-- is its bytes, a gate is the number of its allocation. Parameters are `canonicalize` of the file
-- system and the equality of paths of the standard library, `IsPathEq` what it says of that; the
-- registry is held under its lock for the whole call.
pub mod Identity
use casacure.Prelude.{ℕ, ◌+◌, ◌≡◌, true, Bool, List, [], ◌∷◌, Option, none, some, if◌then◌else◌}

-- The map, and how many gates were made.
pub record Registry : Type 0 where
  pub gates : List (List ℕ × ℕ)
  pub made : ℕ

abbrev pub empty_registry : Registry
empty_registry = record { gates = []; made = 0 }

-- `Eq` of `Path`, which compares components and is an equivalence.
pub record IsPathEq (same : List ℕ → List ℕ → Bool) : Type 0 where
  pub self : (p : List ℕ) → same p p ≡ true
  pub turned : (p q : List ℕ) → same p q ≡ true → same q p ≡ true
  pub joined : (p q r : List ℕ) → same p q ≡ true → same q r ≡ true → same p r ≡ true

-- `reg.get(&key)`
unfoldable pub lookup : (List ℕ → List ℕ → Bool) → List ℕ → List (List ℕ × ℕ) → Option ℕ
lookup same key [] = none
lookup same key ((k, g) ∷ gates) =
    let rest = lookup same key gates in if same k key then some g else rest

abbrev pub or_self : Option (List ℕ) → List ℕ → List ℕ
or_self none dir = dir
or_self (some path) dir = path

abbrev pub gate_in : Option ℕ → List ℕ → Registry → ℕ × Registry
gate_in (some g) key reg = (g, reg)
gate_in none key reg =
    (reg.made, record { gates = (key, reg.made) ∷ reg.gates; made = reg.made + 1 })

-- The key of a directory: itself where it does not resolve.
unfoldable pub key_of : (List ℕ → Option (List ℕ)) → List ℕ → List ℕ
key_of canonicalize dir = or_self (canonicalize dir) dir

module _ (canonicalize : List ℕ → Option (List ℕ)) (same : List ℕ → List ℕ → Bool) where
  unfoldable pub gate : List ℕ → Registry → ℕ × Registry
  gate dir reg =
      gate_in (lookup same (key_of canonicalize dir) reg.gates) (key_of canonicalize dir) reg

  -- Calls, one after the other.
  unfoldable pub gates_of : List (List ℕ) → Registry → Registry
  gates_of [] reg = reg
  gates_of (dir ∷ dirs) reg = gates_of dirs (gate dir reg).1
