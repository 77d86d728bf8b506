-- ===== src/Flushgate/Identity.antt =====
-- Two handles of one table directory land on one gate, and handles of two directories on two, in
-- crates/casacure/src/flushgate.rs.
use casacure.Prelude.{
  ℕ, ◌+◌, ◌<◌, ◌≡◌, ◌↔◌, ◌⊎◌, refl, sym, ap, ◌∙◌, Bool, true, false, List, [], ◌∷◌, Option, none,
  some, inl, inr, arith, Bool-cases, Option-cases,
}
use casacure.Flushgate.{Registry, IsPathEq, empty_registry, lookup, key_of, gate, gates_of}

unsome : {a b : ℕ} → some a ≡ some b → a ≡ b
unsome e = cc

clash : {b : Bool} → b ≡ true → b ≡ false → ⊥
clash e f = cc

module _ (same : List ℕ → List ℕ → Bool) (eq : IsPathEq same) where
  -- Every gate was made before, and stands under one path.
  record IsRegistry (reg : Registry) : Type 0 where
    before : (key : List ℕ) (g : ℕ) → lookup same key reg.gates ≡ some g → g < reg.made
    one_key :
        (key other : List ℕ) (g : ℕ)
        → lookup same key reg.gates ≡ some g
        → lookup same other reg.gates ≡ some g
        → same key other ≡ true

  empty-IsRegistry : IsRegistry empty_registry
  unfolding lookup
  empty-IsRegistry = record {
    before = λ key g h. absurd (cc);
    one_key = λ key other g h k. absurd (cc);
  }

  -- Equal paths are found alike.
  same-with : (k key other : List ℕ) → same key other ≡ true → same k key ≡ same k other
  same-with k key other e = elim (Bool-cases (same k key)) [
    | inl t ↦ rw (t, eq.joined k key other t e) refl
    | inr t ↦ elim (Bool-cases (same k other)) [
      | inl u ↦ absurd (clash (eq.joined k other key u (eq.turned key other e)) t)
      | inr u ↦ rw (t, u) refl
    ]
  ]

  lookup-same :
      (key other : List ℕ) (gates : List (List ℕ × ℕ))
      → same key other ≡ true
      → lookup same key gates ≡ lookup same other gates
  unfolding lookup
  lookup-same key other [] e = refl
  lookup-same key other ((k, g) ∷ gates) e =
      rw (same-with k key other e, lookup-same key other gates e) refl

  -- A key that is added.
  lookup_added :
      (added key : List ℕ) (made g : ℕ) (gates : List (List ℕ × ℕ))
      → lookup same key ((added, made) ∷ gates) ≡ some g
      → ((same added key ≡ true) × (g ≡ made)) ⊎ (lookup same key gates ≡ some g)
  unfolding lookup
  lookup_added added key made g gates h = elim (Bool-cases (same added key)) [
    | inl t ↦ let e : some made ≡ some g = rw t at h in inl (t, ground arith)
    | inr t ↦ inr (rw t at h)
  ]

  lookup_kept :
      (added key : List ℕ) (made g : ℕ) (gates : List (List ℕ × ℕ))
      → lookup same key gates ≡ some g
      → lookup same added gates ≡ none
      → lookup same key ((added, made) ∷ gates) ≡ some g
  lookup_kept added key made g gates h e = elim (Bool-cases (same added key)) [
    | inl t ↦ let bad : some g ≡ none = sym h ∙ sym (lookup-same added key gates t) ∙ e in cc
    | inr t ↦ unfold lookup in rw t h
  ]

  added-IsRegistry :
      (key : List ℕ) (reg : Registry)
      → lookup same key reg.gates ≡ none
      → IsRegistry reg
      → IsRegistry (record { gates = (key, reg.made) ∷ reg.gates; made = reg.made + 1 })
  added-IsRegistry key reg e valid = record {
    before = λ k g h. elim (lookup_added key k reg.made g reg.gates h) [
      | inl (_, q) ↦ omega arith
      | inr old ↦ omega (arith, valid.before k g old)
    ];
    one_key = λ k o g h h'. elim (lookup_added key k reg.made g reg.gates h) [
      | inl (a, q) ↦ elim (lookup_added key o reg.made g reg.gates h') [
        | inl (b, q') ↦ eq.joined k key o (eq.turned key k a) b
        | inr old ↦ absurd (omega (arith, valid.before o g old))
      ]
      | inr old ↦ elim (lookup_added key o reg.made g reg.gates h') [
        | inl (b, q') ↦ absurd (omega (arith, valid.before k g old))
        | inr old' ↦ valid.one_key k o g old old'
      ]
    ];
  }

module _ (canonicalize : List ℕ → Option (List ℕ)) (same : List ℕ → List ℕ → Bool)
    (eq : IsPathEq same) where
  -- A call keeps the gates that there are, and gives its key one.
  gate-lookup :
      (dir : List ℕ) (reg : Registry)
      → lookup same (key_of canonicalize dir) (gate canonicalize same dir reg).1.gates
        ≡ some (gate canonicalize same dir reg).0
  unfolding gate
  gate-lookup dir reg = elim (Option-cases (lookup same (key_of canonicalize dir) reg.gates)) [
    | inl e ↦
        let t : same (key_of canonicalize dir) (key_of canonicalize dir) ≡ true =
          eq.self (key_of canonicalize dir) in
        rw e (unfold lookup in rw t refl)
    | inr (g, e) ↦ rw (e, e) refl
  ]

  lookup-gate :
      (dir key : List ℕ) (g : ℕ) (reg : Registry)
      → lookup same key reg.gates ≡ some g
      → lookup same key (gate canonicalize same dir reg).1.gates ≡ some g
  unfolding gate
  lookup-gate dir key g reg h =
      elim (Option-cases (lookup same (key_of canonicalize dir) reg.gates)) [
        | inl e ↦ rw e (lookup_kept same eq (key_of canonicalize dir) key reg.made g reg.gates h e)
        | inr (other, e) ↦ rw e h
      ]

  gate-IsRegistry :
      (dir : List ℕ) (reg : Registry)
      → IsRegistry same eq reg
      → IsRegistry same eq (gate canonicalize same dir reg).1
  unfolding gate
  gate-IsRegistry dir reg valid =
      elim (Option-cases (lookup same (key_of canonicalize dir) reg.gates)) [
        | inl e ↦ rw e (added-IsRegistry same eq (key_of canonicalize dir) reg e valid)
        | inr (g, e) ↦ rw e valid
      ]

  gates_of-IsRegistry :
      (dirs : List (List ℕ)) (reg : Registry)
      → IsRegistry same eq reg
      → IsRegistry same eq (gates_of canonicalize same dirs reg)
  unfolding gates_of
  gates_of-IsRegistry [] reg valid = valid
  gates_of-IsRegistry (dir ∷ dirs) reg valid =
      gates_of-IsRegistry dirs (gate canonicalize same dir reg).1 (gate-IsRegistry dir reg valid)

  lookup-gates_of :
      (dirs : List (List ℕ)) (key : List ℕ) (g : ℕ) (reg : Registry)
      → lookup same key reg.gates ≡ some g
      → lookup same key (gates_of canonicalize same dirs reg).gates ≡ some g
  unfolding gates_of
  lookup-gates_of [] key g reg h = h
  lookup-gates_of (dir ∷ dirs) key g reg h =
      lookup-gates_of dirs key g (gate canonicalize same dir reg).1 (lookup-gate dir key g reg h)

  -- After any calls from an empty registry on, and with any calls between, two calls return the same
  -- gate exactly when the paths that their directories stand for are equal as paths: what the file
  -- system resolves a directory to, or the directory as given where it does not resolve. Each
  -- directory is resolved in the same way throughout.
  pub gate_iff :
      (before between : List (List ℕ)) (dir other : List ℕ)
      → let reg = gates_of canonicalize same before empty_registry in
        ((gate canonicalize same other
            (gates_of canonicalize same between (gate canonicalize same dir reg).1)).0
          ≡ (gate canonicalize same dir reg).0)
        ↔ (same (key_of canonicalize other) (key_of canonicalize dir) ≡ true)
  gate_iff before between dir other =
      let kd : List ℕ = key_of canonicalize dir in
      let ko : List ℕ = key_of canonicalize other in
      let reg : Registry = gates_of canonicalize same before empty_registry in
      let first : Registry = (gate canonicalize same dir reg).1 in
      let later : Registry = gates_of canonicalize same between first in
      let last : Registry = (gate canonicalize same other later).1 in
      let g : ℕ = (gate canonicalize same dir reg).0 in
      let g' : ℕ = (gate canonicalize same other later).0 in
      let valid : IsRegistry same eq last = gate-IsRegistry other later (
        gates_of-IsRegistry between first (
          gate-IsRegistry dir reg
            (gates_of-IsRegistry before empty_registry (empty-IsRegistry same eq)))) in
      let at : lookup same kd last.gates ≡ some g =
        lookup-gate other kd g later (lookup-gates_of between kd g first (gate-lookup dir reg)) in
      let at' : lookup same ko last.gates ≡ some g' = gate-lookup other later in
      (
        λ e. valid.one_key ko kd g (at' ∙ ap (λ (n : ℕ). some n) e) at,
        λ e. unsome (sym at' ∙ lookup-same same eq ko kd last.gates e ∙ at),
      )
