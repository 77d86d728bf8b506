-- ===== src/Ism/Bucket/Layout.antt =====
-- The data of a bucket of crates/casacure/src/ism.rs: row by row, each interval's value is appended
-- and its offset filled in.
use casacure.Prelude.{
  ℕ, zero, suc, ◌+◌, ◌-◌, ◌%◌, ◌^◌, ◌≤◌, ◌<◌, ◌≡◌, ◌≢◌, refl, sym, ◌∙◌, subst, true, false, List,
  [], ◌++◌, some, inl, inr, arith, ltb, ◌==◌, length, get_elem?, get_or, set, Bool-cases,
  append_assoc, append-nil, length-set, get_elem?-set_self, get_elem?-set_ne,
}
use casacure.Search.{Ascending, Ascending-lt, lt-length_of_get_elem?}
use casacure.Ism.Bucket.{WriteIsmColumn, cell_of, Plan, begins}
use casacure.Ism.Bucket.Intervals.{get_elem?-lt}

Ascending-apart :
    (xs : List ℕ) (i d a b : ℕ)
    → Ascending xs
    → get_elem? xs i ≡ some a
    → get_elem? xs (suc (i + d)) ≡ some b
    → a < b
Ascending-apart xs i zero a b h p q =
    let e : suc (i + 0) ≡ suc i = omega arith in Ascending-lt xs i a b h p (rw e at q)
Ascending-apart xs i (suc d) a b h p q =
    let e : suc (i + suc d) ≡ suc (suc (i + d)) = omega arith in
    let q' : get_elem? xs (suc (suc (i + d))) ≡ some b = rw e at q in
    let long : suc (suc (i + d)) < length xs = lt-length_of_get_elem? xs _ b q' in
    let m : get_elem? xs (suc (i + d)) ≡ some (get_or xs (suc (i + d)) 0) =
      get_elem?-lt xs (suc (i + d)) (omega arith) in
    omega (
      arith,
      Ascending-apart xs i d a (get_or xs (suc (i + d)) 0) h p m,
      Ascending-lt xs (suc (i + d)) (get_or xs (suc (i + d)) 0) b h m q',
    )

pub Ascending-mono :
    (xs : List ℕ) (i j a b : ℕ)
    → Ascending xs
    → get_elem? xs i ≡ some a
    → get_elem? xs j ≡ some b
    → i < j
    → a < b
Ascending-mono xs i j a b h p q lt =
    let e : j ≡ suc (i + (j - i - 1)) = omega arith in
    Ascending-apart xs i (j - i - 1) a b h p (rw e at q)

-- The value of the interval at `i`, which begins at row `s`, stands in the data at its offset.
abbrev pub Filled : WriteIsmColumn → List ℕ → List ℕ → ℕ → ℕ → Type 0
Filled c out offsets i s =
    (before after : List ℕ) × (out ≡ before ++ (cell_of c s ++ after))
    × (get_elem? offsets i ≡ some (length before % 2 ^ 32))

-- The rows below `k` are laid out.
pub record Placed (k : ℕ) (out : List ℕ) (p : Plan) : Type 0 where
  pub ascending : Ascending p.starts
  pub counted : length p.offsets ≡ length p.starts
  pub filled : (i s : ℕ) → get_elem? p.starts i ≡ some s → s < k → Filled p.column out p.offsets i s
  pub reached : (i s : ℕ) → get_elem? p.starts i ≡ some s → s < k → i < p.next
  pub behind : (i s : ℕ) → get_elem? p.starts i ≡ some s → i < p.next → s < k

Filled-append :
    (c : WriteIsmColumn) (out more offsets : List ℕ) (i s : ℕ)
    → Filled c out offsets i s
    → Filled c (out ++ more) offsets i s
Filled-append c out more offsets i s (before, after, e, o) =
    (before, after ++ more, rw e (simp append_assoc), o)

pub Placed-append :
    (k : ℕ) (out more : List ℕ) (p : Plan) → Placed k out p → Placed k (out ++ more) p
Placed-append k out more p h = record {
  ascending = h.ascending;
  counted = h.counted;
  filled = λ i s e lt. Filled-append p.column out more p.offsets i s (h.filled i s e lt);
  reached = h.reached;
  behind = h.behind;
}

ge_of_not_lt : (m n : ℕ) → (n < m → ⊥) → m ≤ n
ge_of_not_lt m n h = ground arith

-- An element that is not behind another is not below it.
not_below :
    (xs : List ℕ) (i j a b : ℕ)
    → Ascending xs
    → get_elem? xs i ≡ some a
    → get_elem? xs j ≡ some b
    → i ≤ j
    → b < a
    → ⊥
not_below xs i j a b h p q le lt = elim (Bool-cases (i == j)) [
  | inl t ↦
      let e : i ≡ j = ground arith in
      let same : some a ≡ some b = sym (rw e at p) ∙ q in ground arith
  | inr t ↦ omega (arith, Ascending-mono xs i j a b h p q (ground arith))
]

-- Where no interval begins at row `k`, none starts there.
none_at :
    (k : ℕ) (out : List ℕ) (p : Plan) (i s : ℕ)
    → Placed k out p
    → begins k p ≡ false
    → get_elem? p.starts i ≡ some s
    → s < suc k
    → s < k
unfolding begins
none_at k out p i s h t e lt = elim (Bool-cases (ltb s k)) [
  | inl below ↦ ground arith
  | inr equal ↦
      let long : i < length p.starts = lt-length_of_get_elem? p.starts i s e in
      let later : p.next ≤ i =
        ge_of_not_lt p.next i (λ l. absurd (ground (arith, h.behind i s e l))) in
      let at : get_elem? p.starts p.next ≡ some (get_or p.starts p.next 0) =
        get_elem?-lt p.starts p.next (omega arith) in
      let from : k ≤ get_or p.starts p.next 0 =
        ge_of_not_lt k (get_or p.starts p.next 0)
          (λ l. absurd (omega (arith, h.reached p.next _ at l))) in
      let apart : k ≢ get_or p.starts p.next 0 = λ q. ground arith in
      absurd (
        not_below p.starts p.next i (get_or p.starts p.next 0) s h.ascending at e later
          (ground arith))
]

pub Placed-skip :
    (k : ℕ) (out : List ℕ) (p : Plan) → begins k p ≡ false → Placed k out p → Placed (suc k) out p
Placed-skip k out p t h = record {
  ascending = h.ascending;
  counted = h.counted;
  filled = λ i s e lt. h.filled i s e (none_at k out p i s h t e lt);
  reached = λ i s e lt. h.reached i s e (none_at k out p i s h t e lt);
  behind = λ i s e lt. omega (arith, h.behind i s e lt);
}

-- Where one does, it is the next one.
starts_next : (k : ℕ) (p : Plan) → begins k p ≡ true → get_elem? p.starts p.next ≡ some k
unfolding begins
starts_next k p t =
    let e : get_or p.starts p.next 0 ≡ k = ground arith in
    subst (λ n. get_elem? p.starts p.next ≡ some n) e (get_elem?-lt p.starts p.next (ground arith))

-- An interval elsewhere begins before.
earlier :
    (k : ℕ) (out : List ℕ) (p : Plan) (i s : ℕ)
    → begins k p ≡ true
    → Placed k out p
    → get_elem? p.starts i ≡ some s
    → s < suc k
    → (i == p.next) ≡ false
    → s < k
earlier k out p i s t h e lt other = elim (Bool-cases (ltb i p.next)) [
  | inl l ↦ h.behind i s e (ground arith)
  | inr l ↦ absurd (
      omega (
        arith,
        Ascending-mono p.starts p.next i k s h.ascending (starts_next k p t) e (ground arith),
      ))
]

here :
    (k : ℕ) (p : Plan) (i s : ℕ)
    → begins k p ≡ true
    → get_elem? p.starts i ≡ some s
    → i ≡ p.next
    → s ≡ k
here k p i s t e q =
    let same : some s ≡ some k = sym (rw q at e) ∙ starts_next k p t in ground arith

abbrev placed : ℕ → List ℕ → Plan → Plan
placed k out p = record p {
  offsets = set p.offsets p.next (length out % 2 ^ 32);
  next = p.next + 1;
}

pub Placed-next :
    (k : ℕ) (out : List ℕ) (p : Plan)
    → begins k p ≡ true
    → Placed k out p
    → Placed (suc k) (out ++ cell_of p.column k) (placed k out p)
Placed-next k out p t h = record {
  ascending = h.ascending;
  counted = length-set p.offsets p.next _ ∙ h.counted;
  filled = λ i s e lt. elim (Bool-cases (i == p.next)) [
    | inl at ↦
        let q : i ≡ p.next = ground arith in
        (
          out,
          [],
          rw (here k p i s t e q, append-nil) refl,
          rw q (
              get_elem?-set_self p.offsets p.next (length out % 2 ^ 32) (
                omega (
                  arith,
                  h.counted,
                  lt-length_of_get_elem? p.starts p.next k (starts_next k p t),
                ))),
        )
    | inr at ↦
        let (before, after, grown, o) =
          Filled-append p.column out (cell_of p.column k) p.offsets i s
            (h.filled i s e (earlier k out p i s t h e lt at)) in
        (
          before,
          after,
          grown,
          get_elem?-set_ne p.offsets (length out % 2 ^ 32) (λ q. ground arith) ∙ o,
        )
  ];
  reached = λ i s e lt. elim (Bool-cases (i == p.next)) [
    | inl at ↦ ground arith
    | inr at ↦ omega (arith, h.reached i s e (earlier k out p i s t h e lt at))
  ];
  behind = λ i s e lt. elim (Bool-cases (i == p.next)) [
    | inl at ↦ omega (arith, here k p i s t e (ground arith))
    | inr at ↦ omega (arith, h.behind i s e (ground arith))
  ];
}
