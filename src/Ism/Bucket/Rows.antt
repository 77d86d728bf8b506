-- ===== src/Ism/Bucket/Rows.antt =====
-- The data of a bucket of crates/casacure/src/ism.rs for all the columns: when the loop over the rows ends,
-- every interval of every column has its value in the data.
use casacure.Prelude.{
  ℕ, zero, suc, ◌+◌, ◌^◌, ◌≤◌, ◌≡◌, refl, sym, ◌∙◌, subst, List, [], ◌∷◌, ◌++◌, none, inl, inr,
  arith, length, Bool-cases, append_assoc, append-nil, length-replicate,
}
use native.Mathlib.Numerals.{add-one}
use casacure.Ism.Bucket.{
  WriteIsmColumn, cell_of, starts_from, Plan, plan, plans, begins, place_cell, place_row,
  place_rows,
}
use casacure.Ism.Bucket.Intervals.{Ascending-starts}
use casacure.Ism.Bucket.Layout.{Placed, Placed-append, Placed-skip, Placed-next}

-- The plan of a column of `n` rows, laid out below row `k`.
pub record Laid (n k : ℕ) (out : List ℕ) (c : WriteIsmColumn) (p : Plan) : Type 0 where
  pub column : p.column ≡ c
  pub starts : p.starts ≡ starts_from c 0 n none
  pub placed : Placed k out p

abbrev pub AllLaid : ℕ → ℕ → List ℕ → List WriteIsmColumn → List Plan → Type 0
AllLaid n k out [] [] = Unit
AllLaid n k out [] (p ∷ ps) = ⊥
AllLaid n k out (c ∷ cs) [] = ⊥
AllLaid n k out (c ∷ cs) (p ∷ ps) = Laid n k out c p × AllLaid n k out cs ps

Laid-append :
    (n k : ℕ) (out more : List ℕ) (c : WriteIsmColumn) (p : Plan)
    → Laid n k out c p
    → Laid n k (out ++ more) c p
Laid-append n k out more c p h = record {
  column = h.column;
  starts = h.starts;
  placed = Placed-append k out more p h.placed;
}

pub AllLaid-append :
    (n k : ℕ) (out more : List ℕ) (cs : List WriteIsmColumn) (ps : List Plan)
    → AllLaid n k out cs ps
    → AllLaid n k (out ++ more) cs ps
AllLaid-append n k out more [] [] h = tt
AllLaid-append n k out more [] (p ∷ ps) h = h
AllLaid-append n k out more (c ∷ cs) [] h = h
AllLaid-append n k out more (c ∷ cs) (p ∷ ps) h =
    (Laid-append n k out more c p h.0, AllLaid-append n k out more cs ps h.1)

pub Laid-place_cell :
    (n k : ℕ) (out : List ℕ) (c : WriteIsmColumn) (p : Plan)
    → Laid n k out c p
    → (more : List ℕ) × ((place_cell k out p).0 ≡ out ++ more)
      × Laid n (suc k) (place_cell k out p).0 c (place_cell k out p).1
unfolding place_cell
Laid-place_cell n k out c p h = elim (Bool-cases (begins k p)) [
  | inl t ↦ rw t (
    cell_of p.column k,
    refl,
    record { column = h.column; starts = h.starts; placed = Placed-next k out p t h.placed },
  )
  | inr t ↦ rw t (
    [],
    sym (append-nil out),
    record { column = h.column; starts = h.starts; placed = Placed-skip k out p t h.placed },
  )
]

pub AllLaid-place_row :
    (n k : ℕ) (out : List ℕ) (cs : List WriteIsmColumn) (ps : List Plan)
    → AllLaid n k out cs ps
    → (more : List ℕ) × ((place_row k out ps).0 ≡ out ++ more)
      × AllLaid n (suc k) (place_row k out ps).0 cs (place_row k out ps).1
unfolding place_row
AllLaid-place_row n k out [] [] h = ([], sym (append-nil out), tt)
AllLaid-place_row n k out [] (p ∷ ps) h = elim h [ ]
AllLaid-place_row n k out (c ∷ cs) [] h = elim h [ ]
AllLaid-place_row n k out (c ∷ cs) (p ∷ ps) (h, hs) =
    let (m, e, first) = Laid-place_cell n k out c p h in
    let hs' : AllLaid n k (place_cell k out p).0 cs ps = rw e (AllLaid-append n k out m cs ps hs) in
    let (m', e', rest) = AllLaid-place_row n k (place_cell k out p).0 cs ps hs' in
    (
      m ++ m',
      e' ∙ rw e (append_assoc out m m'),
      (
        rw e' (Laid-append n (suc k) (place_cell k out p).0 m' c (place_cell k out p).1 first),
        rest,
      ),
    )

AllLaid-place_rows :
    (n k m : ℕ) (out : List ℕ) (cs : List WriteIsmColumn) (ps : List Plan)
    → k + m ≡ n
    → AllLaid n k out cs ps
    → AllLaid n n (place_rows k m out ps).0 cs (place_rows k m out ps).1
unfolding place_rows
AllLaid-place_rows n k zero out cs ps e h = subst (λ j. AllLaid n j out cs ps) (omega arith) h
AllLaid-place_rows n k (suc m) out cs ps e h =
    let (more, grown, next) = AllLaid-place_row n k out cs ps h in
    AllLaid-place_rows n (k + 1) m (place_row k out ps).0 cs (place_row k out ps).1 (omega arith)
      (rw add-one next)

Placed-plan : (n : ℕ) (c : WriteIsmColumn) → n ≤ 2 ^ 32 → Placed 0 [] (plan n c)
unfolding plan
Placed-plan n c h = record {
  ascending = Ascending-starts c 0 n none (omega arith);
  counted = length-replicate (length (starts_from c 0 n none)) 0;
  filled = λ i s e lt. absurd (omega arith);
  reached = λ i s e lt. absurd (omega arith);
  behind = λ i s e lt. absurd (omega arith);
}

pub AllLaid-plans : (n : ℕ) (cs : List WriteIsmColumn) → n ≤ 2 ^ 32 → AllLaid n 0 [] cs (plans n cs)
unfolding plans
AllLaid-plans n [] h = tt
AllLaid-plans n (c ∷ cs) h = (
  unfold plan in record { column = refl; starts = refl; placed = Placed-plan n c h },
  AllLaid-plans n cs h,
)

-- When all the rows are laid out, every interval has its value.
pub AllLaid-rows :
    (n : ℕ) (cs : List WriteIsmColumn)
    → n ≤ 2 ^ 32
    → AllLaid n n (place_rows 0 n [] (plans n cs)).0 cs (place_rows 0 n [] (plans n cs)).1
AllLaid-rows n cs h =
    AllLaid-place_rows n 0 n [] cs (plans n cs) (omega arith) (AllLaid-plans n cs h)
