-- ===== src/Ism/Bucket/RoundTrip.antt =====
-- The cells of a bucket that crates/casacure/src/ism.rs wrote, read back by it: `encode_ism_bucket` and the body
-- of the loop of `for_each_cell_raw`.
use casacure.Prelude.{
  ℕ, zero, suc, ◌+◌, ◌*◌, ◌%◌, ◌^◌, ◌≤◌, ◌<◌, ◌≡◌, refl, sym, ap, ◌∙◌, subst, Bool, false, List, [],
  ◌∷◌, ◌++◌, none, some, arith, ltb, not, length, get_elem?, get_or, slice, drop, append_assoc,
  length-append, length-take, length-drop, slice-append,
}
use native.Mathlib.Nat.{mul-le-mul_right}
use casacure.Result.{ok}
use casacure.Bytes.{length-to_bytes}
use casacure.Aipsio.Reads.{All, concat_bytes}
use casacure.Search.{lt-length_of_get_elem?}
use casacure.Ism.Bucket.{
  WriteIsmColumn, cell_of, starts_from, Plan, index_length, ColumnIndex, advance, cell_at, walk,
}
use casacure.Ism.Bucket.Intervals.{
  HoldsRow, starts_bounds, starts-cell, get_elem?-lt, advance-HoldsRow,
}
use casacure.Ism.Bucket.Layout.{Filled}
use casacure.Ism.Bucket.Rows.{Laid, AllLaid}
use casacure.Ism.Bucket.Written.{word, column_bytes, image}
use casacure.Ism.Bucket.Reading.{IsSmall}

-- Every column holds a cell for each of `n` rows; elsewhere the code panics.
abbrev pub AreFull : ℕ → List WriteIsmColumn → Type 0
AreFull n cols = All (λ c. n * c.cell_size ≤ length c.bytes) cols

-- The cells of `stop` rows from `row` on.
abbrev pub cells : WriteIsmColumn → ℕ → ℕ → List (List ℕ)
cells c row zero = []
cells c row (suc stop) = cell_of c row ∷ cells c (row + 1) stop

pub All-elements :
    {A : Type 0} (P : A → Type 0) (xs : List A)
    → ((i : ℕ) (a : A) → get_elem? xs i ≡ some a → P a)
    → All P xs
All-elements P [] h = tt
All-elements P (x ∷ xs) h = (h 0 x refl, All-elements P xs (λ i a e. h (suc i) a e))

pub All-at :
    {A : Type 0} (P : A → Type 0) (xs : List A) (i : ℕ) (a : A)
    → All P xs
    → get_elem? xs i ≡ some a
    → P a
All-at P [] i a h e = cc
All-at P (x ∷ xs) zero a h e = let same : x ≡ a = cc in subst P same h.0
All-at P (x ∷ xs) (suc i) a h e = All-at P xs i a h.1 e

-- The plan of a column that is laid out.
pub Laid-at :
    (n : ℕ) (out : List ℕ) (cs : List WriteIsmColumn) (ps : List Plan) (i : ℕ) (c : WriteIsmColumn)
    → AllLaid n n out cs ps
    → get_elem? cs i ≡ some c
    → (p : Plan) × (get_elem? ps i ≡ some p) × Laid n n out c p
Laid-at n out [] [] i c h e = cc
Laid-at n out [] (p ∷ ps) i c h e = elim h [ ]
Laid-at n out (d ∷ cs) [] i c h e = elim h [ ]
Laid-at n out (d ∷ cs) (p ∷ ps) zero c h e =
    let same : d ≡ c = cc in (p, refl, subst (λ x. Laid n n out x p) same h.0)
Laid-at n out (d ∷ cs) (p ∷ ps) (suc i) c h e = Laid-at n out cs ps i c h.1 e

module _ (n : ℕ) (out : List ℕ) (c : WriteIsmColumn) (p : Plan) (h : Laid n n out c p)
    (bound : n ≤ 2 ^ 32) where
  start-lt : (j s : ℕ) → get_elem? p.starts j ≡ some s → s < n
  start-lt j s e = omega (arith, starts_bounds c 0 n none j s (omega arith) (rw h.starts at e))

  offset-lt : (j o : ℕ) → get_elem? p.offsets j ≡ some o → o < 2 ^ 32
  offset-lt j o e =
      let s : ℕ = get_or p.starts j 0 in
      let at : get_elem? p.starts j ≡ some s =
        get_elem?-lt p.starts j
          (omega (arith, h.placed.counted, lt-length_of_get_elem? p.offsets j o e)) in
      let (before, after, grown, found) = h.placed.filled j s at (start-lt j s at) in
      let same : some o ≡ some (length before % 2 ^ 32) = sym e ∙ found in ground arith

  Laid-IsSmall : length p.starts < 2 ^ 32 → IsSmall p
  Laid-IsSmall few = record {
    counted = h.placed.counted;
    few = few;
    starts = All-elements (λ v. v < 2 ^ 32) p.starts (λ j s e. omega (arith, start-lt j s e));
    offsets = All-elements (λ v. v < 2 ^ 32) p.offsets offset-lt;
  }

pub AllLaid-IsSmall :
    (n : ℕ) (out : List ℕ) (cs : List WriteIsmColumn) (ps : List Plan)
    → n ≤ 2 ^ 32
    → AllLaid n n out cs ps
    → index_length ps ≤ 2 ^ 28
    → All IsSmall ps
unfolding index_length
AllLaid-IsSmall n out [] [] b h l = tt
AllLaid-IsSmall n out [] (p ∷ ps) b h l = elim h [ ]
AllLaid-IsSmall n out (c ∷ cs) [] b h l = tt
AllLaid-IsSmall n out (c ∷ cs) (p ∷ ps) b h l =
    (Laid-IsSmall n out c p h.0 b (omega arith), AllLaid-IsSmall n out cs ps b h.1 (omega arith))

length-cell_of :
    (c : WriteIsmColumn) (n s : ℕ)
    → n * c.cell_size ≤ length c.bytes
    → s < n
    → length (cell_of c s) ≡ c.cell_size
length-cell_of c n s h lt =
    let below : suc s * c.cell_size ≤ n * c.cell_size =
      mul-le-mul_right c.cell_size (omega arith) in
    let e : suc s * c.cell_size ≡ s * c.cell_size + c.cell_size = omega arith in
    omega (
      arith,
      length-take c.cell_size (drop (s * c.cell_size) c.bytes),
      length-drop (s * c.cell_size) c.bytes,
    )

HoldsRow-cell :
    (c : WriteIsmColumn) (n : ℕ) (rows : List ℕ) (j r : ℕ)
    → n ≤ 2 ^ 32
    → rows ≡ starts_from c 0 n none
    → (held : HoldsRow rows j r) → r < n
    → cell_of c r ≡ cell_of c held.start
HoldsRow-cell c n rows j r bound e held lt =
    starts-cell c 0 n none j held.start r (omega arith) (rw e at held.at) held.from
      (rw e at held.below) (omega arith)

slice_of :
    (b x cell tail : List ℕ) (want : ℕ)
    → b ≡ x ++ (cell ++ tail)
    → length cell ≡ want
    → (slice b (length x) want ≡ cell) × (length x + want ≤ length b)
slice_of b x cell tail want e n = (
  rw (e, ← n) (slice-append x cell tail),
  omega (arith, ap length e, length-append x (cell ++ tail), length-append cell tail),
)

-- Bytes of the data, in the bucket.
module _ (big : Bool) (body : List ℕ) (ps : List Plan) (rest : List ℕ) where
  image-split :
      (before cell after : List ℕ)
      → body ≡ before ++ (cell ++ after)
      → image big body ps ++ rest
        ≡ (word big (length body + 4) ++ before)
          ++ (cell ++ (after ++ (concat_bytes (column_bytes big) ps ++ rest)))
  image-split before cell after grown =
      let w : List ℕ = word big (length body + 4) in
      let c : List ℕ = concat_bytes (column_bytes big) ps ++ rest in
      let e1 : image big body ps ++ rest ≡ w ++ (body ++ c) =
        unfold image in simp append_assoc refl in
      let e2 : (before ++ (cell ++ after)) ++ c ≡ before ++ (cell ++ (after ++ c)) =
        simp append_assoc refl in
      e1 ∙ ap (λ t. w ++ (t ++ c)) grown ∙ ap (λ t. w ++ t) e2 ∙ sym (append_assoc w before _)

  -- The value of an interval, read at its offset.
  cell_at-Filled :
      (c : WriteIsmColumn) (ci : ColumnIndex) (inx s column row : ℕ)
      → length body < 2 ^ 32
      → Filled c body ci.offsets inx s
      → length (cell_of c s) ≡ c.cell_size
      → cell_at (image big body ps ++ rest) ci c.cell_size inx column row ≡ ok (cell_of c s)
  unfolding cell_at
  cell_at-Filled c ci inx s column row low (before, after, grown, found) whole =
      let b : List ℕ = image big body ps ++ rest in
      let x : List ℕ = word big (length body + 4) ++ before in
      let o : 4 + length before % 2 ^ 32 ≡ length x = omega (
        arith,
        length-append (word big (length body + 4)) before,
        length-to_bytes (not big) 4 ((length body + 4) % 2 ^ 32),
        ap length grown,
        length-append before (cell_of c s ++ after),
      ) in
      let (part, inside) =
        slice_of b x (cell_of c s) _ c.cell_size (image-split before (cell_of c s) after grown)
          whole in
      let fits : ltb (length b) (length x + c.cell_size) ≡ false = ground arith in
      rw (found, cell_at, o, fits, part) refl

  -- The walk over the rows of a column, from an interval that begins at the first of them or before.
  pub walk-cells :
      (n : ℕ) (c : WriteIsmColumn) (p : Plan) (column : ℕ)
      → n ≤ 2 ^ 32
      → length body < 2 ^ 32
      → Laid n n body c p
      → n * c.cell_size ≤ length c.bytes
      → (stop row ir inx s : ℕ) → ir + stop ≤ n
      → get_elem? p.starts inx ≡ some s
      → s ≤ ir
      → walk
          (image big body ps ++ rest)
          (record { rows = p.starts; offsets = p.offsets })
          c.cell_size
          column
          stop
          row
          ir
          inx
        ≡ ok (cells c ir stop)
  unfolding walk
  walk-cells n c p column bound low h full zero row ir inx s inside at le = refl
  walk-cells n c p column bound low h full (suc stop) row ir inx s inside at le =
      let ci : ColumnIndex = record { rows = p.starts; offsets = p.offsets } in
      let inx' : ℕ = advance (length p.starts) p.starts inx ir in
      let held : HoldsRow p.starts inx' ir =
        advance-HoldsRow (length p.starts) p.starts inx ir s (omega arith) at le in
      let below : held.start < n = omega (arith, held.from) in
      let filled : Filled c body p.offsets inx' held.start =
        subst (λ d. Filled d body p.offsets inx' held.start) h.column
          (h.placed.filled inx' held.start held.at below) in
      let same : cell_of c ir ≡ cell_of c held.start =
        HoldsRow-cell c n p.starts inx' ir bound h.starts held (omega arith) in
      let first : cell_at (image big body ps ++ rest) ci c.cell_size inx' column row
          ≡ ok (cell_of c ir) =
        cell_at-Filled c ci inx' held.start column row low filled
          (length-cell_of c n held.start full below)
        ∙ ap ok (sym same) in
      let next : walk (image big body ps ++ rest) ci c.cell_size column stop (row + 1) (ir + 1) inx'
          ≡ ok (cells c (ir + 1) stop) =
        walk-cells n c p column bound low h full stop (row + 1) (ir + 1) inx' held.start
          (omega arith) held.at (omega (arith, held.from)) in
      rw (first, next) refl
