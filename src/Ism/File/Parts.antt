-- ===== src/Ism/File/Parts.antt =====
-- The columns of a bucket of crates/casacure/src/ism.rs, cut out of the table's.
use casacure.Prelude.{
  ℕ, zero, suc, ◌+◌, ◌-◌, ◌*◌, ◌≤◌, ◌<◌, ◌≡◌, refl, ap, List, [], ◌∷◌, ◌++◌, some, arith, true,
  ◌&&◌, leb, length, get_elem?, slice, map, length-take, length-drop, slice-slice, drop,
}
use native.Mathlib.Nat.{mul-le-mul_right, zero-add, add-zero, suc-add}
use casacure.Ssm.Cells.{get_range}
use casacure.Ism.Bucket.{WriteIsmColumn, cell_of, sum_sizes}
use casacure.Ism.Bucket.RoundTrip.{cells, AreFull}
use casacure.Ism.File.{columns_of}

abbrev pub part : ℕ → ℕ → WriteIsmColumn → WriteIsmColumn
part start_row end_row c = record {
  cell_size = c.cell_size;
  bytes = slice c.bytes (start_row * c.cell_size) (end_row * c.cell_size - start_row * c.cell_size);
}

pub columns_of-part :
    (start_row end_row : ℕ) (cols : List WriteIsmColumn)
    → start_row ≤ end_row
    → AreFull end_row cols
    → columns_of start_row end_row cols ≡ some (map (part start_row end_row) cols)
unfolding columns_of get_range
columns_of-part s e [] h all = refl
columns_of-part s e (c ∷ cs) h (full, all) =
    let order : s * c.cell_size ≤ e * c.cell_size = mul-le-mul_right c.cell_size h in
    let t : (leb (s * c.cell_size) (e * c.cell_size) && leb (e * c.cell_size) (length c.bytes))
        ≡ true =
      ground arith in
    rw (t, columns_of-part s e cs h all) refl

pub sum_sizes-part :
    (s e : ℕ) (cols : List WriteIsmColumn) → sum_sizes (map (part s e) cols) ≡ sum_sizes cols
unfolding sum_sizes
sum_sizes-part s e [] = refl
sum_sizes-part s e (c ∷ cs) = ap (λ (n : ℕ). c.cell_size + n) (sum_sizes-part s e cs)

pub get_elem?-part :
    (s e : ℕ) (cols : List WriteIsmColumn) (i : ℕ) (c : WriteIsmColumn)
    → get_elem? cols i ≡ some c
    → get_elem? (map (part s e) cols) i ≡ some (part s e c)
get_elem?-part s e [] i c h = cc
get_elem?-part s e (d ∷ cs) zero c h = let same : d ≡ c = cc in rw same refl
get_elem?-part s e (d ∷ cs) (suc i) c h = get_elem?-part s e cs i c h

product_difference : (s e z : ℕ) → s ≤ e → e * z - s * z ≡ (e - s) * z
product_difference s e z h =
    let k : ℕ = e - s in
    let whole : e ≡ s + k = omega arith in
    let split : (s + k) * z ≡ s * z + k * z = omega arith in
    omega (arith, ap (λ (t : ℕ). t * z) whole)

length-part :
    (s e : ℕ) (c : WriteIsmColumn)
    → s ≤ e
    → e * c.cell_size ≤ length c.bytes
    → (e - s) * c.cell_size ≤ length (part s e c).bytes
length-part s e c h full = omega (
  arith,
  product_difference s e c.cell_size h,
  length-take (e * c.cell_size - s * c.cell_size) (drop (s * c.cell_size) c.bytes),
  length-drop (s * c.cell_size) c.bytes,
  mul-le-mul_right c.cell_size h,
)

pub AreFull-part :
    (s e : ℕ) (cols : List WriteIsmColumn)
    → s ≤ e
    → AreFull e cols
    → AreFull (e - s) (map (part s e) cols)
AreFull-part s e [] h full = tt
AreFull-part s e (c ∷ cs) h (full, all) = (length-part s e c h full, AreFull-part s e cs h all)

cell_of-part :
    (s e : ℕ) (c : WriteIsmColumn) (r : ℕ)
    → s ≤ e
    → r < e - s
    → cell_of (part s e c) r ≡ cell_of c (s + r)
cell_of-part s e c r h lt =
    let z : ℕ = c.cell_size in
    let below : suc r * z ≤ (e - s) * z = mul-le-mul_right z lt in
    let grown : suc r * z ≡ r * z + z = omega arith in
    let place : (s + r) * z ≡ s * z + r * z = omega arith in
    rw place (
      slice-slice c.bytes (s * z) (e * z - s * z) (r * z) z
        (omega (arith, product_difference s e z h)))

-- The cells of a part are those of the table's rows.
pub cells-part :
    (s e : ℕ) (c : WriteIsmColumn) (r n : ℕ)
    → s ≤ e
    → r + n ≤ e - s
    → cells (part s e c) r n ≡ cells c (s + r) n
cells-part s e c r zero h inside = refl
cells-part s e c r (suc n) h inside =
    let next : s + (r + 1) ≡ s + r + 1 = omega arith in
    let rest : cells (part s e c) (r + 1) n ≡ cells c (s + r + 1) n =
      rw (← next) (cells-part s e c (r + 1) n h (omega arith)) in
    rw (cell_of-part s e c r h (omega arith), rest) refl

pub cells_add :
    (c : WriteIsmColumn) (row m n : ℕ) → cells c row (m + n) ≡ cells c row m ++ cells c (row + m) n
cells_add c row zero n = rw (zero-add, add-zero) refl
cells_add c row (suc m) n =
    let e : row + suc m ≡ row + 1 + m = omega arith in
    rw (suc-add, e) (ap (λ t. cell_of c row ∷ t) (cells_add c (row + 1) m n))
