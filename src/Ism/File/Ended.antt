-- ===== src/Ism/File/Ended.antt =====
-- What a round of the loop over the buckets in crates/casacure/src/ism.rs returns: the cells or one
-- of the errors of the code.
use casacure.Prelude.{
  ◌≢◌, true, ◌*◌, ◌/◌, ◌%◌, ◌==◌, Option, none, some, get_elem?, slice, subst, if◌then◌else◌, ℕ,
  zero, suc, ◌^◌, ◌+◌, ◌≡◌, refl, Bool, false, List, ltb, length,
}
use casacure.Result.{Result, ok, err, ◌>>=◌}
use casacure.Ism.{IsmError, panicked, column_empty, out_of_fuel}
use casacure.Positions.{read_each}
use casacure.Ism.Bucket.{
  ColumnIndex, read_word_at, row_width, skip_columns, read_column, cell_at, walk, bucket_cells,
  column_index, first_interval, or_empty, advance,
}
use casacure.Ism.File.{IsmFile, bucket_bytes, in_range}

-- A result other than `out_of_fuel`, which only the loop itself can give.
unfoldable pub Ended : {A : Type 0} → Result IsmError A → Type 0
Ended (err out_of_fuel) = ⊥
Ended r = Unit

pub Ended-bind :
    {A B : Type 0} (r : Result IsmError A) (g : A → Result IsmError B)
    → Ended r
    → ((a : A) → r ≡ ok a → Ended (g a))
    → Ended (r >>= g)
unfolding Ended
Ended-bind (ok a) g h k = k a refl
Ended-bind (err out_of_fuel) g h k = absurd h
Ended-bind (err e) g h k = h

pub Ended-last :
    {A B : Type 0} (r : Result IsmError A) (g : A → B) → Ended r → Ended (r >>= λ a. ok (g a))
unfolding Ended
Ended-last (ok a) g h = tt
Ended-last (err out_of_fuel) g h = absurd h
Ended-last (err e) g h = h

pub Ended-if :
    {A : Type 0} (b : Bool) (r s : Result IsmError A)
    → Ended r
    → Ended s
    → Ended (if b then r else s)
Ended-if true r s h k = h
Ended-if false r s h k = k

pub ended : {A : Type 0} (r : Result IsmError A) → Ended r → r ≢ err out_of_fuel
unfolding Ended
ended (ok a) h = λ e. cc
ended (err out_of_fuel) h = absurd h
ended (err e) h = λ k. subst Ended k h

Ended-read_word_at : (big : Bool) (k : ℕ) (b : List ℕ) (pos : ℕ) → Ended (read_word_at big k b pos)
unfolding read_word_at Ended
Ended-read_word_at big k b pos = Ended-if (ltb (length b) (pos + k)) _ _ tt tt

Ended-skip_columns :
    (big use32 : Bool) (b : List ℕ) (n pos : ℕ) → Ended (skip_columns big use32 b n pos)
unfolding skip_columns
Ended-skip_columns big use32 b zero pos = unfold Ended in tt
Ended-skip_columns big use32 b (suc n) pos =
    Ended-bind (read_word_at big 4 b pos) _ (Ended-read_word_at big 4 b pos)
      (λ nr _. Ended-skip_columns big use32 b n (nr.1 + nr.0 * row_width use32 + nr.0 * 4))

Ended-read_each :
    (k : ℕ) (big : Bool) (b : List ℕ) (n pos : ℕ) → Ended (read_each (read_word_at big k) b n pos)
unfolding read_each
Ended-read_each k big b zero pos = unfold Ended in tt
Ended-read_each k big b (suc n) pos =
    Ended-bind (read_word_at big k b pos) _ (Ended-read_word_at big k b pos)
      (λ v _. Ended-last (read_each (read_word_at big k) b n v.1) _ (Ended-read_each k big b n v.1))

Ended-read_column : (big use32 : Bool) (b : List ℕ) (pos : ℕ) → Ended (read_column big use32 b pos)
unfolding read_column
Ended-read_column big use32 b pos =
    Ended-bind (read_word_at big 4 b pos) _ (Ended-read_word_at big 4 b pos) (λ nr _.
      Ended-bind (read_each (read_word_at big (row_width use32)) b nr.0 nr.1) _
        (Ended-read_each (row_width use32) big b nr.0 nr.1)
        (λ rows _.
          Ended-last (read_each (read_word_at big 4) b nr.0 rows.1) _
            (Ended-read_each 4 big b nr.0 rows.1)))

Ended-cell :
    (b : List ℕ) (want column row : ℕ) (o : Option ℕ)
    → Ended (elim o [
      | none ↦ err panicked
      | some o ↦
          if ltb (length b) (4 + o + want)
          then err (column_empty column row)
          else ok (slice b (4 + o) want)
    ])
unfolding Ended
Ended-cell b want column row none = tt
Ended-cell b want column row (some o) = Ended-if (ltb (length b) (4 + o + want)) _ _ tt tt

Ended-cell_at :
    (b : List ℕ) (ci : ColumnIndex) (want inx column row : ℕ)
    → Ended (cell_at b ci want inx column row)
unfolding cell_at
Ended-cell_at b ci want inx column row = Ended-cell b want column row (get_elem? ci.offsets inx)

Ended-walk :
    (b : List ℕ) (ci : ColumnIndex) (want column stop row ir inx : ℕ)
    → Ended (walk b ci want column stop row ir inx)
unfolding walk
Ended-walk b ci want column zero row ir inx = unfold Ended in tt
Ended-walk b ci want column (suc stop) row ir inx =
    let inx' : ℕ = advance (length ci.rows) ci.rows inx ir in
    Ended-bind (cell_at b ci want inx' column row) _ (Ended-cell_at b ci want inx' column row)
      (λ cell _.
        Ended-last (walk b ci want column stop (row + 1) (ir + 1) inx') _
          (Ended-walk b ci want column stop (row + 1) (ir + 1) inx'))

Ended-or_empty : (o : Option ℕ) (column row : ℕ) → Ended (or_empty o column row)
unfolding Ended
Ended-or_empty none column row = tt
Ended-or_empty (some inx) column row = tt

pub Ended-bucket_cells :
    (big : Bool) (b : List ℕ) (want column row intra stop : ℕ)
    → Ended (bucket_cells big b want column row intra stop)
unfolding bucket_cells column_index
Ended-bucket_cells big b want column row intra stop =
    Ended-bind (column_index big b column) _
      (Ended-bind (read_word_at big 4 b 0) _ (Ended-read_word_at big 4 b 0) (λ ioff _.
        Ended-bind (skip_columns big (ioff.0 / 2 ^ 28 == 0) b column (ioff.0 % 2 ^ 28)) _
          (Ended-skip_columns big _ b column _) (λ pos _. Ended-read_column big _ b pos)))
      (λ ci _.
        Ended-bind (or_empty (first_interval ci.rows intra) column row) _
          (Ended-or_empty (first_interval ci.rows intra) column row)
          (λ inx _. Ended-walk b ci want column stop row intra inx))

pub Ended-in_range : (o : Option (ℕ × ℕ × ℕ)) (row : ℕ) → Ended (in_range o row)
unfolding Ended
Ended-in_range none row = tt
Ended-in_range (some found) row = tt

pub Ended-bucket_bytes : (f : IsmFile) (nr : ℕ) → Ended (bucket_bytes f nr)
unfolding bucket_bytes Ended
Ended-bucket_bytes f nr = Ended-if (ltb (length f.bytes) _) _ _ tt tt
