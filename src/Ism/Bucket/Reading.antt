-- ===== src/Ism/Bucket/Reading.antt =====
-- What crates/casacure/src/ism.rs reads from a bucket that it wrote: the intervals of a column.
use casacure.Prelude.{
  ℕ, zero, suc, ◌+◌, ◌*◌, ◌/◌, ◌%◌, ◌^◌, ◌<◌, ◌≡◌, refl, sym, ◌∙◌, subst, Bool, true, false, not,
  List, [], ◌∷◌, ◌++◌, some, arith, ltb, ◌==◌, length, get_elem?, append_assoc, length-append,
  slice-append, slice,
}
use casacure.Result.{ok, ◌>>=◌}
use casacure.Bytes.{length-to_bytes, from_bytes, from_bytes-to_bytes}
use casacure.Aipsio.Reads.{All, concat_bytes}
use casacure.Positions.{read_each, read_each-concat}
use casacure.Ism.Bucket.{Plan, read_word_at, skip_columns, read_column, column_index}
use casacure.Ism.Bucket.Written.{word, column_bytes, length-column_bytes, image}

-- A value that fits in four bytes is read back where it was written.
read_word_at-word :
    (big : Bool) (pre : List ℕ) (v : ℕ) (rest : List ℕ)
    → v < 2 ^ 32
    → read_word_at big 4 (pre ++ (word big v ++ rest)) (length pre)
      ≡ ok (v, length (pre ++ word big v))
unfolding read_word_at
read_word_at-word big pre v rest h =
    let n : length (word big v) ≡ 4 = length-to_bytes (not big) 4 (v % 2 ^ 32) in
    let m : v % 2 ^ 32 ≡ v = omega arith in
    let inside : ltb (length (pre ++ (word big v ++ rest))) (length pre + 4) ≡ false =
      ground (arith, length-append pre (word big v ++ rest), length-append (word big v) rest) in
    let part : slice (pre ++ (word big v ++ rest)) (length pre) 4 ≡ word big v =
      rw n at (slice-append pre (word big v) rest) in
    let value : from_bytes (not big) (word big v) ≡ v =
      from_bytes-to_bytes (not big) 4 (v % 2 ^ 32) (omega arith) ∙ m in
    let at : length (pre ++ word big v) ≡ length pre + 4 =
      omega (arith, length-append pre (word big v)) in
    rw (inside, part, value, at) refl

-- What a column's index must be for its words to be read back.
pub record IsSmall (p : Plan) : Type 0 where
  pub counted : length p.offsets ≡ length p.starts
  pub few : length p.starts < 2 ^ 32
  pub starts : All (λ v. v < 2 ^ 32) p.starts
  pub offsets : All (λ v. v < 2 ^ 32) p.offsets

module _ (big : Bool) where
  read_column-bytes :
      (pre : List ℕ) (p : Plan) (rest : List ℕ)
      → IsSmall p
      → read_column big true (pre ++ (column_bytes big p ++ rest)) (length pre)
        ≡ ok (record { rows = p.starts; offsets = p.offsets })
  unfolding read_column
  read_column-bytes pre p rest h =
      let w : List ℕ = word big (length p.starts) in
      let s : List ℕ = concat_bytes (word big) p.starts in
      let o : List ℕ = concat_bytes (word big) p.offsets in
      let whole : List ℕ = pre ++ (column_bytes big p ++ rest) in
      let e1 : whole ≡ pre ++ (w ++ (s ++ (o ++ rest))) =
        unfold column_bytes in simp append_assoc refl in
      let e2 : whole ≡ (pre ++ w) ++ (s ++ (o ++ rest)) =
        unfold column_bytes in simp append_assoc refl in
      let e3 : whole ≡ ((pre ++ w) ++ s) ++ (o ++ rest) =
        unfold column_bytes in simp append_assoc refl in
      let first : read_word_at big 4 whole (length pre) ≡ ok (length p.starts, length (pre ++ w)) =
        rw e1 (read_word_at-word big pre (length p.starts) (s ++ (o ++ rest)) h.few) in
      let second : read_each (read_word_at big 4) whole (length p.starts) (length (pre ++ w))
          ≡ ok (p.starts, length ((pre ++ w) ++ s)) =
        rw e2 (
          read_each-concat (read_word_at big 4) (word big) (λ v. v < 2 ^ 32) (read_word_at-word big)
            (pre ++ w) p.starts (o ++ rest) h.starts) in
      let third : read_each (read_word_at big 4) whole (length p.starts) (length ((pre ++ w) ++ s))
          ≡ ok (p.offsets, length (((pre ++ w) ++ s) ++ o)) =
        rw e3 (
          rw h.counted at (
            read_each-concat (read_word_at big 4) (word big) (λ v. v < 2 ^ 32)
              (read_word_at-word big) ((pre ++ w) ++ s) p.offsets rest h.offsets)) in
      rw (first, second, third) refl

  read_length :
      (pre : List ℕ) (q : Plan) (ps : List Plan) (rest : List ℕ)
      → length q.starts < 2 ^ 32
      → read_word_at big 4 (pre ++ (concat_bytes (column_bytes big) (q ∷ ps) ++ rest)) (length pre)
        ≡ ok (length q.starts, length (pre ++ word big (length q.starts)))
  unfolding concat_bytes column_bytes
  read_length pre q ps rest few =
      let w : List ℕ = word big (length q.starts) in
      let more : List ℕ =
        concat_bytes (word big) q.starts
        ++ (concat_bytes (word big) q.offsets ++ (concat_bytes (column_bytes big) ps ++ rest)) in
      let same : pre ++ (concat_bytes (column_bytes big) (q ∷ ps) ++ rest) ≡ pre ++ (w ++ more) =
        simp append_assoc refl in
      rw same (read_word_at-word big pre (length q.starts) more few)

  behind_column :
      (pre : List ℕ) (q : Plan)
      → length q.offsets ≡ length q.starts
      → length (pre ++ word big (length q.starts)) + length q.starts * 4 + length q.starts * 4
        ≡ length (pre ++ column_bytes big q)
  behind_column pre q h = omega (
    arith,
    length-append pre (word big (length q.starts)),
    length-append pre (column_bytes big q),
    length-column_bytes big q h,
    length-to_bytes (not big) 4 (length q.starts % 2 ^ 32),
  )

  column-bytes :
      (ps : List Plan) (i : ℕ) (p : Plan) (pre rest : List ℕ)
      → All IsSmall ps
      → get_elem? ps i ≡ some p
      → (skip_columns big true (pre ++ (concat_bytes (column_bytes big) ps ++ rest)) i (length pre)
          >>= λ pos. read_column big true (pre ++ (concat_bytes (column_bytes big) ps ++ rest)) pos)
        ≡ ok (record { rows = p.starts; offsets = p.offsets })
  unfolding skip_columns concat_bytes
  column-bytes [] i p pre rest h e = cc
  column-bytes (q ∷ ps) zero p pre rest h e =
      let is : q ≡ p = cc in
      rw (append_assoc, ← is)
        (read_column-bytes pre q (concat_bytes (column_bytes big) ps ++ rest) h.0)
  column-bytes (q ∷ ps) (suc i) p pre rest h e =
      let whole : List ℕ = pre ++ (concat_bytes (column_bytes big) (q ∷ ps) ++ rest) in
      let same : whole
          ≡ (pre ++ column_bytes big q) ++ (concat_bytes (column_bytes big) ps ++ rest) =
        simp append_assoc refl in
      rw (read_length pre q ps rest h.0.few, behind_column pre q h.0.counted)
        (subst
          (λ b.
            (skip_columns big true b i (length (pre ++ column_bytes big q)) >>= λ pos.
            read_column big true b pos)
            ≡ ok (record { rows = p.starts; offsets = p.offsets }))
          (sym same) (column-bytes ps i p (pre ++ column_bytes big q) rest h.1 e))

  -- The intervals of a column as they were written, with their offsets.
  pub column_index-image :
      (body : List ℕ) (ps : List Plan) (i : ℕ) (p : Plan) (rest : List ℕ)
      → length body + 4 < 2 ^ 28
      → All IsSmall ps
      → get_elem? ps i ≡ some p
      → column_index big (image big body ps ++ rest) i
        ≡ ok (record { rows = p.starts; offsets = p.offsets })
  unfolding column_index
  column_index-image body ps i p rest low h e =
      let w : List ℕ = word big (length body + 4) in
      let b : List ℕ = image big body ps ++ rest in
      let e0 : b ≡ w ++ (body ++ (concat_bytes (column_bytes big) ps ++ rest)) =
        unfold image in simp append_assoc refl in
      let e1 : b ≡ (w ++ body) ++ (concat_bytes (column_bytes big) ps ++ rest) =
        unfold image in simp append_assoc refl in
      let first : read_word_at big 4 b 0 ≡ ok (length body + 4, length w) = rw e0 (
        read_word_at-word big [] (length body + 4)
          (body ++ (concat_bytes (column_bytes big) ps ++ rest)) (omega arith)) in
      let narrow : ((length body + 4) / 2 ^ 28 == 0) ≡ true = ground arith in
      let pos : (length body + 4) % 2 ^ 28 ≡ length (w ++ body) =
        omega
          (arith, length-append w body, length-to_bytes (not big) 4 ((length body + 4) % 2 ^ 32)) in
      rw (first, narrow, pos, e1) (column-bytes ps i p (w ++ body) rest h e)
