-- ===== src/Ism/Bucket/Written.antt =====
-- What crates/casacure/src/ism.rs writes into a bucket, one word after the other: the offset of the
-- index, the data, and the index of the columns.
use casacure.Prelude.{
  ℕ, zero, suc, ◌+◌, ◌-◌, ◌*◌, ◌%◌, ◌^◌, ◌≤◌, ◌≡◌, refl, sym, ap, ◌∙◌, Bool, not, List, [], ◌∷◌,
  ◌++◌, arith, length, append_assoc, append-nil, length-append, replicate, length-replicate,
  overwrite, overwrite-append,
}
use native.Mathlib.Nat.{zero-add, suc-add}
use casacure.Bytes.{to_bytes, length-to_bytes}
use casacure.Aipsio.Reads.{All, concat_bytes}
use casacure.Ism.Bucket.{
  Plan, put_word, put_words, put_column, put_columns, index_length, fill_bucket,
}

abbrev pub word : Bool → ℕ → List ℕ
word big v = to_bytes (not big) 4 (v % 2 ^ 32)

-- The index of a column.
unfoldable pub column_bytes : Bool → Plan → List ℕ
column_bytes big p =
    word big (length p.starts)
    ++ (concat_bytes (word big) p.starts ++ concat_bytes (word big) p.offsets)

-- `vec![0; n]`
abbrev zeros : ℕ → List ℕ
zeros n = replicate n 0

-- A bucket of `total` bytes whose first ones are written, with the position behind them.
abbrev filled : List ℕ → ℕ → List ℕ × ℕ
filled before total = (before ++ zeros (total - length before), length before)

replicate_add : (m n : ℕ) → zeros (m + n) ≡ zeros m ++ zeros n
replicate_add zero n = rw zero-add refl
replicate_add (suc m) n = rw (suc-add, replicate_add m n) refl

length-zeros : (n : ℕ) → length (zeros n) ≡ n
length-zeros n = length-replicate n 0

overwrite-zeros :
    (before bs : List ℕ) (total : ℕ)
    → length before + length bs ≤ total
    → overwrite (before ++ zeros (total - length before)) (length before) bs
      ≡ (before ++ bs) ++ replicate (total - length (before ++ bs)) 0
overwrite-zeros before bs total h =
    let left : ℕ = total - length (before ++ bs) in
    let e : total - length before ≡ length bs + left = omega (arith, length-append before bs) in
    let split : zeros (total - length before) ≡ zeros (length bs) ++ zeros left =
      rw e (replicate_add (length bs) left) in
    rw split (
      overwrite-append before (zeros (length bs)) (zeros left) bs (length-zeros (length bs))
      ∙ sym (append_assoc before bs (zeros left)))

regroup : (x a b c : List ℕ) → ((x ++ a) ++ b) ++ c ≡ x ++ (a ++ (b ++ c))
regroup x a b c = rw (append_assoc, append_assoc) refl

module _ (big : Bool) where
  length-words : (vs : List ℕ) → length (concat_bytes (word big) vs) ≡ 4 * length vs
  unfolding concat_bytes
  length-words [] = refl
  length-words (v ∷ vs) = omega (
    arith,
    length-append (word big v) (concat_bytes (word big) vs),
    length-to_bytes (not big) 4 (v % 2 ^ 32),
    length-words vs,
  )

  pub length-column_bytes :
      (p : Plan)
      → length p.offsets ≡ length p.starts
      → length (column_bytes big p) ≡ 4 + 8 * length p.starts
  unfolding column_bytes
  length-column_bytes p h = omega (
    arith,
    length-append (word big (length p.starts))
        (concat_bytes (word big) p.starts ++ concat_bytes (word big) p.offsets),
    length-append (concat_bytes (word big) p.starts) (concat_bytes (word big) p.offsets),
    length-to_bytes (not big) 4 (length p.starts % 2 ^ 32),
    length-words p.starts,
    length-words p.offsets,
  )

module _ (big : Bool) (total : ℕ) where
  put_word-filled :
      (before : List ℕ) (v : ℕ)
      → length before + 4 ≤ total
      → put_word big v (filled before total) ≡ filled (before ++ word big v) total
  unfolding put_word
  put_word-filled before v h =
      let n : length (word big v) ≡ 4 = length-to_bytes (not big) 4 (v % 2 ^ 32) in
      let e : length (before ++ word big v) ≡ length before + 4 =
        length-append before (word big v) ∙ ap (λ (k : ℕ). length before + k) n in
      let fits : length before + length (word big v) ≤ total = omega (arith, n) in
      λ i. (overwrite-zeros before (word big v) total fits i, sym e i)

  put_words-filled :
      (vs before : List ℕ)
      → length before + 4 * length vs ≤ total
      → put_words big vs (filled before total) ≡ filled (before ++ concat_bytes (word big) vs) total
  unfolding put_words concat_bytes
  put_words-filled [] before h = rw append-nil refl
  put_words-filled (v ∷ vs) before h =
      let n : length (before ++ word big v) ≡ length before + 4 =
        length-append before (word big v)
        ∙ ap (λ (k : ℕ). length before + k) (length-to_bytes (not big) 4 (v % 2 ^ 32)) in
      rw (put_word-filled before v (omega arith), ← append_assoc)
        (put_words-filled vs (before ++ word big v) (omega arith))

  put_column-filled :
      (before : List ℕ) (p : Plan)
      → length p.offsets ≡ length p.starts
      → length before + (4 + 8 * length p.starts) ≤ total
      → put_column big p (filled before total) ≡ filled (before ++ column_bytes big p) total
  unfolding put_column column_bytes
  put_column-filled before p e h =
      let a : List ℕ = before ++ word big (length p.starts) in
      let b : List ℕ = a ++ concat_bytes (word big) p.starts in
      let na : length a ≡ length before + 4 =
        length-append before (word big (length p.starts))
        ∙ ap (λ (k : ℕ). length before + k)
            (length-to_bytes (not big) 4 (length p.starts % 2 ^ 32)) in
      let nb : length b ≡ length before + 4 + 4 * length p.starts = omega (
        arith,
        na,
        length-append a (concat_bytes (word big) p.starts),
        length-words big p.starts,
      ) in
      rw
        (
          put_word-filled before (length p.starts) (omega arith),
          put_words-filled p.starts a (omega arith),
          put_words-filled p.offsets b (omega arith),
        )
        (ap (λ bs. filled bs total)
          (regroup before (word big (length p.starts)) (concat_bytes (word big) p.starts)
            (concat_bytes (word big) p.offsets)))

  put_columns-filled :
      (ps : List Plan) (before : List ℕ)
      → All (λ p. length p.offsets ≡ length p.starts) ps
      → length before + index_length ps ≤ total
      → put_columns big ps (filled before total)
        ≡ filled (before ++ concat_bytes (column_bytes big) ps) total
  unfolding put_columns concat_bytes index_length
  put_columns-filled [] before e h = rw append-nil refl
  put_columns-filled (p ∷ ps) before (e, es) h =
      let n : length (before ++ column_bytes big p) ≡ length before + (4 + 8 * length p.starts) =
        length-append before (column_bytes big p)
        ∙ ap (λ (k : ℕ). length before + k) (length-column_bytes big p e) in
      rw (put_column-filled before p e (omega arith), ← append_assoc)
        (put_columns-filled ps (before ++ column_bytes big p) es (omega arith))

length-columns :
    (big : Bool) (ps : List Plan)
    → All (λ p. length p.offsets ≡ length p.starts) ps
    → length (concat_bytes (column_bytes big) ps) ≡ index_length ps
unfolding concat_bytes index_length
length-columns big [] e = refl
length-columns big (p ∷ ps) (e, es) = omega (
  arith,
  length-append (column_bytes big p) (concat_bytes (column_bytes big) ps),
  length-column_bytes big p e,
  length-columns big ps es,
)

-- What is written into a bucket, up to the zeros behind it.
unfoldable pub image : Bool → List ℕ → List Plan → List ℕ
image big body ps = word big (length body + 4) ++ (body ++ concat_bytes (column_bytes big) ps)

pub fill_bucket-image :
    (big : Bool) (total : ℕ) (body : List ℕ) (ps : List Plan)
    → All (λ p. length p.offsets ≡ length p.starts) ps
    → 4 + length body + index_length ps ≤ total
    → (rest : List ℕ) × (fill_bucket big total body ps ≡ image big body ps ++ rest)
      × (length (image big body ps ++ rest) ≡ total)
unfolding fill_bucket image
fill_bucket-image big total body ps e h =
    let w : List ℕ = word big (length body + 4) in
    let n : length w ≡ 4 = length-to_bytes (not big) 4 ((length body + 4) % 2 ^ 32) in
    let whole : total - 0 ≡ total = omega arith in
    let first : put_word big (length body + 4) (zeros total, 0) ≡ filled w total =
      rw whole at (put_word-filled big total [] (length body + 4) (omega arith)) in
    let second : overwrite (w ++ zeros (total - length w)) (length w) body
        ≡ (w ++ body) ++ zeros (total - length (w ++ body)) =
      overwrite-zeros w body total (omega arith) in
    let last : put_columns big ps (filled (w ++ body) total)
        ≡ filled ((w ++ body) ++ concat_bytes (column_bytes big) ps) total =
      put_columns-filled big total ps (w ++ body) e (omega (arith, length-append w body)) in
    (
      zeros (total - length ((w ++ body) ++ concat_bytes (column_bytes big) ps)),
      ap (λ s. (put_columns big ps (overwrite s.0 s.1 body, s.1 + length body)).0) first
          ∙ ap (λ s. (put_columns big ps s).0) (λ i. (second i, sym (length-append w body) i))
          ∙ ap (λ s. s.0) last
          ∙ rw (append_assoc w body) refl,
      omega (
        arith,
        length-append (image big body ps)
            (zeros (total - length ((w ++ body) ++ concat_bytes (column_bytes big) ps))),
        length-zeros (total - length ((w ++ body) ++ concat_bytes (column_bytes big) ps)),
        length-append w (body ++ concat_bytes (column_bytes big) ps),
        length-append (w ++ body) (concat_bytes (column_bytes big) ps),
        length-append body (concat_bytes (column_bytes big) ps),
        length-append w body,
        length-columns big ps e,
      ),
    )
