-- ===== src/Positions.antt =====
-- Reading at a position in a byte string, as the loops of crates/casacure/src/ism.rs and ssm.rs do
-- that carry an index.
use casacure.Prelude.{
  ℕ, zero, suc, ◌≡◌, refl, sym, ◌∙◌, List, [], ◌∷◌, ◌++◌, append_assoc, append-nil, length,
}
use casacure.Result.{Result, ok, ◌>>=◌}
use casacure.Aipsio.Reads.{All, concat_bytes}

-- `for _ in 0..n`: what stands from `p` on, and where it ends.
module _ {E A : Type 0} where
  unfoldable pub read_each :
      (List ℕ → ℕ → Result E (A × ℕ)) → List ℕ → ℕ → ℕ → Result E (List A × ℕ)
  read_each item content zero p = ok ([], p)
  read_each item content (suc n) p =
      item content p >>= λ a. read_each item content n a.1 >>= λ r. ok (a.0 ∷ r.0, r.1)

-- A run of items is read as the loop reads them, where each item is read from its own bytes.
module _ {E A : Type 0} (item : List ℕ → ℕ → Result E (A × ℕ)) (enc : A → List ℕ) (P : A → Type 0)
    (reads : (pre : List ℕ) (a : A) (rest : List ℕ)
      → P a
      → item (pre ++ (enc a ++ rest)) (length pre) ≡ ok (a, length (pre ++ enc a))) where
  regroup_first :
      (pre : List ℕ) (a : A) (as' : List A) (rest : List ℕ)
      → pre ++ (concat_bytes enc (a ∷ as') ++ rest)
        ≡ pre ++ (enc a ++ (concat_bytes enc as' ++ rest))
  unfolding concat_bytes
  regroup_first pre a as' rest = rw append_assoc refl

  regroup_next :
      (pre : List ℕ) (a : A) (as' : List A) (rest : List ℕ)
      → pre ++ (concat_bytes enc (a ∷ as') ++ rest)
        ≡ (pre ++ enc a) ++ (concat_bytes enc as' ++ rest)
  regroup_next pre a as' rest =
      regroup_first pre a as' rest ∙ sym (append_assoc pre (enc a) (concat_bytes enc as' ++ rest))

  regroup_read :
      (pre : List ℕ) (a : A) (as' : List A)
      → (pre ++ enc a) ++ concat_bytes enc as' ≡ pre ++ concat_bytes enc (a ∷ as')
  unfolding concat_bytes
  regroup_read pre a as' = append_assoc pre (enc a) (concat_bytes enc as')

  pub read_each-concat :
      (pre : List ℕ) (xs : List A) (rest : List ℕ)
      → All P xs
      → read_each item (pre ++ (concat_bytes enc xs ++ rest)) (length xs) (length pre)
        ≡ ok (xs, length (pre ++ concat_bytes enc xs))
  unfolding read_each
  read_each-concat pre [] rest h = unfold concat_bytes in rw append-nil refl
  read_each-concat pre (a ∷ as') rest h =
      let first : item (pre ++ (concat_bytes enc (a ∷ as') ++ rest)) (length pre)
          ≡ ok (a, length (pre ++ enc a)) =
        rw (regroup_first pre a as' rest) (reads pre a (concat_bytes enc as' ++ rest) h.0) in
      let next : read_each item (pre ++ (concat_bytes enc (a ∷ as') ++ rest)) (length as')
            (length (pre ++ enc a))
          ≡ ok (as', length (pre ++ concat_bytes enc (a ∷ as'))) =
        rw (regroup_next pre a as' rest, ← regroup_read pre a as')
          (read_each-concat (pre ++ enc a) as' rest h.1) in
      rw (first, next) refl
