-- ===== src/Ism/File/Bounds.antt =====
-- The bucket boundaries of a file that crates/casacure/src/ism.rs writes.
use casacure.Prelude.{
  ℕ, zero, suc, ◌+◌, ◌*◌, ◌<◌, ◌≡◌, refl, ap, ◌∙◌, some, arith, min, length, get_elem?, map,
}
use native.Mathlib.Nat.{zero-add}
use casacure.Aipsio.Reads.{All}
use casacure.Search.{Ascending}
use casacure.Ssm.Encode.{count_up}

get_elem?-count_up :
    (f : ℕ → ℕ) (b n i : ℕ) → i < n → get_elem? (map f (count_up b n)) i ≡ some (f (b + i))
unfolding count_up
get_elem?-count_up f b zero i h = absurd (omega arith)
get_elem?-count_up f b (suc n) zero h = let e : b + 0 ≡ b = omega arith in rw e refl
get_elem?-count_up f b (suc n) (suc i) h =
    let e : b + 1 + i ≡ b + suc i = omega arith in
    rw (← e) (get_elem?-count_up f (b + 1) n i (omega arith))

pub get_elem?-count_zero :
    (f : ℕ → ℕ) (n i : ℕ) → i < n → get_elem? (map f (count_up 0 n)) i ≡ some (f i)
get_elem?-count_zero f n i h =
    get_elem?-count_up f 0 n i h ∙ ap (λ (x : ℕ). some (f x)) (zero-add i)

pub length-count_up : (f : ℕ → ℕ) (b n : ℕ) → length (map f (count_up b n)) ≡ n
unfolding count_up
length-count_up f b zero = refl
length-count_up f b (suc n) = ap suc (length-count_up f (b + 1) n)

pub All-count_up :
    (P : ℕ → Type 0) (f : ℕ → ℕ) (b n : ℕ)
    → ((x : ℕ) → x < b + n → P (f x))
    → All P (map f (count_up b n))
unfolding count_up
All-count_up P f b zero h = tt
All-count_up P f b (suc n) h =
    (h b (omega arith), All-count_up P f (b + 1) n (λ x lt. h x (omega arith)))

pub Ascending-count_up :
    (f : ℕ → ℕ) (b n : ℕ)
    → ((x : ℕ) → x < b + n → f x < f (x + 1))
    → Ascending (map f (count_up b (suc n)))
unfolding count_up
Ascending-count_up f b zero h = (tt, tt)
Ascending-count_up f b (suc n) h =
    (h b (omega arith), Ascending-count_up f (b + 1) n (λ x lt. h x (omega arith)))

-- A boundary is below the next, up to the bucket that holds the last row.
pub boundary-lt :
    (rpb n_rows x : ℕ)
    → 0 < rpb
    → x * rpb < n_rows
    → min (x * rpb) n_rows < min ((x + 1) * rpb) n_rows
boundary-lt rpb n_rows x h lt = let e : (x + 1) * rpb ≡ x * rpb + rpb = omega arith in omega arith
