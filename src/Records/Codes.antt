-- ===== src/Records/Codes.antt =====
-- The codes of the data types of crates/casacure/src/record.rs, decoded and encoded.
use casacure.Prelude.{
  ℕ, zero, suc, ◌+◌, ◌≡◌, ◌↔◌, refl, sym, ap, ◌∙◌, List, [], ◌∷◌, some, inl, inr, get_elem?,
  Option-cases,
}
use native.Mathlib.Nat.{zero-add, add-zero, add-suc, suc-add}
use casacure.Prelude.Int.{ℤ, pos, negsuc}
use casacure.Result.{ok, err}
use casacure.Records.{
  DataType, arms, from_i32, data_type_code, bool_type, char, u_char, short, u_short, int, u_int,
  float, double, complex, d_complex, string, table, array_bool, array_char, array_u_char,
  array_short, array_u_short, array_int, array_u_int, array_float, array_double, array_complex,
  array_d_complex, array_string, record_type, other, quantity, array_quantity, int64, array_int64,
}

-- The codes of the types, one after the other.
abbrev Coded : ℕ → List DataType → Type 0
Coded k [] = Unit
Coded k (t ∷ ts) = (data_type_code t ≡ pos k) × Coded (suc k) ts

arms-Coded : Coded 0 arms
unfolding data_type_code
arms-Coded = (
  refl,
  (
    refl,
    (
      refl,
      (
        refl,
        (
          refl,
          (
            refl,
            (
              refl,
              (
                refl,
                (
                  refl,
                  (
                    refl,
                    (
                      refl,
                      (
                        refl,
                        (
                          refl,
                          (
                            refl,
                            (
                              refl,
                              (
                                refl,
                                (
                                  refl,
                                  (
                                    refl,
                                    (
                                      refl,
                                      (
                                        refl,
                                        (
                                          refl,
                                          (
                                            refl,
                                            (
                                              refl,
                                              (
                                                refl,
                                                (
                                                  refl,
                                                  (
                                                    refl,
                                                    (refl, (refl, (refl, (refl, (refl, tt))))),
                                                  ),
                                                ),
                                              ),
                                            ),
                                          ),
                                        ),
                                      ),
                                    ),
                                  ),
                                ),
                              ),
                            ),
                          ),
                        ),
                      ),
                    ),
                  ),
                ),
              ),
            ),
          ),
        ),
      ),
    ),
  ),
)

Coded-at :
    (k : ℕ) (ts : List DataType) (i : ℕ) (t : DataType)
    → Coded k ts
    → get_elem? ts i ≡ some t
    → data_type_code t ≡ pos (k + i)
Coded-at k [] i t h e = cc
Coded-at k (u ∷ ts) zero t h e = let same : u ≡ t = cc in rw (← same, add-zero) h.0
Coded-at k (u ∷ ts) (suc i) t h e = rw (add-suc, ← suc-add) (Coded-at (suc k) ts i t h.1 e)

code_of_from_i32 : (v : ℤ) (t : DataType) → from_i32 v ≡ ok t → v ≡ data_type_code t
unfolding from_i32
code_of_from_i32 (pos v) t h = elim (Option-cases (get_elem? arms v)) [
  | inl e ↦ let bad : err _ ≡ ok t = rw e at h in cc
  | inr (u, e) ↦
      let good : ok u ≡ ok t = rw e at h in
      let same : u ≡ t = cc in
      sym (rw same at (Coded-at 0 arms v u arms-Coded e) ∙ ap pos (zero-add v))
]
code_of_from_i32 (negsuc v) t h = cc

from_i32-data_type_code : (t : DataType) → from_i32 (data_type_code t) ≡ ok t
unfolding from_i32 data_type_code
from_i32-data_type_code bool_type = refl
from_i32-data_type_code char = refl
from_i32-data_type_code u_char = refl
from_i32-data_type_code short = refl
from_i32-data_type_code u_short = refl
from_i32-data_type_code int = refl
from_i32-data_type_code u_int = refl
from_i32-data_type_code float = refl
from_i32-data_type_code double = refl
from_i32-data_type_code complex = refl
from_i32-data_type_code d_complex = refl
from_i32-data_type_code string = refl
from_i32-data_type_code table = refl
from_i32-data_type_code array_bool = refl
from_i32-data_type_code array_char = refl
from_i32-data_type_code array_u_char = refl
from_i32-data_type_code array_short = refl
from_i32-data_type_code array_u_short = refl
from_i32-data_type_code array_int = refl
from_i32-data_type_code array_u_int = refl
from_i32-data_type_code array_float = refl
from_i32-data_type_code array_double = refl
from_i32-data_type_code array_complex = refl
from_i32-data_type_code array_d_complex = refl
from_i32-data_type_code array_string = refl
from_i32-data_type_code record_type = refl
from_i32-data_type_code other = refl
from_i32-data_type_code quantity = refl
from_i32-data_type_code array_quantity = refl
from_i32-data_type_code int64 = refl
from_i32-data_type_code array_int64 = refl

-- A 32-bit code is decoded to a type exactly when it is the code that is written for the type: each
-- type is read back, no two have the same code, and every other code is refused.
pub from_i32_iff : (v : ℤ) (t : DataType) → (from_i32 v ≡ ok t) ↔ (v ≡ data_type_code t)
from_i32_iff v t = (code_of_from_i32 v t, λ e. ap from_i32 e ∙ from_i32-data_type_code t)
