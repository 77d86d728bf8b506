-- ===== src/Types/Names.antt =====
-- The names of crates/casacure/src/types.rs, parsed back.
use casacure.Prelude.{◌≡◌, refl, ℕ, List, map, some, ◌⊎◌, inl, inr}
use casacure.Result.{ok}
use casacure.Bytes.{bytes_eq}
use casacure.Types.{
  ValueType, casa_name, table_dat_name, to_upper, of_upper, from_casa_name, bool_type, byte, short,
  u_short, int, u_int, int64, float, double, complex, d_complex, string, record_type,
}

of_upper-casa_name : (v : ValueType) → of_upper (map to_upper (casa_name v)) ≡ some v
unfolding of_upper to_upper casa_name bytes_eq
of_upper-casa_name bool_type = refl
of_upper-casa_name byte = refl
of_upper-casa_name short = refl
of_upper-casa_name u_short = refl
of_upper-casa_name int = refl
of_upper-casa_name u_int = refl
of_upper-casa_name int64 = refl
of_upper-casa_name float = refl
of_upper-casa_name double = refl
of_upper-casa_name complex = refl
of_upper-casa_name d_complex = refl
of_upper-casa_name string = refl
of_upper-casa_name record_type = refl

of_upper-table_dat_name : (v : ValueType) → of_upper (map to_upper (table_dat_name v)) ≡ some v
unfolding of_upper to_upper table_dat_name bytes_eq
of_upper-table_dat_name bool_type = refl
of_upper-table_dat_name byte = refl
of_upper-table_dat_name short = refl
of_upper-table_dat_name u_short = refl
of_upper-table_dat_name int = refl
of_upper-table_dat_name u_int = refl
of_upper-table_dat_name int64 = refl
of_upper-table_dat_name float = refl
of_upper-table_dat_name double = refl
of_upper-table_dat_name complex = refl
of_upper-table_dat_name d_complex = refl
of_upper-table_dat_name string = refl
of_upper-table_dat_name record_type = refl

-- The canonical name of every value type and its name in `table.dat` are parsed as that type,
-- in whatever letter case they are spelled.
pub from_casa_name-name :
    (v : ValueType) (s : List ℕ)
    → (map to_upper s ≡ map to_upper (casa_name v))
      ⊎ (map to_upper s ≡ map to_upper (table_dat_name v))
    → from_casa_name s ≡ ok v
unfolding from_casa_name
from_casa_name-name v s (inl h) = rw (h, of_upper-casa_name v)
from_casa_name-name v s (inr h) = rw (h, of_upper-table_dat_name v)
