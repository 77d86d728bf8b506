-- ===== src/Tests/Tiles.antt =====
-- The bits of crates/casacure/src/tsm.rs at a concrete list.
use casacure.Prelude.{◌≡◌, refl, Bool, true, false, List, [], ◌∷◌}
use casacure.Result.{ok}
use casacure.Tsm.{encode_bits, decode_bits, gather, pack, tail_byte}
use casacure.Tsm.Packing.{decode_bits-encode_bits}

abbrev flags : List Bool
flags = true ∷ false ∷ true ∷ true ∷ false ∷ false ∷ false ∷ true ∷ false ∷ true ∷ []

packed : encode_bits flags ≡ 141 ∷ 2 ∷ []
unfolding encode_bits pack gather tail_byte
packed = refl

decode_bits-encode_bits_example : decode_bits (encode_bits flags) 0 10 ≡ ok flags
decode_bits-encode_bits_example = decode_bits-encode_bits flags
