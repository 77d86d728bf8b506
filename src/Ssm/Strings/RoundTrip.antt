-- ===== src/Ssm/Strings/RoundTrip.antt =====
-- The parts of a string array content in crates/casacure/src/ssm.rs: a word and a string are each
-- read back from the bytes that are written for them.
pub mod Contents
use casacure.Prelude.{
  ℕ, zero, suc, ◌+◌, ◌-◌, ◌*◌, ◌%◌, ◌^◌, ◌<◌, ◌≤◌, ◌≡◌, refl, ap, sym, subst, ◌∙◌, Bool, true,
  false, List, [], ◌∷◌, ◌++◌, reverse, append_assoc, append-nil, Option, none, some, inl, inr,
  arith, ltb, leb, ◌==◌, if◌then◌else◌, length, slice, length-append, slice-append,
}
use casacure.Prelude.Int.{ℤ, pos, is_negative, as_u32, as_i32}
use casacure.Result.{Result, ok, err, ◌>>=◌}
use casacure.Bytes.{to_bytes, from_bytes, from_bytes-to_bytes, length-to_bytes}
use casacure.Bytes.Utf8.{is_utf8}
use casacure.Aipsio.Reads.{All, concat_bytes}
use casacure.Ssm.{SsmError}
use casacure.Ssm.Strings.{
  ArrayData, string, push_i32, put_strings, put_shape, encode_string_array_content, bad, i32_at,
  read_i32, read_dim, put_one, count, product, read_string, decode_header_string_content,
  read_fixed_string, decode_fixed_string_content, decode_string_array_content, dims_agree,
  try_fixed_header_layout, fixed_count, whole,
}

pub length-push_i32 : (n : ℕ) → length (push_i32 n) ≡ 4
length-push_i32 n = length-to_bytes false 4 (n % 2 ^ 32)

module _ (pre : List ℕ) (n : ℕ) (rest : List ℕ) where
  abbrev content : List ℕ
  content = pre ++ (push_i32 n ++ rest)

  length-content : length content ≡ length pre + (4 + length rest)
  length-content = rw (length-append, length-append, length-push_i32) refl

  enough : ltb (length content) (length pre + 4) ≡ false
  enough = rw length-content (ground arith)

  word_at : n < 2 ^ 32 → from_bytes false (slice content (length pre) 4) ≡ n
  word_at h =
      let s : slice content (length pre) (length (push_i32 n)) ≡ push_i32 n =
        slice-append pre (push_i32 n) rest in
      let e : slice content (length pre) 4 ≡ push_i32 n =
        subst (λ k. slice content (length pre) k ≡ push_i32 n) (length-push_i32 n) s in
      let fits : n % 2 ^ 32 ≡ n = omega arith in
      rw e (from_bytes-to_bytes false 4 (n % 2 ^ 32) (omega arith) ∙ fits)

  i32_at-push : n < 2 ^ 31 → i32_at content (length pre) ≡ pos n
  i32_at-push h = rw (word_at (omega arith)) (ground arith)

  pub read_i32-push : n < 2 ^ 31 → read_i32 content (length pre) ≡ ok (pos n, length pre + 4)
  unfolding read_i32
  read_i32-push h = rw (enough, i32_at-push h) refl

-- A string of the array: a Rust `String` whose length an `i32` holds.
pub record IsElement (s : List ℕ) : Type 0 where
  pub utf8 : is_utf8 s ≡ true
  pub short : length s < 2 ^ 31

module _ (pre : List ℕ) (n : ℕ) (s rest : List ℕ) where
  regroup : pre ++ (push_i32 n ++ (s ++ rest)) ≡ (pre ++ push_i32 n) ++ (s ++ rest)
  regroup = sym (append_assoc pre (push_i32 n) (s ++ rest))

  length-regroup : length (pre ++ push_i32 n) ≡ length pre + 4
  length-regroup = rw (length-append, length-push_i32) refl

  slice_behind : slice (pre ++ (push_i32 n ++ (s ++ rest))) (length pre + 4) (length s) ≡ s
  slice_behind =
      subst (λ k. slice (pre ++ (push_i32 n ++ (s ++ rest))) k (length s) ≡ s) length-regroup
        (rw regroup (slice-append (pre ++ push_i32 n) s rest))

  length_whole :
      length (pre ++ (push_i32 n ++ (s ++ rest))) ≡ length pre + (4 + (length s + length rest))
  length_whole = rw (length-append, length-append, length-append, length-push_i32) refl

  room : ltb (length (pre ++ (push_i32 n ++ (s ++ rest)))) (length pre + 4 + length s) ≡ false
  room = rw length_whole (ground arith)

as_u32_pos : (n : ℕ) → n < 2 ^ 31 → as_u32 (pos n) ≡ n
as_u32_pos n h = omega arith

module _ (lossy : List ℕ → List ℕ) (keeps : (s : List ℕ) → is_utf8 s ≡ true → lossy s ≡ s) where
  -- The string at position `p` of any content that holds it there.
  module _ (c : List ℕ) (p : ℕ) (s : List ℕ) where
    read_fixed_string-at :
        IsElement s
        → ltb (length c) (p + 4) ≡ false
        → i32_at c p ≡ pos (length s)
        → ltb (length c) (p + 4 + length s) ≡ false
        → slice c (p + 4) (length s) ≡ s
        → read_fixed_string lossy c p ≡ ok (s, p + 4 + length s)
    unfolding read_fixed_string
    read_fixed_string-at h word len inside held =
        let fits : as_u32 (pos (length s)) ≡ length s = as_u32_pos (length s) h.short in
        rw (word, len, fits, inside, held, keeps s h.utf8) refl

    read_string-at :
        IsElement s
        → read_i32 c p ≡ ok (pos (length s), p + 4)
        → ltb (length c) (p + 4 + length s) ≡ false
        → slice c (p + 4) (length s) ≡ s
        → read_string lossy c p ≡ ok (s, p + 4 + length s)
    unfolding read_string
    read_string-at h word inside held =
        let fits : as_u32 (pos (length s)) ≡ length s = as_u32_pos (length s) h.short in
        rw (word, fits, inside, held, keeps s h.utf8) refl

  module _ (pre s rest : List ℕ) where
    length-one : length (pre ++ put_one s) ≡ length pre + 4 + length s
    length-one = rw (length-append, length-append, length-push_i32) (omega arith)

    pub read_fixed_string-put :
        IsElement s
        → read_fixed_string lossy (pre ++ (put_one s ++ rest)) (length pre)
          ≡ ok (s, length (pre ++ put_one s))
    read_fixed_string-put h =
        rw (append_assoc (push_i32 (length s)) s rest, length-one)
          (read_fixed_string-at _ (length pre) s h (enough pre (length s) (s ++ rest))
            (i32_at-push pre (length s) (s ++ rest) h.short) (room pre (length s) s rest)
            (slice_behind pre (length s) s rest))

    pub read_string-put :
        IsElement s
        → read_string lossy (pre ++ (put_one s ++ rest)) (length pre)
          ≡ ok (s, length (pre ++ put_one s))
    read_string-put h =
        rw (append_assoc (push_i32 (length s)) s rest, length-one)
          (read_string-at _ (length pre) s h (read_i32-push pre (length s) (s ++ rest) h.short)
            (room pre (length s) s rest) (slice_behind pre (length s) s rest))
