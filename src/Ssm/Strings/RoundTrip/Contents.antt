-- ===== src/Ssm/Strings/RoundTrip/Contents.antt =====
-- Whole string array contents of crates/casacure/src/ssm.rs, written and read back.
use mathlib.Core.List.{reverse-reverse, reverse-cons}
use casacure.Prelude.{
  map, ℕ, ◌+◌, ◌^◌, ◌<◌, ◌≡◌, refl, sym, subst, ◌∙◌, true, List, [], ◌∷◌, ◌++◌, reverse,
  append_assoc, append-nil, none, some, arith, ◌==◌, length, length-append,
}
use casacure.Prelude.Int.{ℤ, pos, as_u32}
use casacure.Result.{ok}
use casacure.Bytes.Utf8.{is_utf8}
use casacure.Aipsio.Reads.{All, concat_bytes}
use casacure.Positions.{read_each, read_each-concat}
use casacure.Ssm.Strings.{
  string, push_i32, put_strings, put_shape, encode_string_array_content, read_i32, read_dim,
  put_one, count, product, read_string, decode_header_string_content, read_fixed_string,
  decode_fixed_string_content, decode_string_array_content, try_fixed_header_layout, fixed_count,
  clipped, dim_of,
}
use casacure.Ssm.Strings.RoundTrip.{
  length-push_i32, read_i32-push, IsElement, read_fixed_string-put, read_string-put,
}

-- A dimension that an `i32` holds.
abbrev pub IsDim : ℕ → Type 0
IsDim d = d < 2 ^ 31

read_dim-push :
    (pre : List ℕ) (d : ℕ) (rest : List ℕ)
    → IsDim d
    → read_dim (pre ++ (push_i32 d ++ rest)) (length pre) ≡ ok (d, length (pre ++ push_i32 d))
unfolding read_dim
read_dim-push pre d rest h =
    let e : length (pre ++ push_i32 d) ≡ length pre + 4 =
      rw (length-append, length-push_i32) refl in
    let fits : as_u32 (pos d) ≡ d = omega arith in rw (read_i32-push pre d rest h, e, fits) refl

All-append : (xs ys : List ℕ) → All IsDim xs → All IsDim ys → All IsDim (xs ++ ys)
All-append [] ys h k = k
All-append (x ∷ xs) ys h k = (h.0, All-append xs ys h.1 k)

All-reverse : (xs : List ℕ) → All IsDim xs → All IsDim (reverse xs)
All-reverse [] h = tt
All-reverse (x ∷ xs) h =
    rw reverse-cons (All-append (reverse xs) (x ∷ []) (All-reverse xs h.1) (h.0, tt))

length-reverse : (xs : List ℕ) → length (reverse xs) ≡ length xs
length-reverse [] = refl
length-reverse (x ∷ xs) = rw (reverse-cons, length-append) (omega (arith, length-reverse xs))

module _ (lossy : List ℕ → List ℕ) (keeps : (s : List ℕ) → is_utf8 s ≡ true → lossy s ≡ s) where
  -- The strings at the end of a content.
  strings_end :
      (pre : List ℕ) (ss : List (List ℕ))
      → All IsElement ss
      → read_each (read_fixed_string lossy) (pre ++ put_strings ss) (length ss) (length pre)
        ≡ ok (ss, length (pre ++ put_strings ss))
  strings_end pre ss h =
      subst
        (λ c.
          read_each (read_fixed_string lossy) (pre ++ c) (length ss) (length pre)
          ≡ ok (ss, length (pre ++ put_strings ss)))
        (append-nil (put_strings ss))
        (read_each-concat (read_fixed_string lossy) put_one IsElement
          (read_fixed_string-put lossy keeps) pre ss [] h)

  decode_fixed_string_content-put :
      (ss : List (List ℕ))
      → All IsElement ss
      → decode_fixed_string_content lossy (put_strings ss) (length ss) ≡ ok ss
  unfolding decode_fixed_string_content
  decode_fixed_string_content-put ss h =
      let e : (length (put_strings ss) == length (put_strings ss)) ≡ true = ground arith in
      rw (strings_end [] ss h, e) refl

  header_strings_end :
      (pre : List ℕ) (ss : List (List ℕ))
      → All IsElement ss
      → read_each (read_string lossy) (pre ++ put_strings ss) (length ss) (length pre)
        ≡ ok (ss, length (pre ++ put_strings ss))
  header_strings_end pre ss h =
      subst
        (λ c.
          read_each (read_string lossy) (pre ++ c) (length ss) (length pre)
          ≡ ok (ss, length (pre ++ put_strings ss)))
        (append-nil (put_strings ss))
        (read_each-concat (read_string lossy) put_one IsElement (read_string-put lossy keeps) pre ss
          [] h)

  -- Reading with a header, at the places where the parts of the header stand.
  module _ (c : List ℕ) (ndim : ℕ) (dims : List ℕ) (p q end flag : ℕ) (ss : List (List ℕ)) where
    decode_header-at :
        read_i32 c 0 ≡ ok (pos ndim, p)
        → as_u32 (pos ndim) ≡ ndim
        → read_each read_dim c ndim p ≡ ok (dims, q)
        → read_i32 c q ≡ ok (pos flag, q + 4)
        → read_each (read_string lossy) c (count (reverse dims)) (q + 4) ≡ ok (ss, end)
        → decode_header_string_content lossy c ≡ ok (reverse dims, ss)
    unfolding decode_header_string_content
    decode_header-at a fits b d e = rw (a, fits, b, d, e) refl

  module _ (shape : List ℕ) (ss : List (List ℕ)) where
    abbrev whole_content : List ℕ
    whole_content = put_shape shape ++ put_strings ss

    abbrev up_to_dims : List ℕ
    up_to_dims = push_i32 (length shape) ++ concat_bytes push_i32 (reverse shape)

    at_flag : whole_content ≡ up_to_dims ++ (push_i32 1 ++ put_strings ss)
    unfolding put_shape
    at_flag = rw (append_assoc, append_assoc, append_assoc)

    at_strings : whole_content ≡ (up_to_dims ++ push_i32 1) ++ put_strings ss
    at_strings = at_flag ∙ sym (append_assoc up_to_dims (push_i32 1) (put_strings ss))

    at_dims :
        whole_content
        ≡ push_i32 (length shape)
          ++ (concat_bytes push_i32 (reverse shape) ++ (push_i32 1 ++ put_strings ss))
    unfolding put_shape
    at_dims = rw (append_assoc, append_assoc)

    length-strings_start : length (up_to_dims ++ push_i32 1) ≡ length up_to_dims + 4
    length-strings_start = rw (length-append up_to_dims (push_i32 1), length-push_i32) refl

    dims_read :
        All IsDim shape
        → read_each read_dim whole_content (length shape) 4 ≡ ok (reverse shape, length up_to_dims)
    dims_read h =
        subst (λ n. read_each read_dim whole_content n 4 ≡ ok (reverse shape, length up_to_dims))
          (length-reverse shape)
          (subst
            (λ n.
              read_each read_dim whole_content (length (reverse shape)) n
              ≡ ok (reverse shape, length up_to_dims))
            (length-push_i32 (length shape))
            (rw at_dims (
              read_each-concat read_dim push_i32 IsDim read_dim-push (push_i32 (length shape))
                (reverse shape) (push_i32 1 ++ put_strings ss) (All-reverse shape h))))

    ndim_read : length shape < 2 ^ 31 → read_i32 whole_content 0 ≡ ok (pos (length shape), 4)
    ndim_read short = rw at_dims (
        read_i32-push [] (length shape)
          (concat_bytes push_i32 (reverse shape) ++ (push_i32 1 ++ put_strings ss)) short)

    flag_read : read_i32 whole_content (length up_to_dims) ≡ ok (pos 1, length up_to_dims + 4)
    flag_read = rw at_flag (read_i32-push up_to_dims 1 (put_strings ss) (omega arith))

    strings_read :
        All IsElement ss
        → count shape ≡ length ss
        → read_each
            (read_string lossy)
            whole_content
            (count (reverse (reverse shape)))
            (length up_to_dims + 4)
          ≡ ok (ss, length whole_content)
    strings_read h counted =
        rw (reverse-reverse, counted, at_strings, ← length-strings_start)
          (header_strings_end (up_to_dims ++ push_i32 1) ss h)

    decode_header_string_content-put :
        All IsElement ss
        → All IsDim shape
        → length shape < 2 ^ 31
        → count shape ≡ length ss
        → decode_header_string_content lossy whole_content ≡ ok (shape, ss)
    decode_header_string_content-put h dims short counted =
        subst (λ ds. decode_header_string_content lossy whole_content ≡ ok (ds, ss))
          (reverse-reverse shape)
          (decode_header-at whole_content (length shape) (reverse shape) 4 (length up_to_dims) _ 1
            ss (ndim_read short) (omega arith) (dims_read dims) flag_read (strings_read h counted))

  -- A string array of variable shape, whose fewer than 2 ^ 31 dimensions and whose string lengths an
  -- `i32` holds and whose shape counts its strings, is encoded, and the content decodes to the same
  -- shape and strings, if `lossy` keeps UTF-8.
  pub decode_string_array_content-encode :
      (shape : List ℕ) (ss : List (List ℕ))
      → All IsElement ss
      → All IsDim shape
      → length shape < 2 ^ 31
      → count shape ≡ length ss
      → (content : List ℕ) × (encode_string_array_content shape (string ss) none ≡ ok content)
        × (decode_string_array_content lossy content none ≡ ok (shape, ss))
  unfolding encode_string_array_content decode_string_array_content
  decode_string_array_content-encode shape ss h dims short counted =
      (whole_content shape ss, refl, decode_header_string_content-put shape ss h dims short counted)

  -- A string array of fixed shape, which counts its strings both for the writer and for the reader,
  -- is encoded without a header, and the content decodes to the column's shape and the strings unless
  -- the content also reads as the layout with a header; `lossy` keeps UTF-8.
  pub decode_string_array_content-encode_fixed :
      (d : ℤ) (ds : List ℤ) (shape : List ℕ) (ss : List (List ℕ))
      → All IsElement ss
      → product (map clipped (d ∷ ds)) ≡ length ss
      → fixed_count (reverse (map dim_of (d ∷ ds))) ≡ length ss
      → try_fixed_header_layout lossy (put_strings ss) (reverse (map dim_of (d ∷ ds))) (length ss)
        ≡ none
      → (encode_string_array_content shape (string ss) (some (d ∷ ds)) ≡ ok (put_strings ss))
        × (decode_string_array_content lossy (put_strings ss) (some (d ∷ ds))
            ≡ ok (reverse (map dim_of (d ∷ ds)), ss))
  unfolding encode_string_array_content decode_string_array_content
  decode_string_array_content-encode_fixed d ds shape ss h written counted headerless =
      let e : (length ss == length ss) ≡ true = ground arith in
      (
        rw (written, e) refl,
        rw (counted, headerless, counted, decode_fixed_string_content-put ss h) refl,
      )
