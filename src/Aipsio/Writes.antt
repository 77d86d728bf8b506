-- ===== src/Aipsio/Writes.antt =====
-- What a method of the writer in crates/casacure/src/aipsio.rs appends: `Writes little m bs` holds
-- of an action that, on every writer of that byte order, appends exactly `bs` and leaves the rest.
use casacure.Prelude.{
  ℕ, ◌+◌, ◌%◌, ◌^◌, ◌≡◌, refl, sym, ap, ◌∙◌, subst, Bool, true, List, [], ◌∷◌, ◌++◌, append_assoc,
  append-nil, Option, none, some, arith, length, length-append, overwrite-append, if◌then◌else◌,
}
use mathlib.Core.Path.{fun_ext}
use casacure.Prelude.Int.{ℤ, as_u32}
use casacure.Bytes.{to_bytes, length-to_bytes}
use casacure.Aipsio.{magic}
use casacure.Aipsio.Encoding.{text_bytes, object_length, header_bytes, object_bytes, magic_bytes}
use casacure.Aipsio.Reads.{concat_bytes}
use casacure.Aipsio.Writer.{
  Writer, Write, ◌>>◌, and_then, extend, done, for_each, put_word, put_u8, put_u32, put_i32,
  put_u64, put_bool, put_opaque, put_string, push_start, put_object_start, put_root_object_start,
  patch_length, put_object_end,
}

pub record Writes (little : Bool) (m : Write) (bs : List ℕ) : Type 0 where
  pub at : (w : Writer) → w.little_endian ≡ little → m w ≡ some (extend bs w)

extend-extend : (bs cs : List ℕ) (w : Writer) → extend cs (extend bs w) ≡ extend (bs ++ cs) w
unfolding extend
extend-extend bs cs w = ground (arith, append_assoc w.buf bs cs)

and_then_assoc : (r : Option Writer) (n k : Write) → and_then (and_then r n) k ≡ and_then r (n >> k)
unfolding ◌>>◌
and_then_assoc none n k = refl
and_then_assoc (some w) n k = refl

>>_assoc : (m n k : Write) → ((m >> n) >> k) ≡ (m >> (n >> k))
unfolding ◌>>◌
>>_assoc m n k = fun_ext (λ w. and_then_assoc (m w) n k)

module _ {little : Bool} where
  pub Writes-seq :
      (m n : Write) (bs cs : List ℕ)
      → Writes little m bs
      → Writes little n cs
      → Writes little (m >> n) (bs ++ cs)
  unfolding ◌>>◌
  Writes-seq m n bs cs h k = record {
    at = λ w e.
        rw (h.at w e) (k.at (extend bs w) (unfold extend in e) ∙ ap some (extend-extend bs cs w));
  }

  pub Writes-done : Writes little done []
  unfolding done extend
  Writes-done = record { at = λ w e. rw append-nil }

  pub Writes-for_each :
      {A : Type 0} (f : A → Write) (enc : A → List ℕ)
      → ((a : A) → Writes little (f a) (enc a))
      → (xs : List A) → Writes little (for_each f xs) (concat_bytes enc xs)
  unfolding for_each concat_bytes
  Writes-for_each f enc h [] = Writes-done
  Writes-for_each f enc h (x ∷ xs) =
      Writes-seq (f x) (for_each f xs) (enc x) (concat_bytes enc xs) (h x)
        (Writes-for_each f enc h xs)

  pub Writes-word : (k v : ℕ) → Writes little (put_word k v) (to_bytes little k v)
  unfolding put_word
  Writes-word k v = record { at = λ w e. rw e }

  pub Writes-u32 : (v : ℕ) → Writes little (put_u32 v) (to_bytes little 4 v)
  unfolding put_u32
  Writes-u32 v = Writes-word 4 v

  pub Writes-i32 : (v : ℤ) → Writes little (put_i32 v) (to_bytes little 4 (as_u32 v))
  unfolding put_i32
  Writes-i32 v = Writes-u32 (as_u32 v)

  pub Writes-u64 : (v : ℕ) → Writes little (put_u64 v) (to_bytes little 8 v)
  unfolding put_u64
  Writes-u64 v = Writes-word 8 v

  pub Writes-bool : (b : Bool) → Writes little (put_bool b) ((if b then 1 else 0) ∷ [])
  unfolding put_bool put_u8
  Writes-bool b = record { at = λ w e. refl }

  pub Writes-opaque : (s : List ℕ) → Writes little (put_opaque s) (text_bytes little s)
  unfolding put_opaque text_bytes
  Writes-opaque s =
      Writes-seq (put_u32 (length s % 2 ^ 32)) _ _ s (Writes-u32 _) (record { at = λ w e. refl })

  pub Writes-string : (s : List ℕ) → Writes little (put_string s) (text_bytes little s)
  unfolding put_string
  Writes-string s = Writes-opaque s

-- A writer inside an object: its length word is still to be patched in.
unfoldable pub opened : List ℕ → ℕ → Writer → Writer
opened t v w = record w {
  buf =
      w.buf
      ++ ((0 ∷ 0 ∷ 0 ∷ 0 ∷ []) ++ (text_bytes w.little_endian t ++ to_bytes w.little_endian 4 v));
  stack = length w.buf ∷ w.stack;
}

pub put_object_start_lem :
    (t : List ℕ) (v : ℕ) (w : Writer) → put_object_start t v w ≡ some (opened t v w)
unfolding put_object_start opened ◌>>◌ extend put_string put_opaque put_u32 put_word push_start
    text_bytes
put_object_start_lem t v w = simp append_assoc

-- The bytes of a type name and a version.
name_and_version : Bool → List ℕ → ℕ → List ℕ
name_and_version little t v = text_bytes little t ++ to_bytes little 4 v

length-text_bytes : (little : Bool) (s : List ℕ) → length (text_bytes little s) ≡ 4 + length s
unfolding text_bytes
length-text_bytes little s = rw (length-append, length-to_bytes)

length-name_and_version :
    (little : Bool) (t : List ℕ) (v : ℕ) → length (name_and_version little t v) ≡ 8 + length t
unfolding name_and_version
length-name_and_version little t v =
    rw (length-append, length-to_bytes, length-text_bytes) (omega arith)

pub length-header_bytes :
    (little : Bool) (t : List ℕ) (v payload : ℕ)
    → length (header_bytes little t v payload) ≡ 12 + length t
unfolding header_bytes
length-header_bytes little t v payload =
    rw (length-append, length-append, length-to_bytes, length-to_bytes, length-text_bytes)
      (omega arith)

-- The buffer of an open object, in the order of its parts.
opened_buf :
    (t : List ℕ) (v : ℕ) (payload : List ℕ) (w : Writer)
    → (extend payload (opened t v w)).buf
      ≡ w.buf ++ ((0 ∷ 0 ∷ 0 ∷ 0 ∷ []) ++ (name_and_version w.little_endian t v ++ payload))
unfolding opened extend name_and_version
opened_buf t v payload w = simp append_assoc

-- Patching the placeholder that stands between `xs` and `zs`.
patch_length_lem :
    (xs zs rest : List ℕ) (w : Writer)
    → w.buf ≡ xs ++ ((0 ∷ 0 ∷ 0 ∷ 0 ∷ []) ++ zs)
    → patch_length (length xs) rest w
      ≡ some (record w {
        buf = xs ++ (to_bytes w.little_endian 4 ((4 + length zs) % 2 ^ 32) ++ zs);
        stack = rest;
      })
unfolding patch_length
patch_length_lem xs zs rest w e = ground (
  arith,
  length-append xs ((0 ∷ 0 ∷ 0 ∷ 0 ∷ []) ++ zs),
  length-to_bytes w.little_endian 4 ((4 + length zs) % 2 ^ 32),
  overwrite-append xs (0 ∷ 0 ∷ 0 ∷ 0 ∷ []) zs
      (to_bytes w.little_endian 4 ((4 + length zs) % 2 ^ 32)),
)

object_bytes_parts :
    (little : Bool) (t : List ℕ) (v : ℕ) (payload : List ℕ)
    → object_bytes little t v payload
      ≡ to_bytes little 4 ((4 + length (name_and_version little t v ++ payload)) % 2 ^ 32)
        ++ (name_and_version little t v ++ payload)
unfolding object_bytes header_bytes object_length name_and_version
object_bytes_parts little t v payload =
    rw
      (
        append_assoc (to_bytes little 4 (object_length t (length payload))),
        length-append,
        length-name_and_version,
      )
      (ap (λ n. to_bytes little 4 (n % 2 ^ 32) ++ (name_and_version little t v ++ payload))
        (omega arith))

pub put_object_end-opened :
    (t : List ℕ) (v : ℕ) (payload : List ℕ) (w : Writer)
    → put_object_end (extend payload (opened t v w))
      ≡ some (extend (object_bytes w.little_endian t v payload) w)
unfolding put_object_end opened extend
put_object_end-opened t v payload w =
    patch_length_lem w.buf (name_and_version w.little_endian t v ++ payload) w.stack
      (extend payload (opened t v w)) (opened_buf t v payload w)
    ∙ rw object_bytes_parts

pub Writes-object :
    {little : Bool} (t : List ℕ) (v : ℕ) (body : Write) (payload : List ℕ)
    → Writes little body payload
    → Writes little
        (do put_object_start t v; body; put_object_end)
        (object_bytes little t v payload)
unfolding ◌>>◌
Writes-object t v body payload h = record {
  at = λ w e. rw (
    put_object_start_lem t v w,
    h.at (opened t v w) (unfold opened in e),
    put_object_end-opened t v payload w,
    e,
  );
}

pub Writes-root_object :
    {little : Bool} (t : List ℕ) (v : ℕ) (body : Write) (payload : List ℕ)
    → Writes little body payload
    → Writes little
        (do put_root_object_start t v; body; put_object_end)
        (magic_bytes little true ++ object_bytes little t v payload)
unfolding magic_bytes put_root_object_start
Writes-root_object {little} t v body payload h =
    subst (λ m. Writes little m (to_bytes little 4 magic ++ object_bytes little t v payload))
      (sym (>>_assoc (put_u32 magic) (put_object_start t v) _))
      (Writes-seq (put_u32 magic) _ _ _ (Writes-u32 magic) (Writes-object t v body payload h))

seq_at :
    (o : Option Writer) (b c : Write)
    → and_then (and_then o b) c ≡ and_then o (λ w. and_then (b w) c)
seq_at none b c = refl
seq_at (some w) b c = refl

pub seq_assoc : (a b c : Write) → ((a >> b) >> c) ≡ (a >> (b >> c))
unfolding ◌>>◌
seq_assoc a b c = λ i w. seq_at (a w) b c i
