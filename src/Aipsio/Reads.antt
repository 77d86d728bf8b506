-- ===== src/Aipsio/Reads.antt =====
-- What a method of the cursor in crates/casacure/src/aipsio.rs takes from the stream: `Reads little m bs a` holds of an action
-- that, wherever the bytes `bs` come next, takes exactly those and returns `a`. There is a rule
-- for each way to build an action, so that a parser is followed field by field.
pub mod Words
pub mod Objects
use casacure.Prelude.{
  ℕ, zero, suc, ◌+◌, ◌-◌, ◌%◌, ◌^◌, ◌<◌, ◌≡◌, refl, sym, ap, ◌∙◌, subst, Bool, true, false, List,
  [], ◌∷◌, ◌++◌, append_assoc, append-nil, map, arith, ltb, length, length-append, slice-append,
  if◌then◌else◌,
}
use casacure.Prelude.Int.{
  ℤ, as_u32, as_u64, IsI32, IsI64, as_i32, as_i64, as_i32-as_u32, as_i64-as_u64, as_u32-lt,
  as_u64-lt,
}
use casacure.Result.{Result, ok, err}
use casacure.Bytes.{to_bytes, from_bytes-to_bytes, length-to_bytes, bytes_eq_refl}
use casacure.Bytes.Utf8.{is_utf8}
use casacure.Aipsio.{AipsIoError, ObjectStart, magic}
use casacure.Aipsio.Reader.{
  Reader, Read, pure, continue, ◌>>=◌, ◌>>◌, lift, repeat, take, read_word, read_u32, read_i32,
  read_u64, read_i64, read_u8, position, little_endian, read_u16, read_bool, read_string,
  read_opaque, read_magic, read_object_start, read_object,
}

-- The cursor behind `pre`, with `rest` to come.
abbrev pub reader_at : Bool → List ℕ → List ℕ → Reader
reader_at little pre rest = record { buf = pre ++ rest; pos = length pre; little_endian = little }

pub record Reads {E A : Type 0} (little : Bool) (m : Read E A) (bs : List ℕ) (a : A) : Type 0 where
  pub at :
      (pre rest : List ℕ)
      → m (reader_at little pre (bs ++ rest)) ≡ (ok a, reader_at little (pre ++ bs) rest)

module _ {E A : Type 0} {little : Bool} where
  pub Reads-pure : (a : A) → Reads {E = E} little (pure a) [] a
  unfolding pure
  Reads-pure a = record { at = λ pre rest. rw append-nil }

module _ {E A B : Type 0} {little : Bool} where
  pub Reads-bind :
      (m : Read E A) (f : A → Read E B) (bs cs : List ℕ) (a : A) (b : B)
      → Reads little m bs a
      → Reads little (f a) cs b
      → Reads little (m >>= f) (bs ++ cs) b
  unfolding ◌>>=◌
  Reads-bind m f bs cs a b h k = record {
    at = λ pre rest.
        let e : (bs ++ cs) ++ rest ≡ bs ++ (cs ++ rest) = append_assoc bs cs rest in
        let e' : pre ++ (bs ++ cs) ≡ (pre ++ bs) ++ cs = sym (append_assoc pre bs cs) in
        rw (e, h.at pre (cs ++ rest), e') (k.at (pre ++ bs) rest);
  }

pub Reads-take : (little : Bool) (bs : List ℕ) → Reads little (take (length bs)) bs bs
unfolding take
Reads-take little bs = record {
  at = λ pre rest. ground (
    arith,
    length-append pre (bs ++ rest),
    length-append bs rest,
    length-append pre bs,
    append_assoc pre bs rest,
    slice-append pre bs rest,
  );
}

module _ {E A B : Type 0} {little : Bool} where
  -- The last field of a parser.
  pub Reads-return :
      (m : Read E A) (f : A → B) (bs : List ℕ) (a : A)
      → Reads little m bs a
      → Reads little (m >>= λ x. pure (f x)) bs (f a)
  unfolding ◌>>=◌ pure
  Reads-return m f bs a h = record { at = λ pre rest. rw (h.at pre rest) }

module _ {E B : Type 0} {little : Bool} where
  -- An action that looks where the cursor stands.
  pub Reads-position :
      (f : ℕ → Read E B) (bs : List ℕ) (b : B)
      → ((p : ℕ) → Reads little (f p) bs b)
      → Reads little (position >>= f) bs b
  unfolding ◌>>=◌ position
  Reads-position f bs b h = record { at = λ pre rest. (h (length pre)).at pre rest }

  pub Reads-little_endian :
      (f : Bool → Read E B) (bs : List ℕ) (b : B)
      → Reads little (f little) bs b
      → Reads little (little_endian >>= f) bs b
  unfolding ◌>>=◌ little_endian
  Reads-little_endian f bs b h = record { at = λ pre rest. h.at pre rest }

module _ {E F A : Type 0} {little : Bool} where
  pub Reads-lift :
      (g : E → F) (m : Read E A) (bs : List ℕ) (a : A)
      → Reads little m bs a
      → Reads little (lift g m) bs a
  unfolding lift
  Reads-lift g m bs a h = record { at = λ pre rest. rw (h.at pre rest) }

module _ {E A : Type 0} {little : Bool} where
  -- The same bytes, grouped in another way.
  pub Reads-bytes :
      (m : Read E A) {bs cs : List ℕ} (a : A) → bs ≡ cs → Reads little m bs a → Reads little m cs a
  Reads-bytes m a e h = subst (λ xs. Reads little m xs a) e h

-- An action whose result also holds the place `p` where it stopped, as `mk p`.
pub record ReadsFrom {E A : Type 0} (little : Bool) (m : Read E A) (bs : List ℕ) (mk : ℕ → A)
    : Type 0 where
  pub at :
      (pre rest : List ℕ)
      → m (reader_at little pre (bs ++ rest))
        ≡ (ok (mk (length (pre ++ bs))), reader_at little (pre ++ bs) rest)

module _ {E A : Type 0} {little : Bool} where
  pub ReadsFrom-position :
      (mk : ℕ → A) → ReadsFrom {E = E} little (position >>= λ p. pure (mk p)) [] mk
  unfolding ◌>>=◌ position pure
  ReadsFrom-position mk = record { at = λ pre rest. rw append-nil }

module _ {E A B : Type 0} {little : Bool} where
  pub ReadsFrom-bind :
      (m : Read E A) (f : A → Read E B) (bs cs : List ℕ) (a : A) (mk : ℕ → B)
      → Reads little m bs a
      → ReadsFrom little (f a) cs mk
      → ReadsFrom little (m >>= f) (bs ++ cs) mk
  unfolding ◌>>=◌
  ReadsFrom-bind m f bs cs a mk h k = record {
    at = λ pre rest.
        let e : (bs ++ cs) ++ rest ≡ bs ++ (cs ++ rest) = append_assoc bs cs rest in
        let e' : pre ++ (bs ++ cs) ≡ (pre ++ bs) ++ cs = sym (append_assoc pre bs cs) in
        rw (e, h.at pre (cs ++ rest), e') (k.at (pre ++ bs) rest);
  }

  -- What follows is read wherever the place is.
  pub Reads-from :
      (m : Read E A) (f : A → Read E B) (bs cs : List ℕ) (mk : ℕ → A) (b : B)
      → ReadsFrom little m bs mk
      → ((p : ℕ) → Reads little (f (mk p)) cs b)
      → Reads little (m >>= f) (bs ++ cs) b
  unfolding ◌>>=◌
  Reads-from m f bs cs mk b h k = record {
    at = λ pre rest.
        let e : (bs ++ cs) ++ rest ≡ bs ++ (cs ++ rest) = append_assoc bs cs rest in
        let e' : pre ++ (bs ++ cs) ≡ (pre ++ bs) ++ cs = sym (append_assoc pre bs cs) in
        rw (e, h.at pre (cs ++ rest), e') ((k (length (pre ++ bs))).at (pre ++ bs) rest);
  }

module _ {E F A : Type 0} {little : Bool} where
  pub ReadsFrom-lift :
      (g : E → F) (m : Read E A) (bs : List ℕ) (mk : ℕ → A)
      → ReadsFrom little m bs mk
      → ReadsFrom little (lift g m) bs mk
  unfolding lift
  ReadsFrom-lift g m bs mk h = record { at = λ pre rest. rw (h.at pre rest) }

-- The bytes of the values of a list, one after the other.
module _ {A : Type 0} where
  unfoldable pub concat_bytes : (A → List ℕ) → List A → List ℕ
  concat_bytes enc [] = []
  concat_bytes enc (x ∷ xs) = enc x ++ concat_bytes enc xs

  abbrev pub All : (A → Type 0) → List A → Type 0
  All P [] = Unit
  All P (x ∷ xs) = P x × All P xs

module _ {E A : Type 0} {little : Bool} where
  pub Reads-repeat :
      (m : Read E A) (enc : A → List ℕ) (P : A → Type 0)
      → ((a : A) → P a → Reads little m (enc a) a)
      → (xs : List A) → All P xs
      → Reads little (repeat (length xs) m) (concat_bytes enc xs) xs
  unfolding repeat concat_bytes
  Reads-repeat m enc P h [] all = Reads-pure []
  Reads-repeat m enc P h (x ∷ xs) all =
      Reads-bind m _ (enc x) (concat_bytes enc xs) x (x ∷ xs) (h x all.0) (
        Reads-return (repeat (length xs) m) (λ as'. x ∷ as') (concat_bytes enc xs) xs
          (Reads-repeat m enc P h xs all.1))
