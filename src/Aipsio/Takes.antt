-- ===== src/Aipsio/Takes.antt =====
-- How far a method of the cursor in crates/casacure/src/aipsio.rs goes, on any stream: `Takes k m`
-- holds of an action that, where it succeeds, leaves at least `k` bytes less than there were.
use casacure.Prelude.{
  ℕ, zero, suc, ◌+◌, ◌-◌, ◌≤◌, ◌≡◌, Bool, true, false, List, [], refl, arith, ltb, ◌==◌, length,
  if◌then◌else◌,
}
use casacure.Prelude.Int.{as_i16, as_i64}
use casacure.Result.{Result, ok, err}
use casacure.Bytes.{bytes_eq, codes}
use casacure.Bytes.Utf8.{is_utf8}
use casacure.Aipsio.{AipsIoError}
use casacure.Aipsio.Reader.{
  Reader, Read, continue, convert, ◌>>=◌, pure, raise, lift, repeat, position, little_endian, take,
  read_word, read_u32, read_i32, read_u64, read_i64, read_u8, read_u16, read_i16, read_f32,
  read_f64, read_bool, check_utf8, read_string, read_magic, read_object_start, read_object,
  read_dim, read_iposition,
}

-- The bytes that are left.
unfoldable pub left : Reader → ℕ
left r = length r.buf - r.pos

module _ {E A : Type 0} where
  unfoldable pub Shorter : ℕ → Reader → Result E A × Reader → Type 0
  unfolding left
  Shorter k r (ok a, r') = left r' + k ≤ left r
  Shorter k r (err e, r') = Unit

  pub record Takes (k : ℕ) (m : Read E A) : Type 0 where
    pub at : (r : Reader) → Shorter k r (m r)

  pub Takes-pure : (a : A) → Takes 0 (pure a)
  unfolding Shorter pure
  Takes-pure a = record { at = λ r. omega arith }

  pub Takes-raise : (k : ℕ) (e : E) → Takes k (raise e)
  unfolding Shorter raise
  Takes-raise k e = record { at = λ r. tt }

  Shorter-le :
      (j k : ℕ) (r : Reader) (o : Result E A × Reader) → j ≤ k → Shorter k r o → Shorter j r o
  unfolding Shorter
  Shorter-le j k r (ok a, r') h s = omega arith
  Shorter-le j k r (err e, r') h s = tt

  pub Takes-le : (j k : ℕ) (m : Read E A) → j ≤ k → Takes k m → Takes j m
  Takes-le j k m h t = record { at = λ r. Shorter-le j k r (m r) h (t.at r) }

  pub Takes-if :
      (k : ℕ) (b : Bool) (m n : Read E A) → Takes k m → Takes k n → Takes k (if b then m else n)
  Takes-if k true m n h l = h
  Takes-if k false m n h l = l

  Shorter-trans :
      (j k : ℕ) (r r' : Reader) (o : Result E A × Reader)
      → left r' + k ≤ left r
      → Shorter j r' o
      → Shorter (k + j) r o
  unfolding Shorter
  Shorter-trans j k r r' (ok a, r'') h s = omega arith
  Shorter-trans j k r r' (err e, r'') h s = tt

module _ {E A B : Type 0} where
  Shorter-continue :
      (j k : ℕ) (f : A → Read E B) (r : Reader) (o : Result E A) (r' : Reader)
      → Shorter k r (o, r')
      → ((a : A) → Takes j (f a))
      → Shorter (k + j) r (continue o f r')
  unfolding Shorter
  Shorter-continue j k f r (ok a) r' s h = Shorter-trans j k r r' (f a r') s ((h a).at r')
  Shorter-continue j k f r (err e) r' s h = tt

  pub Takes-bind :
      (k j : ℕ) (m : Read E A) (f : A → Read E B)
      → Takes k m
      → ((a : A) → Takes j (f a))
      → Takes (k + j) (m >>= f)
  unfolding ◌>>=◌
  Takes-bind k j m f h l = record { at = λ r. Shorter-continue j k f r (m r).0 (m r).1 (h.at r) l }

module _ {E F A : Type 0} where
  Shorter-convert :
      (k : ℕ) (g : E → F) (r : Reader) (o : Result E A) (r' : Reader)
      → Shorter k r (o, r')
      → Shorter k r (convert g o, r')
  unfolding Shorter
  Shorter-convert k g r (ok a) r' s = s
  Shorter-convert k g r (err e) r' s = tt

  pub Takes-lift : (k : ℕ) (g : E → F) (m : Read E A) → Takes k m → Takes k (lift g m)
  unfolding lift
  Takes-lift k g m h = record { at = λ r. Shorter-convert k g r (m r).0 (m r).1 (h.at r) }

module _ {E A : Type 0} where
  pub Takes-repeat : (n : ℕ) (m : Read E A) → Takes 0 m → Takes 0 (repeat n m)
  unfolding repeat
  Takes-repeat zero m h = Takes-pure []
  Takes-repeat (suc n) m h =
      Takes-bind 0 0 m _ h (λ a. Takes-bind 0 0 _ _ (Takes-repeat n m h) (λ as'. Takes-pure _))

Takes-position : {E : Type 0} → Takes {E = E} 0 position
unfolding position Shorter left
Takes-position = record { at = λ r. omega arith }

Takes-little_endian : {E : Type 0} → Takes {E = E} 0 little_endian
unfolding little_endian Shorter left
Takes-little_endian = record { at = λ r. omega arith }

taken : (n : ℕ) (r : Reader) (b : Bool) → ltb (length r.buf - r.pos) n ≡ b → Shorter n r (take n r)
unfolding take Shorter left
taken n r true e = rw e tt
taken n r false e = rw e (ground arith)

pub Takes-take : (n : ℕ) → Takes n (take n)
Takes-take n = record { at = λ r. taken n r (ltb (length r.buf - r.pos) n) refl }

pub Takes-word : (k : ℕ) → Takes k (read_word k)
unfolding read_word
Takes-word k = Takes-le k (k + 0) _ (omega arith) (
    Takes-bind k 0 _ _ (Takes-take k)
      (λ b. Takes-bind 0 0 _ _ Takes-little_endian (λ little. Takes-pure _)))

pub Takes-u32 : Takes 4 read_u32
unfolding read_u32
Takes-u32 = Takes-word 4

-- The actions on which nothing has to be taken.
pub Takes-i32 : Takes 0 read_i32
unfolding read_i32
Takes-i32 = Takes-le 0 4 _ (omega arith) (Takes-bind 4 0 _ _ Takes-u32 (λ v. Takes-pure _))

module _ {A : Type 0} (f : ℕ → A) where
  Takes-read : (k : ℕ) (m : Read AipsIoError ℕ) → Takes k m → Takes 0 (m >>= λ v. pure (f v))
  Takes-read k m h = Takes-bind 0 0 _ _ (Takes-le 0 k m (omega arith) h) (λ v. Takes-pure (f v))

pub Takes-some_u32 : Takes 0 read_u32
Takes-some_u32 = Takes-le 0 4 _ (omega arith) Takes-u32

pub Takes-u64 : Takes 0 read_u64
unfolding read_u64
Takes-u64 = Takes-le 0 8 _ (omega arith) (Takes-word 8)

pub Takes-i64 : Takes 0 read_i64
unfolding read_i64
Takes-i64 = Takes-read as_i64 0 _ Takes-u64

pub Takes-u16 : Takes 0 read_u16
unfolding read_u16
Takes-u16 = Takes-le 0 2 _ (omega arith) (Takes-word 2)

pub Takes-i16 : Takes 0 read_i16
unfolding read_i16
Takes-i16 = Takes-read as_i16 0 _ Takes-u16

pub Takes-f32 : Takes 0 read_f32
unfolding read_f32
Takes-f32 = Takes-some_u32

pub Takes-f64 : Takes 0 read_f64
unfolding read_f64
Takes-f64 = Takes-u64

some_take : (n : ℕ) → Takes 0 (take n)
some_take n = Takes-le 0 n _ (omega arith) (Takes-take n)

pub Takes-u8 : Takes 0 read_u8
unfolding read_u8
Takes-u8 = Takes-bind 0 0 _ _ (some_take 1) (λ b. Takes-pure _)

pub Takes-bool : Takes 0 read_bool
unfolding read_bool
Takes-bool = Takes-read _ 0 _ Takes-u8

pub Takes-string : Takes 0 read_string
unfolding read_string check_utf8
Takes-string = Takes-bind 0 0 _ _ Takes-position (λ offset. Takes-bind 0 0 _ _ Takes-some_u32 (λ n.
    Takes-bind 0 0 _ _ (some_take n)
      (λ bytes. Takes-if 0 (is_utf8 bytes) _ _ (Takes-pure bytes) (Takes-raise 0 _))))

-- The header of an object that is not a root has its length at least.
pub Takes-object_start : Takes 4 (read_object_start false)
unfolding read_object_start read_magic
Takes-object_start = Takes-bind 0 4 _ _ (Takes-pure tt) (λ x. Takes-bind 4 0 _ _ Takes-u32 (λ n.
    Takes-bind 0 0 _ _ Takes-string (λ t.
      Takes-bind 0 0 _ _ Takes-some_u32
        (λ v. Takes-bind 0 0 _ _ Takes-position (λ p. Takes-pure _)))))

pub Takes-object : (t : List ℕ) → Takes 4 (read_object false t)
unfolding read_object
Takes-object t =
    Takes-bind 4 0 _ _ Takes-object_start
      (λ obj. Takes-if 0 (bytes_eq obj.type_name t) _ _ (Takes-pure _) (Takes-raise 0 _))

Takes-dim : (v : ℕ) → Takes 0 (read_dim v)
unfolding read_dim
Takes-dim v =
    Takes-if 0 (v == 1) _ _ Takes-i32 (Takes-if 0 (v == 2) _ _ Takes-i64 (Takes-raise 0 _))

pub Takes-iposition : Takes 0 read_iposition
unfolding read_iposition
Takes-iposition =
    Takes-bind 0 0 _ _ (Takes-le 0 4 _ (omega arith) (Takes-object (codes "IPosition")))
      (λ o. Takes-bind 0 0 _ _ Takes-some_u32 (λ n. Takes-repeat n _ (Takes-dim o.0)))
