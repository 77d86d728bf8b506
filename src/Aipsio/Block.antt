-- ===== src/Aipsio/Block.antt =====
-- The framed `"Block"` of the sync record, of `ISMIndex` and of `SSMIndex`
-- (crates/casacure/src/lockfile.rs, ism.rs and ssm.rs): a count, then the elements.
use casacure.Prelude.{ℕ, ◌%◌, ◌^◌, ◌<◌, ◌≡◌, refl, Bool, List, ◌++◌, arith, length}
use casacure.Bytes.{to_bytes, codes}
use casacure.Aipsio.{AipsIoError}
use casacure.Aipsio.Encoding.{object_bytes}
use casacure.Aipsio.Reader.{Read, ◌>>=◌, lift, repeat, read_u32}
use casacure.Aipsio.Reads.{Reads, Reads-bind, Reads-lift, Reads-repeat, concat_bytes, All}
use casacure.Aipsio.Reads.Words.{Reads-u32, IsText}
use casacure.Bytes.Utf8.{is_utf8}
use casacure.Aipsio.Writer.{Write, ◌>>◌, for_each, put_u32, put_object_start, put_object_end}
use casacure.Aipsio.Writes.{Writes, Writes-seq, Writes-u32, Writes-for_each, Writes-object}

module _ {A : Type 0} where
  -- `put_u32(xs.len()); for x in xs { put(x) }`
  unfoldable pub put_elements : (A → Write) → List A → Write
  put_elements put xs = do put_u32 (length xs % 2 ^ 32); for_each put xs

  unfoldable pub put_block : (A → Write) → List A → Write
  put_block put xs = do put_object_start (codes "Block") 1; put_elements put xs; put_object_end

  unfoldable pub elements_bytes : Bool → (A → List ℕ) → List A → List ℕ
  elements_bytes little enc xs = to_bytes little 4 (length xs % 2 ^ 32) ++ concat_bytes enc xs

  unfoldable pub block_bytes : Bool → (A → List ℕ) → List A → List ℕ
  block_bytes little enc xs = object_bytes little (codes "Block") 1 (elements_bytes little enc xs)

module _ {E A : Type 0} where
  -- `let n = r.read_u32()?; for _ in 0..n { out.push(m) }`
  unfoldable pub read_elements : (AipsIoError → E) → Read E A → Read E (List A)
  read_elements g m = do n ← lift g read_u32; repeat n m

module _ {A : Type 0} {little : Bool} where
  pub Writes-block :
      (put : A → Write) (enc : A → List ℕ)
      → ((a : A) → Writes little (put a) (enc a))
      → (xs : List A) → Writes little (put_block put xs) (block_bytes little enc xs)
  unfolding put_block block_bytes put_elements elements_bytes
  Writes-block put enc h xs =
      Writes-object (codes "Block") 1 (put_elements put xs) (elements_bytes little enc xs) (
        Writes-seq (put_u32 (length xs % 2 ^ 32)) (for_each put xs)
          (to_bytes little 4 (length xs % 2 ^ 32)) (concat_bytes enc xs) (Writes-u32 _)
          (Writes-for_each put enc h xs))

module _ {E A : Type 0} {little : Bool} where
  pub Reads-elements :
      (g : AipsIoError → E) (m : Read E A) (enc : A → List ℕ) (P : A → Type 0)
      → ((a : A) → P a → Reads little m (enc a) a)
      → (xs : List A) → All P xs
      → length xs < 2 ^ 32
      → Reads little (read_elements g m) (elements_bytes little enc xs) xs
  unfolding read_elements elements_bytes
  Reads-elements g m enc P h xs all short =
      Reads-bind (lift g read_u32) (λ n. repeat n m) _ (concat_bytes enc xs) (length xs % 2 ^ 32) xs
        (Reads-lift g read_u32 _ _ (Reads-u32 little _ (omega arith)))
        (rw fits (Reads-repeat m enc P h xs all))
    where
      fits : length xs % 2 ^ 32 ≡ length xs
      fits = omega arith

pub Block-IsText : IsText (codes "Block")
unfolding is_utf8
Block-IsText = record { utf8 = refl; short = omega arith }
