-- ===== src/Records/Attempts.antt =====
-- Writing that may fail, for crates/casacure/src/record.rs: an action of the writer that returns a
-- writer or a fault. `Puts` says what it appends, as `Writes` does for an action without errors.
use casacure.Prelude.{
  ℕ, ◌≡◌, ap, ◌∙◌, subst, arith, Bool, List, [], ◌++◌, append_assoc, append-nil, Option, none, some,
}
use casacure.Result.{Result, ok, err}
use casacure.Aipsio.Encoding.{object_bytes}
use casacure.Aipsio.Writer.{Writer, Write, extend, put_object_start, put_object_end}
use casacure.Aipsio.Writes.{Writes, opened, put_object_start_lem, put_object_end-opened}
use casacure.Records.Values.{Fault, panicked}

abbrev pub Attempt : Type 0
Attempt = Writer → Result Fault Writer

abbrev pub result_of : Option Writer → Result Fault Writer
result_of none = err panicked
result_of (some w) = ok w

unfoldable pub attempt : Write → Attempt
attempt m w = result_of (m w)

abbrev pub and_then : Result Fault Writer → Attempt → Result Fault Writer
and_then (ok w) n = n w
and_then (err e) n = err e

infixl 5 ◌>>◌
unfoldable pub ◌>>◌ : Attempt → Attempt → Attempt
◌>>◌ m n w = and_then (m w) n

unfoldable pub finish : Attempt
finish w = ok w

unfoldable pub fail : Fault → Attempt
fail e w = err e

-- `put_object_start(type_name, version); body; put_object_end()`
unfoldable pub put_object : List ℕ → ℕ → Attempt → Attempt
put_object type_name version body = do
  attempt (put_object_start type_name version)
  body
  attempt put_object_end

-- The bytes that an action appends to what a writer holds.
unfoldable pub appended : Result Fault Writer → Result Fault (List ℕ)
appended (ok w) = ok w.buf
appended (err e) = err e

pub record Puts (little : Bool) (m : Attempt) (bs : List ℕ) : Type 0 where
  pub at : (w : Writer) → w.little_endian ≡ little → m w ≡ ok (extend bs w)

module _ {little : Bool} where
  pub Puts-attempt : (m : Write) (bs : List ℕ) → Writes little m bs → Puts little (attempt m) bs
  unfolding attempt
  Puts-attempt m bs h = record { at = λ w e. rw (h.at w e) }

  pub Puts-seq :
      (m n : Attempt) (bs cs : List ℕ)
      → Puts little m bs
      → Puts little n cs
      → Puts little (m >> n) (bs ++ cs)
  unfolding ◌>>◌
  Puts-seq m n bs cs h k = record {
    at = λ w e. rw (h.at w e) (k.at (extend bs w) (unfold extend in e) ∙ ap ok (joined w));
  }
    where
      joined : (w : Writer) → extend cs (extend bs w) ≡ extend (bs ++ cs) w
      joined w = unfold extend in ground (arith, append_assoc w.buf bs cs)

  pub Puts-finish : Puts little finish []
  unfolding finish extend
  Puts-finish = record { at = λ w e. rw append-nil }

  pub Puts-bytes : (m : Attempt) {bs cs : List ℕ} → bs ≡ cs → Puts little m bs → Puts little m cs
  Puts-bytes m e h = subst (λ xs. Puts little m xs) e h

pub Puts-object :
    {little : Bool} (t : List ℕ) (v : ℕ) (body : Attempt) (payload : List ℕ)
    → Puts little body payload
    → Puts little (put_object t v body) (object_bytes little t v payload)
unfolding put_object ◌>>◌ attempt
Puts-object t v body payload h = record {
  at = λ w e. rw (
    put_object_start_lem t v w,
    h.at (opened t v w) (unfold opened in e),
    put_object_end-opened t v payload w,
    e,
  );
}
