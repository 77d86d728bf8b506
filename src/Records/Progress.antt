-- ===== src/Records/Progress.antt =====
-- How the readers of crates/casacure/src/record.rs end, on any stream: `Ends b k P m` holds of an
-- action that, with fewer than `b` bytes left, neither panics nor runs out of fuel, and where it
-- succeeds leaves at least `k` bytes less and a value of which `P` holds.
pub mod Elements
pub mod Nested
use casacure.Prelude.{ℕ, ◌+◌, ◌≤◌, ◌<◌, Bool, true, false, arith, if◌then◌else◌}
use casacure.Result.{Result, ok, err}
use casacure.Aipsio.Reader.{Reader, Read, continue, convert, ◌>>=◌, pure, raise, lift}
use casacure.Aipsio.Takes.{left, Shorter, Takes}
use casacure.Records.{RecordError}
use casacure.Records.Values.{Fault, failed, panicked, out_of_fuel}

abbrev pub Anything : {A : Type 0} → A → Type 0
Anything a = Unit

module _ {A : Type 0} where
  unfoldable pub EndsWell : ℕ → (A → Type 0) → Reader → Result Fault A × Reader → Type 0
  EndsWell k P r (ok a, r') = (left r' + k ≤ left r) × P a
  EndsWell k P r (err (failed e), r') = Unit
  EndsWell k P r (err panicked, r') = ⊥
  EndsWell k P r (err out_of_fuel, r') = ⊥

  pub record Ends (b k : ℕ) (P : A → Type 0) (m : Read Fault A) : Type 0 where
    pub at : (r : Reader) → left r < b → EndsWell k P r (m r)

  pub Ends-pure : (b : ℕ) (P : A → Type 0) (a : A) → P a → Ends b 0 P (pure a)
  unfolding EndsWell pure
  Ends-pure b P a p = record { at = λ r h. (omega arith, p) }

  pub Ends-raise : (b k : ℕ) (P : A → Type 0) (e : RecordError) → Ends b k P (raise (failed e))
  unfolding EndsWell raise
  Ends-raise b k P e = record { at = λ r h. tt }

  pub Ends-if :
      (b k : ℕ) (P : A → Type 0) (t : Bool) (m n : Read Fault A)
      → Ends b k P m
      → Ends b k P n
      → Ends b k P (if t then m else n)
  Ends-if b k P true m n h l = h
  Ends-if b k P false m n h l = l

  EndsWell-weaken :
      (j k : ℕ) (P : A → Type 0) (r : Reader) (o : Result Fault A × Reader)
      → j ≤ k
      → EndsWell k P r o
      → EndsWell j P r o
  unfolding EndsWell
  EndsWell-weaken j k P r (ok a, r') h (s, p) = (omega arith, p)
  EndsWell-weaken j k P r (err (failed e), r') h s = tt
  EndsWell-weaken j k P r (err panicked, r') h s = s
  EndsWell-weaken j k P r (err out_of_fuel, r') h s = s

  pub Ends-weaken :
      (b j k : ℕ) (P : A → Type 0) (m : Read Fault A) → j ≤ k → Ends b k P m → Ends b j P m
  Ends-weaken b j k P m h e = record { at = λ r l. EndsWell-weaken j k P r (m r) h (e.at r l) }

  pub Ends-below :
      (b c k : ℕ) (P : A → Type 0) (m : Read Fault A) → b ≤ c → Ends c k P m → Ends b k P m
  Ends-below b c k P m h e = record { at = λ r l. e.at r (omega arith) }

  EndsWell-trans :
      (j k : ℕ) (P : A → Type 0) (r r' : Reader) (o : Result Fault A × Reader)
      → left r' + k ≤ left r
      → EndsWell j P r' o
      → EndsWell (k + j) P r o
  unfolding EndsWell
  EndsWell-trans j k P r r' (ok a, r'') h (s, p) = (omega arith, p)
  EndsWell-trans j k P r r' (err (failed e), r'') h s = tt
  EndsWell-trans j k P r r' (err panicked, r'') h s = s
  EndsWell-trans j k P r r' (err out_of_fuel, r'') h s = s

module _ {A B : Type 0} where
  -- What follows an action that has taken `k` bytes has less to go.
  EndsWell-continue :
      (b c j k : ℕ) (P : A → Type 0) (Q : B → Type 0) (f : A → Read Fault B) (r : Reader)
      (o : Result Fault A) (r' : Reader)
      → left r < b
      → b ≤ c + k
      → EndsWell k P r (o, r')
      → ((a : A) → P a → Ends c j Q (f a))
      → EndsWell (k + j) Q r (continue o f r')
  unfolding EndsWell
  EndsWell-continue b c j k P Q f r (ok a) r' l h (s, p) g =
      EndsWell-trans j k Q r r' (f a r') s ((g a p).at r' (omega arith))
  EndsWell-continue b c j k P Q f r (err (failed e)) r' l h s g = tt
  EndsWell-continue b c j k P Q f r (err panicked) r' l h s g = absurd s
  EndsWell-continue b c j k P Q f r (err out_of_fuel) r' l h s g = absurd s

  pub Ends-bind :
      (b c j k : ℕ) (P : A → Type 0) (Q : B → Type 0) (m : Read Fault A) (f : A → Read Fault B)
      → b ≤ c + k
      → Ends b k P m
      → ((a : A) → P a → Ends c j Q (f a))
      → Ends b (k + j) Q (m >>= f)
  unfolding ◌>>=◌
  Ends-bind b c j k P Q m f h e g = record {
    at = λ r l. EndsWell-continue b c j k P Q f r (m r).0 (m r).1 l h (e.at r l) g;
  }

  -- A step that takes any number of bytes.
  pub Ends-then :
      (b : ℕ) (P : A → Type 0) (Q : B → Type 0) (m : Read Fault A) (f : A → Read Fault B)
      → Ends b 0 P m
      → ((a : A) → P a → Ends b 0 Q (f a))
      → Ends b 0 Q (m >>= f)
  Ends-then b P Q m f e g = Ends-bind b b 0 0 P Q m f (omega arith) e g

module _ {E A : Type 0} where
  EndsWell-convert :
      (k : ℕ) (g : E → RecordError) (r : Reader) (o : Result E A) (r' : Reader)
      → Shorter k r (o, r')
      → EndsWell k Anything r (convert (λ e. failed (g e)) o, r')
  unfolding EndsWell Shorter
  EndsWell-convert k g r (ok a) r' s = (s, tt)
  EndsWell-convert k g r (err e) r' s = tt

  pub Ends-lift :
      (b k : ℕ) (g : E → RecordError) (m : Read E A)
      → Takes k m
      → Ends b k Anything (lift (λ e. failed (g e)) m)
  unfolding lift
  Ends-lift b k g m h = record { at = λ r l. EndsWell-convert k g r (m r).0 (m r).1 (h.at r) }
