-- ===== src/Taql/Spelling.antt =====
-- A round of `tokenize` of crates/casacure/src/taql.rs over a token with a space behind it.
use casacure.Prelude.{
  ℕ, zero, suc, ◌<◌, ◌^◌, ◌≡◌, refl, ap, Bool, true, false, ◌&&◌, ◌||◌, List, [], ◌∷◌, ◌++◌, Option,
  some, arith, ltb, ◌==◌, length, take, min, append-nil,
}
use casacure.Result.{ok}
use casacure.Bytes.{codes, bytes_eq}
use casacure.Aipsio.Reads.{All}
use casacure.Taql.{
  digit_next, float, ident, int, op, is_whitespace, is_digit, is_alphabetic, begins_word, in_word,
  is_punctuation, span, scan_fraction, scan_exponent, value_from, parse_i64, cuts, is_one_of,
  long_operators, short_operators, front, number, operator, round,
}
use casacure.Taql.Spelled.{
  AllOf, is_operator, unsigned, signed, Fraction, no_fraction, fraction, Exponent, no_exponent,
  exponent, digit-is, AllOf-digits,
}

span-all :
    (p : ℕ → Bool) (w : List ℕ) (c : ℕ) (rest : List ℕ)
    → AllOf p w
    → p c ≡ false
    → span p (w ++ (c ∷ rest)) ≡ (w, c ∷ rest)
unfolding span
span-all p [] c rest h e = rw e refl
span-all p (d ∷ w) c rest (h, hs) e = rw (h, span-all p w c rest hs e) refl

-- Behind `w` the run of bytes in `p` stops.
Stops : (ℕ → Bool) → List ℕ → Type 0
Stops p [] = Unit
Stops p (c ∷ rest) = p c ≡ false

span-Stops :
    (p : ℕ → Bool) (w rest : List ℕ) → AllOf p w → Stops p rest → span p (w ++ rest) ≡ (w, rest)
unfolding span Stops
span-Stops p [] [] h e = refl
span-Stops p [] (c ∷ rest) h e = rw e refl
span-Stops p (d ∷ w) rest (h, hs) e = rw (h, span-Stops p w rest hs e) refl

pub front-take : (k : ℕ) (xs : List ℕ) → front k xs ≡ take k xs
front-take zero [] = refl
front-take (suc k) [] = let e : min 0 (suc k) ≡ 0 = omega arith in rw e refl
front-take zero (x ∷ xs) = let e : min (length (x ∷ xs)) 0 ≡ 0 = omega arith in rw e refl
front-take (suc k) (x ∷ xs) =
    let e : min (suc (length xs)) (suc k) ≡ suc (min (length xs) k) = omega arith in
    rw e (ap (λ t. x ∷ t) (front-take k xs))

pub cuts-ascii : (bytes : List ℕ) (k : ℕ) → All (λ c. c < 128) bytes → cuts bytes k ≡ true
unfolding cuts
cuts-ascii [] k h = refl
cuts-ascii (c ∷ bytes) zero h = ground arith
cuts-ascii (c ∷ bytes) (suc k) h = cuts-ascii bytes k h.1

-- Two bytes, the second of which is a space, begin no longer operator.
not_long : (c d : ℕ) → is_one_of long_operators (c ∷ d ∷ 32 ∷ []) ≡ false
unfolding is_one_of bytes_eq
not_long c d = ground arith

not_long_single : (c e : ℕ) → is_one_of long_operators (c ∷ 32 ∷ e ∷ []) ≡ false
unfolding is_one_of bytes_eq
not_long_single c e = ground arith

not_long_last : (c : ℕ) → is_one_of long_operators (c ∷ 32 ∷ []) ≡ false
unfolding is_one_of bytes_eq
not_long_last c = ground arith

not_short : (c : ℕ) → is_one_of short_operators (c ∷ 32 ∷ []) ≡ false
unfolding is_one_of bytes_eq
not_short c = ground arith

no_mark : (more : List ℕ) → scan_exponent (32 ∷ more) ≡ (false, [], 32 ∷ more)
unfolding scan_exponent
no_mark [] = refl
no_mark (c ∷ more) = refl

space-Stops : (more : List ℕ) → Stops is_digit (32 ∷ more)
unfolding Stops is_digit
space-Stops more = refl

Exponent-Stops : {b : Bool} (x more : List ℕ) → Exponent b x → Stops is_digit (x ++ (32 ∷ more))
unfolding Stops is_digit
Exponent-Stops x more no_exponent = refl
Exponent-Stops x more (exponent e sign d w he hs hd hw) = ground arith

Fraction-Stops :
    {b : Bool} (x more : List ℕ) → Fraction b x → Stops is_digit more → Stops is_digit (x ++ more)
unfolding Stops is_digit
Fraction-Stops x more no_fraction h = h
Fraction-Stops x more (fraction w hw) h = refl

exponent-next :
    (e c : ℕ) (rest w r : List ℕ)
    → ((e == 101) || (e == 69)) ≡ true
    → (is_digit c || (((c == 43) || (c == 45)) && digit_next rest)) ≡ true
    → span is_digit rest ≡ (w, r)
    → scan_exponent (e ∷ c ∷ rest) ≡ (true, e ∷ c ∷ w, r)
unfolding scan_exponent
exponent-next e c rest w r he hc hs = rw (he, hc, hs) refl

scan_exponent-Exponent :
    {b : Bool} (x more : List ℕ)
    → Exponent b x
    → scan_exponent (x ++ (32 ∷ more)) ≡ (b, x, 32 ∷ more)
scan_exponent-Exponent x more no_exponent = no_mark more
scan_exponent-Exponent x more (exponent e sign d w he unsigned hd hw) =
    exponent-next e d (w ++ (32 ∷ more)) w (32 ∷ more) he (rw (digit-is d hd) refl)
      (span-Stops is_digit w (32 ∷ more) (AllOf-digits w hw) (space-Stops more))
scan_exponent-Exponent x more (exponent e sign d w he (signed s hs) hd hw) =
    exponent-next e s (d ∷ (w ++ (32 ∷ more))) (d ∷ w) (32 ∷ more) he
      (rw (hs, digit-is d hd) (ground arith))
      (span-Stops is_digit (d ∷ w) (32 ∷ more) (digit-is d hd, AllOf-digits w hw)
        (space-Stops more))

scan_fraction-Fraction :
    {b b' : Bool} (x y more : List ℕ)
    → Fraction b x
    → Exponent b' y
    → scan_fraction (x ++ (y ++ (32 ∷ more))) ≡ (b, x, y ++ (32 ∷ more))
unfolding scan_fraction
scan_fraction-Fraction x y more no_fraction no_exponent = refl
scan_fraction-Fraction x y more no_fraction (exponent e sign d w he hs hd hw) =
    let other : (e == 46) ≡ false = ground arith in rw other refl
scan_fraction-Fraction x y more (fraction w hw) h =
    rw (span-Stops is_digit w (y ++ (32 ∷ more)) (AllOf-digits w hw) (Exponent-Stops y more h)) refl

module _ {F : Type 0} (parse_f64 : List ℕ → Option F) where
  pub round-decimal :
      {b b' : Bool} (position c : ℕ) (w x y more : List ℕ) (f : F)
      → is_digit c ≡ true
      → AllOf is_digit w
      → Fraction b x
      → Exponent b' y
      → (b || b') ≡ true
      → parse_f64 (c ∷ (w ++ (x ++ y))) ≡ some f
      → round parse_f64 position c (w ++ (x ++ (y ++ (32 ∷ more)))) ≡ ok (some (float f), 32 ∷ more)
  unfolding round number
  round-decimal position c w x y more f h hs hx hy some_part parsed =
      let blank : is_whitespace c ≡ false = unfold is_whitespace is_digit in ground arith in
      let quote : (c == 39) ≡ false = unfold is_digit in ground arith in
      rw
        (
          blank,
          quote,
          h,
          span-Stops is_digit (c ∷ w) (x ++ (y ++ (32 ∷ more))) (h, hs)
              (Fraction-Stops x _ hx (Exponent-Stops y more hy)),
          scan_fraction-Fraction x y more hx hy,
          scan_exponent-Exponent y more hy,
          some_part,
          parsed,
        )
        refl

  pub operator-triple :
      (more : List ℕ)
      → All (λ b. b < 128) (60 ∷ 61 ∷ 62 ∷ 32 ∷ more)
      → operator parse_f64 60 (61 ∷ 62 ∷ 32 ∷ more) ≡ ok (some (op (codes "<=>")), 32 ∷ more)
  unfolding operator
  operator-triple more ascii =
      let bytes : List ℕ = 60 ∷ 61 ∷ 62 ∷ 32 ∷ more in
      let long : is_one_of long_operators (60 ∷ 61 ∷ 62 ∷ []) ≡ true =
        unfold is_one_of bytes_eq in refl in
      rw (cuts-ascii bytes (min (length bytes) 3) ascii, front-take 3 bytes, long) refl

  -- A token, and a space behind it.
  pub round-word :
      (position c : ℕ) (w more : List ℕ)
      → begins_word c ≡ true
      → AllOf in_word w
      → round parse_f64 position c (w ++ (32 ∷ more)) ≡ ok (some (ident (c ∷ w)), 32 ∷ more)
  unfolding round
  round-word position c w more h hs =
      let blank : is_whitespace c ≡ false =
        unfold is_whitespace begins_word is_alphabetic in ground arith in
      let quote : (c == 39) ≡ false = unfold begins_word is_alphabetic in ground arith in
      let digit : is_digit c ≡ false = unfold is_digit begins_word is_alphabetic in ground arith in
      let first : in_word c ≡ true = unfold in_word in rw h refl in
      let space : in_word 32 ≡ false = unfold in_word begins_word is_alphabetic is_digit in refl in
      rw (blank, quote, digit, h, span-all in_word (c ∷ w) 32 more (first, hs) space) refl

  pub round-digits :
      (position c : ℕ) (w more : List ℕ)
      → is_digit c ≡ true
      → AllOf is_digit w
      → value_from 0 (c ∷ w) < 2 ^ 63
      → round parse_f64 position c (w ++ (32 ∷ more))
        ≡ ok (some (int (value_from 0 (c ∷ w))), 32 ∷ more)
  unfolding round number parse_i64
  round-digits position c w more h hs small =
      let blank : is_whitespace c ≡ false = unfold is_whitespace is_digit in ground arith in
      let quote : (c == 39) ≡ false = unfold is_digit in ground arith in
      let space : is_digit 32 ≡ false = unfold is_digit in refl in
      let point : scan_fraction (32 ∷ more) ≡ (false, [], 32 ∷ more) =
        unfold scan_fraction in refl in
      let mark : scan_exponent (32 ∷ more) ≡ (false, [], 32 ∷ more) = no_mark more in
      let t : ltb (value_from 0 (c ∷ w)) (2 ^ 63) ≡ true = ground arith in
      rw
        (
          blank,
          quote,
          h,
          span-all is_digit (c ∷ w) 32 more (h, hs) space,
          point,
          mark,
          append-nil w,
          t,
        )
        refl

  pub operator-double :
      (c d : ℕ) (more : List ℕ)
      → All (λ b. b < 128) (c ∷ d ∷ 32 ∷ more)
      → is_one_of short_operators (c ∷ d ∷ []) ≡ true
      → operator parse_f64 c (d ∷ 32 ∷ more) ≡ ok (some (op (c ∷ d ∷ [])), 32 ∷ more)
  unfolding operator
  operator-double c d more ascii t =
      let bytes : List ℕ = c ∷ d ∷ 32 ∷ more in
      rw
        (
          cuts-ascii bytes (min (length bytes) 3) ascii,
          cuts-ascii bytes (min (length bytes) 2) ascii,
          front-take 3 bytes,
          front-take 2 bytes,
          not_long c d,
          t,
        )
        refl

  pub operator-single :
      (c : ℕ) (more : List ℕ)
      → All (λ b. b < 128) (c ∷ 32 ∷ more)
      → operator parse_f64 c (32 ∷ more) ≡ ok (some (op (c ∷ [])), 32 ∷ more)
  unfolding operator
  operator-single c [] ascii =
      let bytes : List ℕ = c ∷ 32 ∷ [] in
      rw (cuts-ascii bytes (min (length bytes) 3) ascii, not_long_last c, not_short c) refl
  operator-single c (e ∷ more) ascii =
      let bytes : List ℕ = c ∷ 32 ∷ e ∷ more in
      rw
        (
          cuts-ascii bytes (min (length bytes) 3) ascii,
          cuts-ascii bytes (min (length bytes) 2) ascii,
          front-take 3 bytes,
          front-take 2 bytes,
          not_long_single c e,
          not_short c,
        )
        refl

  pub round-operator :
      (position c : ℕ) (rest : List ℕ)
      → is_operator c ≡ true
      → round parse_f64 position c rest ≡ operator parse_f64 c rest
  unfolding round is_operator
  round-operator position c rest h =
      let blank : is_whitespace c ≡ false = unfold is_whitespace is_punctuation in ground arith in
      let quote : (c == 39) ≡ false = ground arith in
      let digit : is_digit c ≡ false = unfold is_digit is_punctuation in ground arith in
      let begins : begins_word c ≡ false = ground arith in
      let mark : is_punctuation c ≡ true = ground arith in
      rw (blank, quote, digit, begins, mark) refl
