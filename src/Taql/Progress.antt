-- ===== src/Taql/Progress.antt =====
-- `tokenize` of crates/casacure/src/taql.rs ends: every round takes a byte of the input.
use casacure.Prelude.{
  ℕ, zero, suc, ◌+◌, ◌-◌, ◌≤◌, ◌<◌, ◌≡◌, ◌≢◌, refl, ◌∙◌, Bool, true, not, ◌&&◌, ◌||◌, List, [], ◌∷◌,
  ◌++◌, Option, none, some, inl, inr, arith, ◌==◌, length, length-drop, Bool-cases, min,
}
use native.Mathlib.Nat.{add-zero, add-suc}
use casacure.Result.{Result, ok, err, ◌>>=◌}
use casacure.Taql.{
  Tok, TokenError, unterminated_string, invalid_number, unexpected_character, panicked, out_of_fuel,
  is_whitespace, is_digit, begins_word, in_word, is_punctuation, pushed, scan_string, span,
  scan_fraction, scan_exponent, parse_i64, cuts, is_one_of, long_operators, short_operators, front,
  digit_next, of_string, of_float, of_int, number, operator, round, push_token, tokens, tokenize,
}

pushed-eq :
    (c : ℕ) (o : Option (List ℕ × List ℕ)) (s rest : List ℕ)
    → pushed c o ≡ some (s, rest)
    → (s' : List ℕ) × (o ≡ some (s', rest))
pushed-eq c none s rest h = cc
pushed-eq c (some (s', r)) s rest h = let same : r ≡ rest = cc in (s', rw same refl)

-- What is left behind a string is shorter than the text that was scanned.
scan_string-lt :
    (bytes s rest : List ℕ) → scan_string bytes ≡ some (s, rest) → length rest < length bytes
unfolding scan_string
scan_string-lt [] s rest h = cc
scan_string-lt (c ∷ []) s rest h = elim (Bool-cases (c == 39)) [
  | inl t ↦
      let e : some ([], []) ≡ some (s, rest) = rw t at h in
      let empty : [] ≡ rest = cc in rw (← empty) (omega arith)
  | inr t ↦ let e : none ≡ some (s, rest) = rw t at h in cc
]
scan_string-lt (c ∷ d ∷ more) s rest h = elim (Bool-cases (c == 39)) [
  | inl t ↦ elim (Bool-cases (d == 39)) [
    | inl u ↦
        let (s', e) = pushed-eq 39 (scan_string more) s rest (rw (t, u) at h) in
        omega (arith, scan_string-lt more s' rest e)
    | inr u ↦
        let e : some ([], d ∷ more) ≡ some (s, rest) = rw (t, u) at h in
        let same : d ∷ more ≡ rest = cc in rw (← same) (omega arith)
  ]
  | inr t ↦
      let (s', e) = pushed-eq c (scan_string (d ∷ more)) s rest (rw t at h) in
      omega (arith, scan_string-lt (d ∷ more) s' rest e)
]

span-le : (p : ℕ → Bool) (bytes : List ℕ) → length (span p bytes).1 ≤ length bytes
unfolding span
span-le p [] = omega arith
span-le p (c ∷ rest) = elim (Bool-cases (p c)) [
  | inl t ↦ rw t (omega (arith, span-le p rest))
  | inr t ↦ rw t (omega arith)
]

scan_fraction-le : (bytes : List ℕ) → length (scan_fraction bytes).2 ≤ length bytes
unfolding scan_fraction
scan_fraction-le [] = omega arith
scan_fraction-le (c ∷ rest) = elim (Bool-cases (c == 46)) [
  | inl t ↦ rw t (omega (arith, span-le is_digit rest))
  | inr t ↦ rw t (omega arith)
]

scan_exponent-le : (bytes : List ℕ) → length (scan_exponent bytes).2 ≤ length bytes
unfolding scan_exponent
scan_exponent-le [] = omega arith
scan_exponent-le (e ∷ []) = omega arith
scan_exponent-le (e ∷ c ∷ rest) =
    elim (Bool-cases (
      ((e == 101) || (e == 69)) && (is_digit c || (((c == 43) || (c == 45)) && digit_next rest)))) [
        | inl t ↦ rw t (omega (arith, span-le is_digit rest))
        | inr t ↦ rw t (omega arith)
      ]

module _ {F : Type 0} (parse_f64 : List ℕ → Option F) where
  abbrev Leaves : ℕ → Result TokenError (Option (Tok F) × List ℕ) → Type 0
  Leaves n (ok r) = length r.1 ≤ n
  Leaves n (err out_of_fuel) = ⊥
  Leaves n (err e) = Unit

  of_string-Leaves :
      (rest : List ℕ) (o : Option (List ℕ × List ℕ))
      → scan_string rest ≡ o
      → Leaves (length rest) (of_string parse_f64 o)
  of_string-Leaves rest none e = tt
  of_string-Leaves rest (some (s, r)) e = omega (arith, scan_string-lt rest s r e)

  of_float-Leaves :
      (n : ℕ) (text rest : List ℕ) (o : Option F)
      → length rest ≤ n
      → Leaves n (of_float parse_f64 text rest o)
  of_float-Leaves n text rest none h = tt
  of_float-Leaves n text rest (some f) h = h

  of_int-Leaves :
      (n : ℕ) (text rest : List ℕ) (o : Option ℕ)
      → length rest ≤ n
      → Leaves n (of_int parse_f64 text rest o)
  of_int-Leaves n text rest none h = tt
  of_int-Leaves n text rest (some v) h = h

  -- The first byte is a digit.
  number-Leaves :
      (c : ℕ) (rest : List ℕ)
      → is_digit c ≡ true
      → Leaves (length rest) (number parse_f64 (c ∷ rest))
  unfolding number span
  number-Leaves c rest t =
      let (w, r) = span is_digit rest in
      let (pointed, fraction, r') = scan_fraction r in
      let (raised, exponent, r'') = scan_exponent r' in
      let text : List ℕ = (c ∷ w) ++ (fraction ++ exponent) in
      let short : length r'' ≤ length rest =
        omega (arith, span-le is_digit rest, scan_fraction-le r, scan_exponent-le r') in
      rw t (elim (Bool-cases (pointed || raised)) [
        | inl u ↦ rw u (of_float-Leaves (length rest) text r'' (parse_f64 text) short)
        | inr u ↦ rw u (of_int-Leaves (length rest) text r'' (parse_i64 text) short)
      ])

  operator-Leaves : (c : ℕ) (rest : List ℕ) → Leaves (length rest) (operator parse_f64 c rest)
  unfolding operator
  operator-Leaves c rest =
      let bytes : List ℕ = c ∷ rest in
      elim (Bool-cases (not (cuts bytes (min (length bytes) 3)))) [
        | inl t ↦ rw t tt
        | inr t ↦ elim (Bool-cases (is_one_of long_operators (front 3 bytes))) [
          | inl u ↦ rw (t, u) (omega (arith, length-drop 2 rest))
          | inr u ↦ elim (Bool-cases (not (cuts bytes (min (length bytes) 2)))) [
            | inl v ↦ rw (t, u, v) tt
            | inr v ↦ elim (Bool-cases (is_one_of short_operators (front 2 bytes))) [
              | inl w ↦ rw (t, u, v, w) (omega (arith, length-drop 1 rest))
              | inr w ↦ rw (t, u, v, w) (omega arith)
            ]
          ]
        ]
      ]

  word-le :
      (c : ℕ) (rest : List ℕ)
      → begins_word c ≡ true
      → length (span in_word (c ∷ rest)).1 ≤ length rest
  unfolding span in_word
  word-le c rest w = rw w (span-le in_word rest)

  after :
      (fuel total n : ℕ) (r : Result TokenError (Option (Tok F) × List ℕ))
      → Leaves n r
      → ((bytes : List ℕ)
          → length bytes ≤ n
          → tokens parse_f64 (suc fuel) total bytes ≡ tokens parse_f64 fuel total bytes)
      → (r >>= λ a.
          tokens parse_f64 (suc fuel) total a.1 >>= λ toks. ok (push_token parse_f64 a.0 toks))
        ≡ (r >>= λ a.
            tokens parse_f64 fuel total a.1 >>= λ toks. ok (push_token parse_f64 a.0 toks))
  after fuel total n (err e) h same = refl
  after fuel total n (ok a) h same = rw (same a.1 h) refl

  -- A round that leaves fewer bytes than there is fuel for.
  after-ends :
      (fuel total n : ℕ) (r : Result TokenError (Option (Tok F) × List ℕ))
      → Leaves n r
      → ((bytes : List ℕ) → length bytes ≤ n → tokens parse_f64 fuel total bytes ≢ err out_of_fuel)
      → (r >>= λ a. tokens parse_f64 fuel total a.1 >>= λ toks. ok (push_token parse_f64 a.0 toks))
        ≢ err out_of_fuel
  after-ends fuel total n (err out_of_fuel) h ends = absurd h
  after-ends fuel total n (err e) h ends = λ k. of_other e h k
    where
      of_other :
          (e : TokenError)
          → Leaves n (err e)
          → ◌≢◌ {A = Result TokenError (List (Tok F))} (err e) (err out_of_fuel)
      of_other out_of_fuel l = absurd l
      of_other unterminated_string l = λ k. cc
      of_other (invalid_number text) l = λ k. cc
      of_other (unexpected_character c position) l = λ k. cc
      of_other panicked l = λ k. cc
  after-ends fuel total n (ok a) h ends = with_rest (tokens parse_f64 fuel total a.1) (ends a.1 h)
    where
      with_rest :
          (s : Result TokenError (List (Tok F)))
          → s ≢ err out_of_fuel
          → (s >>= λ toks. ok (push_token parse_f64 a.0 toks)) ≢ err out_of_fuel
      with_rest (ok toks) other = λ k. cc
      with_rest (err e) other = λ k. other (let same : e ≡ out_of_fuel = cc in rw same refl)

  round-Leaves :
      (position c : ℕ) (rest : List ℕ) → Leaves (length rest) (round parse_f64 position c rest)
  unfolding round span
  round-Leaves position c rest = elim (Bool-cases (is_whitespace c)) [
    | inl t ↦ rw t (omega arith)
    | inr t ↦ elim (Bool-cases (c == 39)) [
      | inl u ↦ rw (t, u) (of_string-Leaves rest (scan_string rest) refl)
      | inr u ↦ elim (Bool-cases (is_digit c)) [
        | inl v ↦ rw (t, u, v) (number-Leaves c rest v)
        | inr v ↦ elim (Bool-cases (begins_word c)) [
          | inl w ↦ rw (t, u, v, w) (word-le c rest w)
          | inr w ↦ elim (Bool-cases (is_punctuation c)) [
            | inl x ↦ rw (t, u, v, w, x) (operator-Leaves c rest)
            | inr x ↦ rw (t, u, v, w, x) tt
          ]
        ]
      ]
    ]
  ]

  tokens-end :
      (fuel total : ℕ) (bytes : List ℕ)
      → length bytes ≤ fuel
      → tokens parse_f64 fuel total bytes ≢ err out_of_fuel
  unfolding tokens
  tokens-end zero total [] h = λ k. cc
  tokens-end zero total (c ∷ rest) h = absurd (omega arith)
  tokens-end (suc fuel) total [] h = λ k. cc
  tokens-end (suc fuel) total (c ∷ rest) h =
      let position : ℕ = total - suc (length rest) in
      after-ends fuel total (length rest) (round parse_f64 position c rest)
        (round-Leaves position c rest) (λ bytes le. tokens-end fuel total bytes (omega arith))

  tokens-suc :
      (fuel total : ℕ) (bytes : List ℕ)
      → length bytes ≤ fuel
      → tokens parse_f64 (suc fuel) total bytes ≡ tokens parse_f64 fuel total bytes
  unfolding tokens
  tokens-suc zero total [] h = refl
  tokens-suc zero total (c ∷ rest) h = absurd (omega arith)
  tokens-suc (suc fuel) total [] h = refl
  tokens-suc (suc fuel) total (c ∷ rest) h =
      let position : ℕ = total - suc (length rest) in
      after fuel total (length rest) (round parse_f64 position c rest)
        (round-Leaves position c rest) (λ bytes le. tokens-suc fuel total bytes (omega arith))

  tokens-more :
      (extra : ℕ) (input : List ℕ)
      → tokens parse_f64 (length input + extra) (length input) input ≡ tokenize parse_f64 input
  unfolding tokenize
  tokens-more zero input = rw add-zero refl
  tokens-more (suc extra) input = rw add-suc (
      tokens-suc (length input + extra) (length input) input (omega arith)
      ∙ tokens-more extra input)

  -- The loop of `tokenize` ends after at most one round for each byte of the input, whatever the
  -- input: it does not run out of fuel, and on more it gives the same tokens or the same error.
  pub tokens-enough :
      (extra : ℕ) (input : List ℕ)
      → (tokenize parse_f64 input ≢ err out_of_fuel)
        × (tokens parse_f64 (length input + extra) (length input) input ≡ tokenize parse_f64 input)
  tokens-enough extra input = (
    unfold tokenize in tokens-end (length input) (length input) input (omega arith),
    tokens-more extra input,
  )
