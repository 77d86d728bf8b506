-- ===== src/Taql/Query.antt =====
-- A query of crates/casacure/src/taql.rs, spelled token by token, is read as those tokens.
use casacure.Prelude.{
  ℕ, suc, ◌+◌, ◌-◌, ◌≤◌, ◌<◌, ◌≡◌, refl, ◌∙◌, true, false, ◌||◌, ◌==◌, min, List, [], ◌∷◌, ◌++◌,
  Option, none, some, arith, length, length-append, append_assoc,
}
use casacure.Result.{ok}
use casacure.Bytes.{bytes_eq}
use casacure.Aipsio.Reads.{All}
use casacure.Taql.{
  Tok, op, is_whitespace, is_one_of, long_operators, short_operators, operator, round, tokens,
  tokenize,
}
use casacure.Taql.Literals.{escaped, characters-ascii, round-string, tokens-nil}
use casacure.Taql.Spelling.{
  round-word, round-digits, round-decimal, round-operator, front-take, cuts-ascii, operator-single,
  operator-double, operator-triple,
}
use casacure.Taql.Spelled.{
  Spelled, word, digits, decimal, text, single, double, triple, digit-is, begins-is, mark-is,
  pair-is, AllOf-digits, AllOf-words, is_in,
}

-- The texts with a space behind each.
unfoldable pub spaced : List (List ℕ) → List ℕ
spaced [] = []
spaced (t ∷ ts) = t ++ (32 ∷ spaced ts)

abbrev pub AllSpelled :
    {F : Type 0} (parse_f64 : List ℕ → Option F) → List (List ℕ) → List (Tok F) → Type 0
AllSpelled parse_f64 [] [] = Unit
AllSpelled parse_f64 [] (tok ∷ toks) = ⊥
AllSpelled parse_f64 (t ∷ ts) [] = ⊥
AllSpelled parse_f64 (t ∷ ts) (tok ∷ toks) = Spelled parse_f64 t tok × AllSpelled parse_f64 ts toks

All-behind : (xs ys : List ℕ) → All (λ b. b < 128) (xs ++ ys) → All (λ b. b < 128) ys
All-behind [] ys h = h
All-behind (x ∷ xs) ys h = All-behind xs ys h.1

module _ {F : Type 0} (parse_f64 : List ℕ → Option F) where
  -- A round over the text of a token.
  record Round (t more : List ℕ) (tok : Tok F) : Type 0 where
    c : ℕ
    w : List ℕ
    split : t ≡ c ∷ w
    reads :
        (position : ℕ) → round parse_f64 position c (w ++ (32 ∷ more)) ≡ ok (some tok, 32 ∷ more)

  Spelled-Round :
      (t more : List ℕ) (tok : Tok F)
      → Spelled parse_f64 t tok
      → All (λ b. b < 128) (t ++ (32 ∷ more))
      → Round t more tok
  unfolding is_in
  Spelled-Round t more tok (word c w h hs) ascii = record {
    c = c;
    w = w;
    split = refl;
    reads = λ position. round-word parse_f64 position c w more (begins-is c h) (AllOf-words w hs);
  }
  Spelled-Round t more tok (digits c w h hs small) ascii = record {
    c = c;
    w = w;
    split = refl;
    reads = λ position.
        round-digits parse_f64 position c w more (digit-is c h) (AllOf-digits w hs) small;
  }
  Spelled-Round t more tok (decimal c w x y b b' f h hs hx hy part parsed) ascii = record {
    c = c;
    w = w ++ (x ++ y);
    split = refl;
    reads = λ position.
        rw (append_assoc w (x ++ y), append_assoc x y)
          (round-decimal parse_f64 position c w x y more f (digit-is c h) (AllOf-digits w hs) hx hy
            part parsed);
  }
  Spelled-Round t more tok (text s h) ascii = record {
    c = 39;
    w = escaped s;
    split = refl;
    reads = λ position.
        let e = round-string parse_f64 position s (32 ∷ more) refl in
        rw (characters-ascii s h) at e;
  }
  Spelled-Round t more tok (single c h) ascii = record {
    c = c;
    w = [];
    split = refl;
    reads = λ position.
        round-operator parse_f64 position c (32 ∷ more) (mark-is c h)
        ∙ operator-single parse_f64 c more ascii;
  }
  Spelled-Round t more tok triple ascii = record {
    c = 60;
    w = 61 ∷ 62 ∷ [];
    split = refl;
    reads = λ position.
        round-operator parse_f64 position 60 (61 ∷ 62 ∷ 32 ∷ more) (mark-is 60 refl)
        ∙ operator-triple parse_f64 more ascii;
  }
  Spelled-Round t more tok (double c d h) ascii = record {
    c = c;
    w = d ∷ [];
    split = refl;
    reads = λ position.
        round-operator parse_f64 position c (d ∷ 32 ∷ more) (pair-is c d h).0
        ∙ operator-double parse_f64 c d more ascii (pair-is c d h).1;
  }

  round-space : (position : ℕ) (more : List ℕ) → round parse_f64 position 32 more ≡ ok (none, more)
  unfolding round is_whitespace
  round-space position more = refl

  tokens-step :
      (fuel total c : ℕ) (w more : List ℕ) (tok : Tok F) (toks : List (Tok F))
      → ((position : ℕ) → round parse_f64 position c (w ++ (32 ∷ more)) ≡ ok (some tok, 32 ∷ more))
      → tokens parse_f64 fuel total more ≡ ok toks
      → tokens parse_f64 (suc (suc fuel)) total (c ∷ (w ++ (32 ∷ more))) ≡ ok (tok ∷ toks)
  unfolding tokens
  tokens-step fuel total c w more tok toks reads rest =
      rw
        (
          reads (total - suc (length (w ++ (32 ∷ more)))),
          round-space (total - suc (length more)) more,
          rest,
        )
        refl

  tokens-spaced :
      (fuel total : ℕ) (ts : List (List ℕ)) (toks : List (Tok F))
      → AllSpelled parse_f64 ts toks
      → All (λ b. b < 128) (spaced ts)
      → length (spaced ts) ≤ fuel
      → tokens parse_f64 fuel total (spaced ts) ≡ ok toks
  unfolding spaced
  tokens-spaced fuel total [] [] h ascii enough = tokens-nil parse_f64 fuel total
  tokens-spaced fuel total [] (tok ∷ toks) h ascii enough = elim h [ ]
  tokens-spaced fuel total (t ∷ ts) [] h ascii enough = elim h [ ]
  tokens-spaced fuel total (t ∷ ts) (tok ∷ toks) (h, hs) ascii enough =
      let r = Spelled-Round t (spaced ts) tok h ascii in
      let n : length (t ++ (32 ∷ spaced ts)) ≡ length (r.c ∷ r.w) + suc (length (spaced ts)) =
        rw r.split (length-append (r.c ∷ r.w) (32 ∷ spaced ts)) in
      let left : ℕ = fuel - 2 in
      let e : fuel ≡ suc (suc left) = omega arith in
      rw (e, r.split)
        (tokens-step left total r.c r.w (spaced ts) tok toks r.reads (
          tokens-spaced left total ts toks hs (All-behind t (32 ∷ spaced ts) ascii).1
            (omega arith)))

  -- A query of ASCII characters that is spelled as words, whole numbers below 2 ^ 63, decimal numbers
  -- with a fraction or an exponent that `parse_f64` takes, string literals with their quotes
  -- doubled, single punctuation characters, the operators of two characters and `<=>`, with a
  -- space behind each, is read as exactly those tokens, in order.
  pub tokenize-spaced :
      (ts : List (List ℕ)) (toks : List (Tok F))
      → AllSpelled parse_f64 ts toks
      → All (λ b. b < 128) (spaced ts)
      → tokenize parse_f64 (spaced ts) ≡ ok toks
  unfolding tokenize
  tokenize-spaced ts toks h ascii =
      tokens-spaced (length (spaced ts)) (length (spaced ts)) ts toks h ascii (omega arith)

  -- The operators `!<` and `!>`, which `tokenize` lists with those of three characters, are not read
  -- where a character follows them, of an ASCII query: the exclamation mark is a token of its own.
  pub operator-negated :
      (d c : ℕ) (rest : List ℕ)
      → ((d == 60) || (d == 62)) ≡ true
      → All (λ b. b < 128) (d ∷ c ∷ rest)
      → operator parse_f64 33 (d ∷ c ∷ rest) ≡ ok (some (op (33 ∷ [])), d ∷ c ∷ rest)
  unfolding operator
  operator-negated d c rest h ascii =
      let bytes : List ℕ = 33 ∷ d ∷ c ∷ rest in
      let all : All (λ b. b < 128) bytes = (omega arith, ascii) in
      let long : is_one_of long_operators (33 ∷ d ∷ c ∷ []) ≡ false =
        unfold is_one_of bytes_eq in ground arith in
      let short : is_one_of short_operators (33 ∷ d ∷ []) ≡ false =
        unfold is_one_of bytes_eq in ground arith in
      rw
        (
          cuts-ascii bytes (min (length bytes) 3) all,
          cuts-ascii bytes (min (length bytes) 2) all,
          front-take 3 bytes,
          front-take 2 bytes,
          long,
          short,
        )
        refl
