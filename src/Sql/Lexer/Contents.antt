-- ===== src/Sql/Lexer/Contents.antt =====
-- `Tokenize` (SQLParser.cpp) loses and invents nothing but the white space outside of quotes.
use mathlib.Core.List.{append-nil, append_assoc}
use altas_dbpro.Prelude.{
  ℕ, ◌≡◌, refl, sym, ap, ◌∙◌, ◌⊎◌, inl, inr, Bool, true, false, ◌&&◌, Option, none, some, List, [],
  ◌∷◌, ◌++◌, arith, if◌then◌else◌, ◌==◌, nat_eq, nat_eqb_iff, Bool-cases,
}
use altas_dbpro.Sql.{Text}
use altas_dbpro.Sql.Lexer.{
  Lexer, is_quote, is_space, is_separator, begins_operator, new_lexer, is_empty, flush, add, push,
  open_quote, close_quote, next_is, step, first, loop, remove_empty, tokenize,
}

-- The text without the white space that stands outside of quotes; `some q` is inside of quotes `q`.
pub strip : Option ℕ → Text → Text
strip mode [] = []
strip none (c ∷ cs) = elim (is_quote c) [
  | true ↦ c ∷ strip (some c) cs
  | false ↦ elim (is_space c) [ true ↦ strip none cs | false ↦ c ∷ strip none cs ]
]
strip (some q) (c ∷ cs) = c ∷ strip (if c == q then none else some q) cs

pub concat : List Text → Text
concat [] = []
concat (t ∷ ts) = t ++ concat ts

abbrev contents : Lexer → Text
contents s = concat s.tokens ++ s.current

abbrev mode : Lexer → Option ℕ
mode s = if s.in_quotes then some s.quote_char else none

-- The quote character is one.
abbrev IsQuoting : Lexer → Type 0
IsQuoting s = (s.in_quotes ≡ false) ⊎ (is_quote s.quote_char ≡ true)

concat-snoc : (ts : List Text) (t : Text) → concat (ts ++ t ∷ []) ≡ concat ts ++ t
unfolding concat
concat-snoc [] t = append-nil t
concat-snoc (u ∷ ts) t = rw (concat-snoc ts t) (sym (append_assoc u (concat ts) t))

flush-contents : (s : Lexer) → contents (flush s) ≡ contents s
unfolding flush
flush-contents s = by_current s.current refl
  where
    by_current : (t : Text) → s.current ≡ t → contents (flush s) ≡ contents s
    by_current [] e = rw e refl
    by_current (c ∷ cs) e = rw (e, concat-snoc s.tokens (c ∷ cs)) (append-nil _)

flush-mode : (s : Lexer) → (mode (flush s) ≡ mode s) × ((flush s).in_quotes ≡ s.in_quotes)
unfolding flush
flush-mode s = elim (Bool-cases (is_empty s.current)) [
  | inl e ↦ rw e (refl, refl)
  | inr e ↦ rw e (refl, refl)
]

add-contents : (c : ℕ) (s : Lexer) → contents (add c s) ≡ contents s ++ c ∷ []
unfolding add
add-contents c s = sym (append_assoc (concat s.tokens) s.current (c ∷ []))

push-contents : (t : Text) (s : Lexer) → s.current ≡ [] → contents (push t s) ≡ contents s ++ t
unfolding push
push-contents t s e =
    rw (e, concat-snoc s.tokens t) (append-nil _ ∙ ap (λ l. l ++ t) (sym (append-nil _)))

flush-current : (s : Lexer) → (flush s).current ≡ []
unfolding flush
flush-current s = by_current s.current refl
  where
    by_current : (t : Text) → s.current ≡ t → (flush s).current ≡ []
    by_current [] e = rw e refl
    by_current (c ∷ cs) e = rw e refl

close-contents : (c : ℕ) (s : Lexer) → contents (close_quote c s) ≡ contents s ++ c ∷ []
unfolding close_quote
close-contents c s =
    rw (concat-snoc s.tokens (s.current ++ c ∷ []))
      (append-nil _ ∙ sym (append_assoc (concat s.tokens) s.current (c ∷ [])))

-- One pass reads `c` alone and keeps `kept` of it, or it reads the character after `c` too.
data Stepped (s : Lexer) (c : ℕ) (next : Option ℕ) : Lexer × Bool → Type 0 where
  one :
      (t : Lexer) (kept : Text)
      → contents t ≡ contents s ++ kept
      → ((cs : Text) → strip (mode s) (c ∷ cs) ≡ kept ++ strip (mode t) cs)
      → IsQuoting t
      → Stepped s c next (t, false)
  two :
      (t : Lexer) (d : ℕ)
      → next ≡ some d
      → contents t ≡ contents s ++ c ∷ d ∷ []
      → ((cs : Text) → strip (mode s) (c ∷ d ∷ cs) ≡ c ∷ d ∷ strip (mode t) cs)
      → IsQuoting t
      → Stepped s c next (t, true)

next_is_lem : (c : ℕ) (next : Option ℕ) → next_is c next ≡ true → next ≡ some c
next_is_lem c none e = absurd (ground arith)
next_is_lem c (some d) e = ground (arith, nat_eqb_iff d c)

add_twice : (c d : ℕ) (s : Lexer) → contents (add d (add c s)) ≡ contents s ++ c ∷ d ∷ []
add_twice c d s =
    add-contents d (add c s)
    ∙ ap (λ l. l ++ d ∷ []) (add-contents c s)
    ∙ append_assoc (contents s) (c ∷ []) (d ∷ [])

-- `add` changes neither the quotes nor their character.
add-mode : (c : ℕ) (s : Lexer) → (mode (add c s) ≡ mode s) × (IsQuoting s → IsQuoting (add c s))
unfolding add
add-mode c s = (refl, λ q. q)

-- Outside of quotes, by the kind of the character.
strip-plain :
    (c : ℕ) (cs : Text)
    → is_quote c ≡ false
    → is_space c ≡ false
    → strip none (c ∷ cs) ≡ c ∷ strip none cs
unfolding strip
strip-plain c cs q w = rw (q, strip) (rw (w, strip) refl)

strip-space :
    (c : ℕ) (cs : Text)
    → is_quote c ≡ false
    → is_space c ≡ true
    → strip none (c ∷ cs) ≡ strip none cs
unfolding strip
strip-space c cs q w = rw (q, strip) (rw (w, strip) refl)

strip-open : (c : ℕ) (cs : Text) → is_quote c ≡ true → strip none (c ∷ cs) ≡ c ∷ strip (some c) cs
unfolding strip
strip-open c cs q = rw (q, strip) refl

-- Inside of quotes `q`.
strip-end : (c q : ℕ) (cs : Text) → (c == q) ≡ true → strip (some q) (c ∷ cs) ≡ c ∷ strip none cs
unfolding strip
strip-end c q cs e = rw e refl

strip-keep :
    (c q : ℕ) (cs : Text) → (c == q) ≡ false → strip (some q) (c ∷ cs) ≡ c ∷ strip (some q) cs
unfolding strip
strip-keep c q cs e = rw e refl

strip-doubled :
    (c q : ℕ) (cs : Text)
    → (c == q) ≡ true
    → is_quote c ≡ true
    → strip (some q) (c ∷ c ∷ cs) ≡ c ∷ c ∷ strip (some q) cs
strip-doubled c q cs e k =
    strip-end c q (c ∷ cs) e
    ∙ ap (λ l. c ∷ l) (strip-open c cs k ∙ ap (λ n. c ∷ strip (some n) cs) ((nat_eqb_iff c q).0 e))

mode-in : (s : Lexer) → s.in_quotes ≡ true → mode s ≡ some s.quote_char
mode-in s i = rw i refl

mode-out : (s : Lexer) → s.in_quotes ≡ false → mode s ≡ none
mode-out s i = rw i refl

module _ (s : Lexer) (c : ℕ) (next : Option ℕ) (q : IsQuoting s) where
  -- The quote character inside of quotes: doubled, or the end.
  step_same :
      is_quote c ≡ true
      → s.in_quotes ≡ true
      → (c == s.quote_char) ≡ true
      → Stepped s c next
          (if next_is s.quote_char next then (add c (add c s), true) else (close_quote c s, false))
  step_same e i m = elim (Bool-cases (next_is s.quote_char next)) [
    | inl d ↦
        let same : c ≡ s.quote_char = (nat_eqb_iff c s.quote_char).0 m in
        rw d (
          two (add c (add c s)) c (next_is_lem s.quote_char next d ∙ ap some (sym same))
            (add_twice c c s)
            (λ cs.
              rw ((add-mode c (add c s)).0 ∙ (add-mode c s).0, mode-in s i)
                (strip-doubled c s.quote_char cs m e))
            ((add-mode c (add c s)).1 ((add-mode c s).1 q)))
    | inr d ↦ rw d (
        one (close_quote c s) (c ∷ []) (close-contents c s)
          (λ cs.
            rw (mode-in s i, mode-out (close_quote c s) closed) (strip-end c s.quote_char cs m))
          (inl closed))
  ]
    where
      closed : (close_quote c s).in_quotes ≡ false
      closed = unfold close_quote in refl

  step_in : s.in_quotes ≡ true → (c == s.quote_char) ≡ false → Stepped s c next (add c s, false)
  step_in i e =
      one (add c s) (c ∷ []) (add-contents c s)
        (λ cs. rw ((add-mode c s).0, mode-in s i) (strip-keep c s.quote_char cs e))
        ((add-mode c s).1 q)

  step_open : is_quote c ≡ true → s.in_quotes ≡ false → Stepped s c next (open_quote c s, false)
  unfolding open_quote
  step_open e i =
      one (open_quote c s) (c ∷ [])
        (add-contents c (flush quoting) ∙ ap (λ l. l ++ c ∷ []) (flush-contents quoting))
        (λ cs. rw (mode-out s i, now) (strip-open c cs e))
        (inr (unfold add flush in (ground arith)))
    where
      quoting : Lexer
      quoting = record s { in_quotes = true; quote_char = c }

      now : mode (add c (flush quoting)) ≡ some c
      now = (add-mode c (flush quoting)).0 ∙ (flush-mode quoting).0

  flushed : s.in_quotes ≡ false → (flush s).in_quotes ≡ false
  flushed i = (flush-mode s).1 ∙ i

  step_space :
      is_quote c ≡ false
      → s.in_quotes ≡ false
      → is_space c ≡ true
      → Stepped s c next (flush s, false)
  step_space e i w =
      one (flush s) [] (flush-contents s ∙ sym (append-nil (contents s)))
        (λ cs. rw (mode-out s i, mode-out (flush s) (flushed i)) (strip-space c cs e w))
        (inl (flushed i))

  push-contents-flush : (t : Text) → contents (push t (flush s)) ≡ contents s ++ t
  push-contents-flush t =
      push-contents t (flush s) (flush-current s) ∙ ap (λ l. l ++ t) (flush-contents s)

  push-out : (t : Text) → s.in_quotes ≡ false → (push t (flush s)).in_quotes ≡ false
  unfolding push
  push-out t i = flushed i

  step_separator :
      is_quote c ≡ false
      → s.in_quotes ≡ false
      → is_space c ≡ false
      → Stepped s c next (
          if begins_operator c && next_is b'=' next
          then (push (c ∷ b'=' ∷ []) (flush s), true)
          else (push (c ∷ []) (flush s), false))
  step_separator e i w = elim (Bool-cases (begins_operator c && next_is b'=' next)) [
    | inl d ↦ rw d (
        two (push (c ∷ b'=' ∷ []) (flush s)) b'=' (next_is_lem b'=' next (ground arith))
          (push-contents-flush (c ∷ b'=' ∷ []))
          (λ cs.
            rw (mode-out s i, mode-out (push (c ∷ b'=' ∷ []) (flush s)) (push-out _ i))
              (strip-plain c (b'=' ∷ cs) e w
                ∙ ap (λ l. c ∷ l)
                    (strip-plain b'=' cs (unfold is_quote in refl) (unfold is_space in refl))))
          (inl (push-out _ i)))
    | inr d ↦ rw d (
        one (push (c ∷ []) (flush s)) (c ∷ []) (push-contents-flush (c ∷ []))
          (λ cs.
            rw (mode-out s i, mode-out (push (c ∷ []) (flush s)) (push-out _ i))
              (strip-plain c cs e w))
          (inl (push-out _ i)))
  ]

  step_plain :
      is_quote c ≡ false
      → s.in_quotes ≡ false
      → is_space c ≡ false
      → Stepped s c next (add c s, false)
  step_plain e i w =
      one (add c s) (c ∷ []) (add-contents c s)
        (λ cs. rw ((add-mode c s).0, mode-out s i) (strip-plain c cs e w)) ((add-mode c s).1 q)

  not_the_quote : is_quote c ≡ false → s.in_quotes ≡ true → (c == s.quote_char) ≡ false
  not_the_quote e i = ground (arith, nat_eqb_iff c s.quote_char)

  step-Stepped : Stepped s c next (step s c next)
  unfolding step
  step-Stepped = elim (Bool-cases (is_quote c)) [
    | inl e ↦ elim (Bool-cases s.in_quotes) [
      | inr i ↦ simp (e, i) (step_open e i)
      | inl i ↦ elim (Bool-cases (c == s.quote_char)) [
        | inl m ↦ simp (e, i, m) (step_same e i m)
        | inr m ↦ simp (e, i, m) (step_in i m)
      ]
    ]
    | inr e ↦ elim (Bool-cases s.in_quotes) [
      | inl i ↦ simp (e, i) (step_in i (not_the_quote e i))
      | inr i ↦ elim (Bool-cases (is_space c)) [
        | inl w ↦ simp (e, i, w) (step_space e i w)
        | inr w ↦ elim (Bool-cases (is_separator c)) [
          | inl p ↦ simp (e, i, w, p) (step_separator e i w)
          | inr p ↦ simp (e, i, w, p) (step_plain e i w)
        ]
      ]
    ]
  ]

-- The whole loop, by one pass or two characters at a time.
after_step :
    (s : Lexer) (c : ℕ) (cs : Text) {r : Lexer × Bool}
    → ((t : Lexer) → IsQuoting t → contents (loop false t cs) ≡ contents t ++ strip (mode t) cs)
    → ((t : Lexer) (d : ℕ) (ds : Text)
        → cs ≡ d ∷ ds
        → IsQuoting t
        → contents (loop true t cs) ≡ contents t ++ strip (mode t) ds)
    → Stepped s c (first cs) r
    → contents (loop r.1 r.0 cs) ≡ contents s ++ strip (mode s) (c ∷ cs)
after_step s c cs ih ih' (one t kept e k q) =
    ih t q
    ∙ ap (λ l. l ++ strip (mode t) cs) e
    ∙ append_assoc (contents s) kept (strip (mode t) cs)
    ∙ ap (λ l. contents s ++ l) (sym (k cs))
after_step s c [] ih ih' (two t d n e k q) = absurd (ground arith)
after_step s c (x ∷ cs) ih ih' (two t d n e k q) =
    let same : x ≡ d = ground arith in
    ih' t x cs refl q
    ∙ ap (λ l. l ++ strip (mode t) cs) e
    ∙ append_assoc (contents s) (c ∷ d ∷ []) (strip (mode t) cs)
    ∙ ap (λ l. contents s ++ l) (sym (k cs) ∙ ap (λ n. strip (mode s) (c ∷ n ∷ cs)) (sym same))

loop-contents :
    (cs : Text) (s : Lexer)
    → IsQuoting s
    → (contents (loop false s cs) ≡ contents s ++ strip (mode s) cs)
      × ((d : ℕ) (ds : Text)
          → cs ≡ d ∷ ds
          → contents (loop true s cs) ≡ contents s ++ strip (mode s) ds)
unfolding loop
loop-contents [] s q = (unfold strip in (sym (append-nil _)), λ d ds e. absurd (ground arith))
loop-contents (c ∷ cs) s q = (
  after_step s c cs (λ t p. (loop-contents cs t p).0)
      (λ t d ds e p. (loop-contents cs t p).1 d ds e) (step-Stepped s c (first cs) q),
  λ d ds e. (loop-contents cs s q).0 ∙ ap (λ l. contents s ++ strip (mode s) l) (tail_eq e),
)
  where
    tail_eq : {d : ℕ} {ds : Text} → c ∷ cs ≡ d ∷ ds → cs ≡ ds
    tail_eq e = ground arith

concat-remove_empty : (ts : List Text) → concat (remove_empty ts) ≡ concat ts
unfolding remove_empty concat
concat-remove_empty [] = refl
concat-remove_empty ([] ∷ ts) = concat-remove_empty ts
concat-remove_empty ((c ∷ cs) ∷ ts) = rw (concat-remove_empty ts) refl

-- The tokens that `Tokenize` gives, in a row, are the text without the white space that stands outside
-- of quotes.
pub concat-tokenize : (sql : Text) → concat (tokenize sql) ≡ strip none sql
unfolding tokenize
concat-tokenize sql =
    let last = loop false new_lexer sql in
    concat-remove_empty (flush last).tokens
    ∙ sym (append-nil _)
    ∙ ap (λ l. concat (flush last).tokens ++ l) (sym (flush-current last))
    ∙ flush-contents last
    ∙ (loop-contents sql new_lexer (inl refl)).0
    ∙ unfold concat in refl
