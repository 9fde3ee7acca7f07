-- ===== src/Http/Template/Laws.antt =====
-- What a template renders to.
use Prim.Native.Char.{Char, code}
use Prim.Native.String.{◌∷◌, ◌++◌}
use text.Mathlib.TextLemmas.{nil-append, cons-append, append_assoc}
use mathlib.Core.Path.{subst}
use manychat.Prelude.{
  ℕ, zero, ◌+◌, ◌-◌, ◌≤◌, String, ◌≡◌, ◌≢◌, refl, sym, ap, ◌∙◌, inl, inr, Bool, true, false, ◌&&◌,
  ◌||◌, Option, none, some, ltb, after_prefix, includes, starts_with, is_white, utf16_length,
  char_count, all_chars, arith, Bool-cases, Option-cases, eq_iff,
}
use manychat.Prelude.Int.{ℤ}
use manychat.Prelude.Text.Laws.{after_prefix-append}
use manychat.Value.{Value}
use manychat.Http.Transport.{Result, returns}
use manychat.Http.Transport.Laws.{Result-cases, returns-eq}
use manychat.Http.Template.{
  is_path_char, closed, after_space, after_path, after_white, inside, span, expression_at, value_at,
  scalar_text, join, matched, replace, render_scalar,
}

or_false : (a b : Bool) → (a || b) ≡ false → (a ≡ false) × (b ≡ false)
or_false a b h = ground arith

char_count-append : (a b : String) → char_count (a ++ b) ≡ char_count a + char_count b
char_count-append String.[] b = rw nil-append (omega arith)
char_count-append (c ∷ a) b = rw cons-append (omega (arith, char_count-append a b))

none_of_not_starts : (p s : String) → starts_with s p ≡ false → after_prefix p s ≡ none
none_of_not_starts p s h = elim (Option-cases (after_prefix p s)) [
  | inl e ↦ e
  | inr (r, e) ↦ cc (rw e at h)
]

and_true : (a b : Bool) → (a && b) ≡ true → (a ≡ true) × (b ≡ true)
and_true a b h = ground arith

expression_at-none : (s : String) → after_prefix "{{" s ≡ none → expression_at s ≡ none
unfolding expression_at
expression_at-none s h = rw (expression_at, h) refl

single : (c : Char) (s : String) → (c ∷ "") ++ s ≡ c ∷ s
single c s = rw (cons-append, nil-append) refl

span-stop :
    (test : ℕ → Bool) (c : Char) (s : String)
    → test (code c) ≡ false
    → span test (c ∷ s) ≡ ("", c ∷ s)
unfolding span
span-stop test c s h = rw h refl

span-append :
    (test : ℕ → Bool) (taken s : String)
    → all_chars test taken ≡ true
    → span test s ≡ ("", s)
    → span test (taken ++ s) ≡ (taken, s)
unfolding span
span-append test String.[] s all stop = rw nil-append stop
span-append test (d ∷ taken) s all stop =
    let (here, rest) = and_true (test (code d)) (all_chars test taken) all in
    rw (cons-append, here, span-append test taken s rest stop) refl

span-front :
    (test : ℕ → Bool) (c : Char) (front s : String)
    → test (code c) ≡ false
    → span test ((c ∷ front) ++ s) ≡ ("", (c ∷ front) ++ s)
span-front test c front s h = rw cons-append (span-stop test c (front ++ s) h)

span-braces :
    (test : ℕ → Bool) (s : String) → test b'}' ≡ false → span test ("}}" ++ s) ≡ ("", "}}" ++ s)
span-braces test s h = span-front test _ _ s h

expression_at-path :
    (path rest : String)
    → path ≢ ""
    → all_chars is_path_char path ≡ true
    → expression_at ("{{" ++ (path ++ ("}}" ++ rest))) ≡ some (path, rest)
unfolding expression_at
expression_at-path String.[] rest n all = absurd (n refl)
expression_at-path (c ∷ path) rest n all =
    let (here, later) = and_true (is_path_char (code c)) (all_chars is_path_char path) all in
    ap inside (after_prefix-append "{{" ((c ∷ path) ++ ("}}" ++ rest)))
    ∙ ap after_white (span-front is_white c path ("}}" ++ rest) (ground arith))
    ∙ ap after_path (
        span-append is_path_char (c ∷ path) ("}}" ++ rest) all (span-braces is_path_char rest refl))
    ∙ ap (after_space (c ∷ path)) (span-braces is_white rest refl)
    ∙ ap (closed (c ∷ path)) (after_prefix-append "}}" rest)
    ∙ ground (arith, eq_iff (c ∷ path) "")

module _ (number_text : ℤ → String) (variables : Value) where
  replace-skip :
      (a b : String)
      → replace number_text variables (char_count a) (a ++ b) ≡ replace number_text variables zero b
  unfolding replace
  replace-skip String.[] b = rw nil-append refl
  replace-skip (c ∷ a) b = rw cons-append (replace-skip a b)

  step : Char → String → Option (String × String) → Result String
  step c s o = matched number_text variables c s (λ k. replace number_text variables k s) o

  -- A template without `{{` renders to itself.
  pub replace-plain :
      (s : String) → includes s "{{" ≡ false → replace number_text variables zero s ≡ returns s
  unfolding replace includes step
  replace-plain String.[] h = refl
  replace-plain (c ∷ s) h =
      let (here, later) = or_false _ _ h in
      ap (step c s) (expression_at-none (c ∷ s) (none_of_not_starts "{{" (c ∷ s) here))
      ∙ ap (join number_text (returns (c ∷ ""))) (replace-plain s later)
      ∙ ap returns (single c s)

  replace-at :
      (c : Char) (s path rest : String)
      → expression_at (c ∷ s) ≡ some (path, rest)
      → replace number_text variables zero (c ∷ s)
        ≡ join number_text
            (scalar_text number_text (value_at variables path))
            (replace number_text variables (char_count s - char_count rest) s)
  unfolding replace step
  replace-at c s path rest h = ap (step c s) h

  replace-front :
      (c : Char) (front x path rest : String)
      → expression_at ((c ∷ front) ++ x) ≡ some (path, rest)
      → replace number_text variables zero ((c ∷ front) ++ x)
        ≡ join number_text
            (scalar_text number_text (value_at variables path))
            (replace number_text variables (char_count (front ++ x) - char_count rest) (front ++ x))
  replace-front c front x path rest h =
      ap (replace number_text variables zero) (cons-append c front x)
      ∙ replace-at c (front ++ x) path rest (ap expression_at (sym (cons-append c front x)) ∙ h)

  pass-append :
      (a rest : String)
      → replace number_text variables (char_count (a ++ rest) - char_count rest) (a ++ rest)
        ≡ replace number_text variables zero rest
  pass-append a rest =
      let skipped : char_count (a ++ rest) - char_count rest ≡ char_count a =
        omega (arith, char_count-append a rest) in
      ap (λ k. replace number_text variables k (a ++ rest)) skipped ∙ replace-skip a rest

  pass :
      (path rest : String)
      → replace number_text variables
          (char_count ("{" ++ (path ++ ("}}" ++ rest))) - char_count rest)
          ("{" ++ (path ++ ("}}" ++ rest)))
        ≡ replace number_text variables zero rest
  pass path rest =
      let whole : ◌≡◌ {A = String} (("{" ++ (path ++ "}}")) ++ rest)
          ("{" ++ (path ++ ("}}" ++ rest))) =
        append_assoc "{" (path ++ "}}") rest ∙ ap (λ x. "{" ++ x) (append_assoc path "}}" rest) in
      subst
        (λ s.
          replace number_text variables (char_count s - char_count rest) s
          ≡ replace number_text variables zero rest)
        whole (pass-append ("{" ++ (path ++ "}}")) rest)

  -- An expression in front of a template renders to the text of the value that its path names, and the
  -- rest renders as it does by itself; the first error is the one that is thrown.
  pub replace-expression :
      (path rest : String)
      → path ≢ ""
      → all_chars is_path_char path ≡ true
      → replace number_text variables zero ("{{" ++ (path ++ ("}}" ++ rest)))
        ≡ join number_text
            (scalar_text number_text (value_at variables path))
            (replace number_text variables zero rest)
  replace-expression path rest n all =
      replace-front _ _ (path ++ ("}}" ++ rest)) path rest (expression_at-path path rest n all)
      ∙ ap (join number_text (scalar_text number_text (value_at variables path))) (pass path rest)

  -- A template that renders has at most the length that is allowed, in UTF-16 units.
  pub render_scalar-bounded :
      (template output : String) (maximum_length : ℕ)
      → render_scalar number_text template variables maximum_length ≡ returns output
      → utf16_length output ≤ maximum_length
  unfolding render_scalar
  render_scalar-bounded template output maximum_length h =
      elim (Result-cases (replace number_text variables zero template)) [
        | inl (e, failure) ↦ cc (rw failure at h)
        | inr (text, e) ↦ elim (Bool-cases (ltb maximum_length (utf16_length text))) [
          | inl long ↦ cc (rw (e, long) at h)
          | inr short ↦
              let same : text ≡ output = returns-eq (rw (e, short) at h) in
              rw (← same) (ground arith)
        ]
      ]
