-- ===== src/Prelude/Text/Laws.antt =====
-- What the string tests mean, by concatenation.
use Prim.Native.String.{[], ◌∷◌, ◌++◌}
use text.Mathlib.TextEquality.{Char-path}
use text.Mathlib.TextLemmas.{nil-append, cons-append}
use mathlib.Core.Path.{◌≡◌, refl, sym, ap, ap₂}
use mathlib.Core.Logic.{◌↔◌, inl, inr}
use mathlib.Core.Bool.{true}
use mathlib.Core.Option.{Option, none, some}
use native.Mathlib.Omega.{arith}
use Prim.Native.Char.{Char, code}
use Prim.Native.String.{String}
use text.Mathlib.Text.{◌==◌}
use text.Mathlib.TextEquality.{eq_iff}
use manychat.Prelude.Tests.{Bool-cases, nat_eq, nat_eq_iff}
use manychat.Prelude.Text.{after_prefix, starts_with, ends_with, includes, is_some}

pub after_prefix-append : (p r : String) → after_prefix p (p ++ r) ≡ some r
after_prefix-append [] r = rw nil-append refl
after_prefix-append (c ∷ p) r =
    rw cons-append (ground (arith, nat_eq_iff (code c) (code c), after_prefix-append p r))

pub append_of_after_prefix : (p s r : String) → after_prefix p s ≡ some r → s ≡ p ++ r
append_of_after_prefix [] s r h = rw nil-append (ground arith)
append_of_after_prefix (d ∷ p) [] r h = cc
append_of_after_prefix (d ∷ p) (c ∷ s) r h = elim (Bool-cases (nat_eq (code d) (code c))) [
  | inl same ↦ rw cons-append (
      ap₂ (λ (x : Char) y. x ∷ y) (sym (Char-path d c ((nat_eq_iff _ _).0 same)))
        (append_of_after_prefix p s r (rw same at h)))
  | inr other ↦ cc (other, h)
]

pub starts_with_iff : (s p : String) → (starts_with s p ≡ true) ↔ ((r : String) × (s ≡ p ++ r))
starts_with_iff s p = (go, λ (r, e). rw e (rw after_prefix-append refl))
  where
    found :
        (o : Option String) → after_prefix p s ≡ o → is_some o ≡ true → (r : String) × (s ≡ p ++ r)
    found none e h = cc
    found (some r) e h = (r, append_of_after_prefix p s r e)

    go : starts_with s p ≡ true → (r : String) × (s ≡ p ++ r)
    go h = found (after_prefix p s) refl h

ends_with_self : (t : String) → ends_with t t ≡ true
unfolding ends_with
ends_with_self [] = refl
ends_with_self (c ∷ t) = ground (arith, eq_iff (c ∷ t) (c ∷ t))

ends_with-cons : (c : Char) (s t : String) → ends_with s t ≡ true → ends_with (c ∷ s) t ≡ true
unfolding ends_with
ends_with-cons c s t h = ground arith

ends_with-append : (l t : String) → ends_with (l ++ t) t ≡ true
ends_with-append [] t = rw nil-append (ends_with_self t)
ends_with-append (c ∷ l) t = rw cons-append (ends_with-cons c (l ++ t) t (ends_with-append l t))

append_of_ends_with : (s t : String) → ends_with s t ≡ true → (l : String) × (s ≡ l ++ t)
unfolding ends_with
append_of_ends_with [] t h = ("", rw nil-append ((eq_iff "" t).0 h))
append_of_ends_with (c ∷ s) t h = elim (Bool-cases (c ∷ s == t)) [
  | inl whole ↦ ("", rw nil-append ((eq_iff _ _).0 whole))
  | inr part ↦
      let (l, e) = append_of_ends_with s t (ground arith) in
      (c ∷ l, rw cons-append (ap (λ (x : String). c ∷ x) e))
]

pub ends_with_iff : (s t : String) → (ends_with s t ≡ true) ↔ ((l : String) × (s ≡ l ++ t))
ends_with_iff s t = (append_of_ends_with s t, λ (l, e). rw e (ends_with-append l t))

includes_of_starts_with : (s t : String) → starts_with s t ≡ true → includes s t ≡ true
unfolding includes
includes_of_starts_with [] t h = h
includes_of_starts_with (c ∷ s) t h = ground arith

includes-cons : (c : Char) (s t : String) → includes s t ≡ true → includes (c ∷ s) t ≡ true
unfolding includes
includes-cons c s t h = ground arith

includes-append : (l t r : String) → includes (l ++ (t ++ r)) t ≡ true
includes-append [] t r =
    rw nil-append (includes_of_starts_with (t ++ r) t ((starts_with_iff _ _).1 (r, refl)))
includes-append (c ∷ l) t r =
    rw cons-append (includes-cons c (l ++ (t ++ r)) t (includes-append l t r))

append_of_includes :
    (s t : String) → includes s t ≡ true → (l : String) × (r : String) × (s ≡ l ++ (t ++ r))
unfolding includes
append_of_includes [] t h = let (r, e) = (starts_with_iff "" t).0 h in ("", r, rw nil-append e)
append_of_includes (c ∷ s) t h = elim (Bool-cases (starts_with (c ∷ s) t)) [
  | inl here ↦ let (r, e) = (starts_with_iff (c ∷ s) t).0 here in ("", r, rw nil-append e)
  | inr later ↦
      let (l, r, e) = append_of_includes s t (ground arith) in
      (c ∷ l, r, rw cons-append (ap (λ (x : String). c ∷ x) e))
]

pub includes_iff :
    (s t : String) → (includes s t ≡ true) ↔ ((l : String) × (r : String) × (s ≡ l ++ (t ++ r)))
includes_iff s t = (append_of_includes s t, λ (l, r, e). rw e (includes-append l t r))
