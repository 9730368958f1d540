-- ===== src/Prelude/Substrings.antt =====
-- What the methods of texts find in a text.
use Prim.Native.Nat.{ℕ}
use mathlib.Core.Path.{◌≡◌, refl}
use mathlib.Core.Logic.{◌≢◌}
use mathlib.Core.Bool.{Bool, true, false}
use mathlib.Core.List.{[], ◌∷◌, ◌++◌, reverse, reverse-append}
use native.Mathlib.Omega.{arith}
use intermcp.Prelude.Tests.{eqb_iff}
use intermcp.Prelude.Chars.{Text, starts_with, contains, ends_with}

pub starts_with-append : (s t : Text) → starts_with (s ++ t) s ≡ true
unfolding starts_with
starts_with-append [] [] = refl
starts_with-append [] (c ∷ t) = refl
starts_with-append (c ∷ s) t = ground (arith, starts_with-append s t, eqb_iff c c)

contains-start : (s pat : Text) → starts_with s pat ≡ true → contains s pat ≡ true
unfolding contains
contains-start [] pat h = h
contains-start (c ∷ s) pat h = rw h refl

contains-cons : (c : ℕ) (s pat : Text) → contains s pat ≡ true → contains (c ∷ s) pat ≡ true
unfolding contains
contains-cons c s pat h = ground arith

pub contains-inside : (before pat rest : Text) → contains (before ++ (pat ++ rest)) pat ≡ true
contains-inside [] pat rest = contains-start (pat ++ rest) pat (starts_with-append pat rest)
contains-inside (c ∷ before) pat rest =
    contains-cons c (before ++ (pat ++ rest)) pat (contains-inside before pat rest)

pub ends_with-append : (s t : Text) → ends_with (s ++ t) t ≡ true
unfolding ends_with
ends_with-append s t = rw reverse-append (starts_with-append (reverse t) (reverse s))

pub not_true : (b : Bool) → b ≡ false → b ≢ true
not_true true h e = cc
not_true false h e = cc
