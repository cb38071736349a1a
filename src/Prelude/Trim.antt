-- ===== src/Prelude/Trim.antt =====
-- What trimming takes off a text.
use mathlib.Core.Path.{◌≡◌, refl, ◌∙◌, ap, sym}
use mathlib.Core.Bool.{Bool, true, not}
use mathlib.Core.Logic.{inl, inr}
use mathlib.Core.List.{[], ◌∷◌, reverse, reverse-cons, reverse-reverse, reverse-append, ◌++◌}
use Prim.Native.Nat.{ℕ}
use native.Mathlib.Omega.{arith}
use irc2torrent.Prelude.Tests.{Bool-cases}
use irc2torrent.Prelude.Lists.{all, all-append}
use irc2torrent.Prelude.Strings.{Text, trim, trim_start_of, trim_end_of, is_space}

pub all-reverse : (q : ℕ → Bool) (t : Text) → all q t ≡ true → all q (reverse t) ≡ true
all-reverse q [] h = refl
all-reverse q (c ∷ cs) h =
    rw (reverse-cons c cs) (all-append q (reverse cs) (c ∷ []) ∙ ground (arith, all-reverse q cs))

pub trim_start_of_nothing :
    (p : ℕ → Bool) (t : Text) → all (λ c. not (p c)) t ≡ true → trim_start_of p t ≡ t
trim_start_of_nothing p [] h = refl
trim_start_of_nothing p (c ∷ cs) h = ground arith

pub trim_end_of_nothing :
    (p : ℕ → Bool) (t : Text) → all (λ c. not (p c)) t ≡ true → trim_end_of p t ≡ t
trim_end_of_nothing p t h =
    rw (trim_start_of_nothing p (reverse t) (all-reverse (λ c. not (p c)) t h)) (reverse-reverse t)

pub trim_nothing : (t : Text) → all (λ c. not (is_space c)) t ≡ true → trim t ≡ t
trim_nothing t h = rw (trim_start_of_nothing is_space t h) (trim_end_of_nothing is_space t h)

pub trim_start_of_splits :
    (p : ℕ → Bool) (t : Text) → (cut : Text) × (t ≡ cut ++ trim_start_of p t) × (all p cut ≡ true)
trim_start_of_splits p [] = ([], refl, refl)
trim_start_of_splits p (c ∷ cs) = elim (Bool-cases (p c)) [
  | inl e ↦
      let (cut, whole, cuts) = trim_start_of_splits p cs in
      let longer : all p (c ∷ cut) ≡ true = rw (e, cuts) refl in
      rw e (c ∷ cut, ap (◌∷◌ c) whole, longer)
  | inr e ↦ rw e ([], refl, refl)
]

pub trim_end_of_splits :
    (p : ℕ → Bool) (t : Text) → (cut : Text) × (t ≡ trim_end_of p t ++ cut) × (all p cut ≡ true)
trim_end_of_splits p t =
    let (cut, whole, cuts) = trim_start_of_splits p (reverse t) in
    (
      reverse cut,
      sym (reverse-reverse t) ∙ ap reverse whole ∙ reverse-append cut (trim_start_of p (reverse t)),
      all-reverse p cut cuts,
    )
