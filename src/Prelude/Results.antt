-- ===== src/Prelude/Results.antt =====
-- `Result<A, E>`, with `?` as bind.
use mathlib.Core.Path.{◌≡◌, refl, sym, subst}
use irc2torrent.Prelude.Lists.{All}
use mathlib.Core.List.{List, [], ◌∷◌}
use mathlib.Core.Option.{Option, none, some}

pub data Result {ℓ κ} (E : Type κ) (A : Type ℓ) : Type (ℓ ⊔ κ) where
  ok : A → Result E A
  err : E → Result E A

module _ {ℓ κ μ} {E : Type κ} {A : Type ℓ} {B : Type μ} where
  infixl 5 ◌>>=◌
  abbrev pub ◌>>=◌ : Result E A → (A → Result E B) → Result E B
  err e >>= next = err e
  ok value >>= next = next value

  -- A chain that succeeds, taken apart.
  pub bind-eq-ok :
      {out : B} (first : Result E A) (next : A → Result E B)
      → first >>= next ≡ ok out
      → (value : A) × (first ≡ ok value) × (next value ≡ ok out)
  bind-eq-ok (err e) next h = cc
  bind-eq-ok (ok value) next h = (value, refl, h)

  -- And put together.
  pub bind-ok :
      (first : Result E A) (next : A → Result E B) (value : A) (out : B)
      → first ≡ ok value
      → next value ≡ ok out
      → first >>= next ≡ ok out
  bind-ok (err e) next value out h k = cc
  bind-ok (ok a) next value out h k = subst (λ r. r >>= next ≡ ok out) (sym h) k

  pub bind_cong :
      (m : Result E A) (f g : A → Result E B)
      → ((a : A) → m ≡ ok a → f a ≡ g a)
      → (m >>= f) ≡ (m >>= g)
  bind_cong (ok a) f g h = h a refl
  bind_cong (err _) f g h = refl

module _ {ℓ κ} {E : Type κ} {A : Type ℓ} where
  -- `Option::ok_or`
  abbrev pub ok_or : Option A → E → Result E A
  ok_or none e = err e
  ok_or (some a) e = ok a

  -- `e?;` for a check that yields nothing
  infixl 5 ◌>>◌
  abbrev pub ◌>>◌ : Result E (Unit {0}) → Result E A → Result E A
  m >> k = m >>= λ _. k

module _ {ℓ κ} {E : Type κ} {A : Type ℓ} where
  -- `for x in xs { f(x)?; }`
  abbrev pub for_each : (A → Result E (Unit {0})) → List A → Result E (Unit {0})
  for_each f [] = ok tt
  for_each f (x ∷ xs) = f x >> for_each f xs

  pub then-ok :
      (m : Result E (Unit {0})) (k : Result E A) (a : A) → m >> k ≡ ok a → (m ≡ ok tt) × (k ≡ ok a)
  then-ok (err e) k a h = cc
  then-ok (ok _) k a h = (refl, h)

  pub both-ok :
      (m : Result E (Unit {0})) (k : Result E A) (a : A) → m ≡ ok tt → k ≡ ok a → m >> k ≡ ok a
  both-ok (err e) k a h h' = cc
  both-ok (ok _) k a h h' = h'

module _ {ℓ κ μ} {E : Type κ} {A : Type ℓ} {B : Type μ} where
  -- `iter().map(f).collect::<Result<Vec<_>, _>>()`
  abbrev pub collect_results : (A → Result E B) → List A → Result E (List B)
  collect_results f [] = ok []
  collect_results f (x ∷ xs) = f x >>= λ b. collect_results f xs >>= λ bs. ok (b ∷ bs)

module _ {ℓ κ μ} {E : Type κ} {A : Type ℓ} where
  -- A loop that ends well has checked each element.
  pub for_each-ok :
      (Q : A → Type μ) (f : A → Result E (Unit {0})) (xs : List A)
      → ((x : A) → f x ≡ ok tt → Q x)
      → for_each f xs ≡ ok tt
      → All Q xs
  for_each-ok Q f [] each h = tt
  for_each-ok Q f (x ∷ xs) each h =
      let (first, later) = then-ok (f x) (for_each f xs) tt h in
      (each x first, for_each-ok Q f xs each later)
