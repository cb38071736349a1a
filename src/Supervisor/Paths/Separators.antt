-- ===== src/Supervisor/Paths/Separators.antt =====
-- src/supervisor.rs: a path from the environment has no separator at its end.
use irc2torrent.Prelude.{
  ℕ, ◌≡◌, ◌⊎◌, ◌∙◌, refl, inl, inr, false, [], ◌∷◌, ◌++◌, Text, codes, Option, is_empty, trim,
  trim_start_of, trim_end_of, Bool-cases, sym, ap, all, true, trim_end_of_splits,
}
use irc2torrent.Notify.Events.{unwrap_or}
use mathlib.Core.List.{reverse, reverse-cons}
use irc2torrent.Supervisor.Paths.{is_slash, ends_with_slash, normalised, env_or, env_path}

ends_with_slash-append : (t : Text) (c : ℕ) → ends_with_slash (t ++ c ∷ []) ≡ is_slash c
ends_with_slash-append [] c = refl
ends_with_slash-append (d ∷ []) c = refl
ends_with_slash-append (d ∷ e ∷ t) c = ends_with_slash-append (e ∷ t) c

ends_with_slash-reverse : (t : Text) → ends_with_slash (reverse (trim_start_of is_slash t)) ≡ false
ends_with_slash-reverse [] = refl
ends_with_slash-reverse (c ∷ cs) = elim (Bool-cases (is_slash c)) [
  | inl slash ↦ rw slash (ends_with_slash-reverse cs)
  | inr other ↦ rw (other, reverse-cons c cs) (ends_with_slash-append (reverse cs) c ∙ other)
]

-- What a path from the environment is: the default of a blank value, the root when there are only
-- separators, and otherwise the value without the separators at its end
abbrev pub IsNormalised : Text → Text → Text → Type 0
IsNormalised default value path =
    ((is_empty value ≡ true) × (path ≡ default))
    ⊎ ((slashes : Text) × (all is_slash slashes ≡ true)
        × (((value ≡ slashes) × (is_empty slashes ≡ false) × (path ≡ codes "/"))
            ⊎ ((value ≡ path ++ slashes)
                × (is_empty path ≡ false)
                × (ends_with_slash path ≡ false))))

normalised-IsNormalised :
    (env : Text → Option Text) (default value stripped slashes : Text)
    → value ≡ stripped ++ slashes
    → all is_slash slashes ≡ true
    → ends_with_slash stripped ≡ false
    → IsNormalised default value (normalised env default value stripped)
normalised-IsNormalised env default value [] slashes whole h last =
    elim (Bool-cases (is_empty value)) [
      | inl blank ↦ rw blank (inl (refl, refl))
      | inr filled ↦
          let some_slash : is_empty slashes ≡ false = sym (ap is_empty whole) ∙ filled in
          rw filled (inr (slashes, h, inl (whole, some_slash, refl)))
    ]
normalised-IsNormalised env default value (c ∷ stripped) slashes whole h last =
    inr (slashes, h, inr (whole, refl, last))

-- A path read from the environment is the default when the value that is set is blank, the root when
-- it holds only separators, and otherwise the trimmed value without the separators at its end, which
-- ends in none; the value is the default itself when none is set.
pub env_path-IsNormalised :
    (env : Text → Option Text) (key default : Text)
    → IsNormalised default (trim (unwrap_or (env key) default)) (env_path env key default)
unfolding env_path env_or
env_path-IsNormalised env key default =
    let value = trim (env_or env key default) in
    let (slashes, whole, h) = trim_end_of_splits is_slash value in
    normalised-IsNormalised env default value (trim_end_of is_slash value) slashes whole h
      (ends_with_slash-reverse (reverse value))
