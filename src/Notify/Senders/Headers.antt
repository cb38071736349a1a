-- ===== src/Notify/Senders/Headers.antt =====
-- src/notify.rs: what may stand in a header of a request to ntfy, and whom an email is sent as.
use irc2torrent.Prelude.{
  ℕ, ◌≤◌, ◌≡◌, refl, arith, inl, inr, true, not, [], ◌∷◌, map, Text, if◌then◌else◌, length,
  length-take, all, all-take, Bool-cases,
}
use irc2torrent.Notify.Senders.{is_control, sanitize_header}

printable : (c : ℕ) → not (is_control (if is_control c then 32 else c)) ≡ true
printable c = elim (Bool-cases (is_control c)) [
  | inl control ↦ rw control refl
  | inr plain ↦ rw plain (rw plain refl)
]

all_printable :
    (s : Text) → all (λ c. not (is_control c)) (map (λ c. if is_control c then 32 else c) s) ≡ true
all_printable [] = refl
all_printable (c ∷ s) = rw (printable c, all_printable s) refl

-- A header's value is at most 200 characters, and none of them is a control character, whatever the
-- torrent's name holds.
pub sanitize_header-printable :
    (s : Text)
    → (length (sanitize_header s) ≤ 200)
      × (all (λ c. not (is_control c)) (sanitize_header s) ≡ true)
unfolding sanitize_header
sanitize_header-printable s = (
  omega (arith, length-take 200 (map (λ c. if is_control c then 32 else c) s)),
  all-take (λ c. not (is_control c)) 200 (map (λ c. if is_control c then 32 else c) s)
      (all_printable s),
)
