-- ===== src/Irc/Whois/Cooldown.antt =====
-- src/irc_processor.rs: when a nick is left alone after failed identity checks.
use irc2torrent.Prelude.{
  ℕ, ◌+◌, ◌*◌, ◌/◌, ◌≤◌, ◌<◌, ◌≡◌, refl, ap, sym, ◌∙◌, false, ◌&&◌, List, [], ◌∷◌, Text, Option,
  none, some, if◌then◌else◌, ltb, length, ltb→lt, inl, inr, to_lower, text_eq, text_eq_iff,
  text_eq_refl, lookup, lookup-put, lookup-put-same, lookup-remove, remove, IsDistinct,
  lookup-retain, kept, arith, Bool-cases,
}
use irc2torrent.Irc.Whois.{
  WhoisCooldown, WhoisCooldowns, is_after, until_of, is_cooling, or_default, count_up, note_entry,
  note_failure, note_success, is_live, prune,
}

note_entry-until :
    (now t : ℕ) (o : Option WhoisCooldown)
    → is_after t (note_entry now (or_default o)).1.until
      ≡ (if (note_entry now (or_default o)).0 then ltb t (now + 600) else is_after t (until_of o))
unfolding note_entry
note_entry-until now t none = ground arith
note_entry-until now t (some c) = elim (Bool-cases (ltb (count_up c.failures) 3)) [
  | inl e ↦ rw e refl
  | inr e ↦ rw e refl
]

-- A failed check that starts a cooldown makes its nick, whatever the case it is written in, cool
-- until 600 seconds later and no longer; one that does not, and every other nick, stay as they were.
pub note_failure-is_cooling :
    (m : WhoisCooldowns) (nick other : Text) (now t : ℕ)
    → is_cooling other t (note_failure nick now m).1 ≡ (
        if (note_failure nick now m).0 && text_eq (to_lower nick) (to_lower other)
        then ltb t (now + 600)
        else is_cooling other t m)
unfolding is_cooling note_failure
note_failure-is_cooling m nick other now t =
    let entry = note_entry now (or_default (lookup (to_lower nick) m)) in
    let at_entry = note_entry-until now t (lookup (to_lower nick) m) in
    elim (Bool-cases (text_eq (to_lower nick) (to_lower other))) [
      | inl e ↦
          let same = (text_eq_iff (to_lower nick) (to_lower other)).0 e in
          let found = ap (λ k. is_after t (until_of (lookup k m))) same in
          rw (lookup-put (to_lower nick) (to_lower other) entry.1 m, e)
            (ground (arith, at_entry, found))
      | inr e ↦ rw (lookup-put (to_lower nick) (to_lower other) entry.1 m, e) (ground arith)
    ]

-- The failures of one nick, one after another: how many start a cooldown, and the record after them.
abbrev pub note_failures : Text → List ℕ → WhoisCooldowns → ℕ × WhoisCooldowns
note_failures nick [] m = (0, m)
note_failures nick (now ∷ times) m =
    let noted = note_failure nick now m in
    let rest = note_failures nick times noted.1 in ((if noted.0 then 1 else 0) + rest.0, rest.1)

-- The failures counted against a nick.
abbrev pub failures_of : Text → WhoisCooldowns → ℕ
failures_of nick m = (or_default (lookup (to_lower nick) m)).failures

note_entry-count :
    (now : ℕ) (c : WhoisCooldown)
    → c.failures < 3
    → ((if (note_entry now c).0 then 3 else 0) + (note_entry now c).1.failures ≡ c.failures + 1)
      × ((note_entry now c).1.failures < 3)
unfolding note_entry
note_entry-count now c h = elim (Bool-cases (ltb (count_up c.failures) 3)) [
  | inl e ↦ rw e (omega arith, ltb→lt (count_up c.failures) 3 e)
  | inr e ↦ rw e (ground arith, omega arith)
]

note_failures-balance :
    (nick : Text) (times : List ℕ) (m : WhoisCooldowns)
    → failures_of nick m < 3
    → (3 * (note_failures nick times m).0 + failures_of nick (note_failures nick times m).1
        ≡ failures_of nick m + length times)
      × (failures_of nick (note_failures nick times m).1 < 3)
unfolding note_failure
note_failures-balance nick [] m h = (omega arith, h)
note_failures-balance nick (now ∷ times) m h =
    let record_now = or_default (lookup (to_lower nick) m) in
    let (step, less) = note_entry-count now record_now h in
    let found = lookup-put-same (to_lower nick) (note_entry now record_now).1 m in
    let after = ap (λ o. (or_default o).failures) found in
    let (balance, small) =
      note_failures-balance nick times (note_failure nick now m).1 (omega (arith, after, less)) in
    (ground (arith, step, after, balance), small)

-- Of n failures in a row, from a nick with nothing counted against it, each third one and no other
-- starts a cooldown.
pub note_failures-third :
    (nick : Text) (times : List ℕ) (m : WhoisCooldowns)
    → failures_of nick m ≡ 0
    → (note_failures nick times m).0 ≡ length times / 3
note_failures-third nick times m h =
    let (balance, less) = note_failures-balance nick times m (omega arith) in omega arith

is_after-passed :
    (now t : ℕ) (until : Option ℕ) → now ≤ t → is_after now until ≡ false → is_after t until ≡ false
is_after-passed now t none le h = refl
is_after-passed now t (some until) le h = ground arith

keep-is_after :
    (now t : ℕ) (o : Option WhoisCooldown)
    → now ≤ t
    → (is_after t (until_of (kept (is_live now) o)) ≡ is_after t (until_of o))
      × ((or_default (kept (is_live now) o)).failures ≡ (or_default o).failures)
unfolding is_live
keep-is_after now t none le = (refl, refl)
keep-is_after now t (some c) le = elim (Bool-cases (is_live now c)) [
  | inl e ↦ rw e (refl, refl)
  | inr e ↦ rw e (sym (is_after-passed now t c.until le (ground arith)), ground arith)
]

-- Pruning at an instant changes nothing that is asked from that instant on, and a passed check
-- leaves its nick neither cooling nor part-way to a cooldown.
pub prune-is_cooling :
    (m : WhoisCooldowns) (nick : Text) (now t : ℕ)
    → IsDistinct m
    → now ≤ t
    → (is_cooling nick t (prune now m) ≡ is_cooling nick t m)
      × (failures_of nick (prune now m) ≡ failures_of nick m)
      × (is_cooling nick t (note_success nick m) ≡ false)
      × (failures_of nick (note_success nick m) ≡ 0)
unfolding is_cooling prune note_success
prune-is_cooling m nick now t h le =
    let (cooling, counted) = keep-is_after now t (lookup (to_lower nick) m) le in
    let found = lookup-retain (is_live now) (to_lower nick) m h in
    let gone : lookup (to_lower nick) (remove (to_lower nick) m) ≡ none =
      rw (lookup-remove (to_lower nick) (to_lower nick) m, text_eq_refl (to_lower nick)) refl in
    (
      ap (λ o. is_after t (until_of o)) found ∙ cooling,
      ap (λ o. (or_default o).failures) found ∙ counted,
      ap (λ o. is_after t (until_of o)) gone,
      ap (λ o. (or_default o).failures) gone,
    )
