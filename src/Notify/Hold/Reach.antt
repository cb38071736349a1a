-- ===== src/Notify/Hold/Reach.antt =====
-- src/notify.rs: what becomes of a message and of a retry, given the link.
use irc2torrent.Prelude.{
  ℕ, ◌+◌, ◌-◌, ◌≤◌, ◌==◌, ==_iff, min, ◌≡◌, ◌⊎◌, ◌∙◌, refl, sym, subst, Bool, true, false, List, [],
  ◌∷◌, ◌++◌, Text, Option, none, some, Result, ok, err, ap, inl, inr, take, drop, length,
  length-drop, length-append, append-take-drop, arith, Bool-cases, if◌then◌else◌,
}
use irc2torrent.Irc.Outbound.{Outbound}
use irc2torrent.Notify.Hold.{
  Held, IrcBackend, hold, set_sender, deliver_online, deliver_link, deliver, retry_link,
  retry_pending, flush_held, write, write_all, fresh,
}
use irc2torrent.Notify.Hold.Flush.{IsAway, deliver-away, hold-link}

-- What both branches of a test keep, the test keeps.
either_kept :
    {A : Type 0} (f : A → Bool) (b : Bool) (x y : A) (kept : Bool)
    → f x ≡ kept
    → f y ≡ kept
    → f (if b then x else y) ≡ kept
either_kept f true x y kept hx hy = hx
either_kept f false x y kept hx hy = hy

hold-owner_online :
    (now : ℕ) (subject body : Text) (s : IrcBackend)
    → (hold now subject body s).link.owner_online ≡ s.link.owner_online
hold-owner_online now subject body s = ap (λ l. l.owner_online) (hold-link now subject body s).0

deliver_link-owner_online :
    (sender : Option Outbound) (now : ℕ) (subject body : Text) (s : IrcBackend)
    → (deliver_link sender now subject body s).1.link.owner_online ≡ s.link.owner_online
unfolding deliver_link deliver_online set_sender
deliver_link-owner_online none now subject body s = hold-owner_online now subject body s
deliver_link-owner_online (some o) now subject body s =
    either_kept (λ (r : Result Text (Unit {0}) × IrcBackend). r.1.link.owner_online)
      s.link.owner_online _ _ s.link.owner_online refl (hold-owner_online now subject body s)

retry_link-owner_online :
    (sender : Option Outbound) (now : ℕ) (s : IrcBackend)
    → (retry_link sender now s).link.owner_online ≡ s.link.owner_online
unfolding retry_link flush_held
retry_link-owner_online none now s = refl
retry_link-owner_online (some o) now s =
    either_kept (λ (t : IrcBackend). t.link.owner_online) s.link.owner_online _ s
      s.link.owner_online refl refl

pub deliver-owner_online :
    (now : ℕ) (subject body : Text) (s : IrcBackend)
    → (deliver now subject body s).1.link.owner_online ≡ s.link.owner_online
unfolding deliver
deliver-owner_online now subject body s = deliver_link-owner_online s.link.sender now subject body s

pub retry_pending-owner_online :
    (now : ℕ) (s : IrcBackend) → (retry_pending now s).link.owner_online ≡ s.link.owner_online
unfolding retry_pending
retry_pending-owner_online now s = retry_link-owner_online s.link.sender now s

-- A message that is not sent is held, with the latest before it up to twenty, unless nothing is to be held.
abbrev pub IsKept : ℕ → Text → Text → IrcBackend → Result Text (Unit {0}) × IrcBackend → Type 0
IsKept now subject body s (result, after) =
    ((reason : Text) × (result ≡ err reason))
    × (after.link ≡ s.link)
    × (((s.hold_for ≡ 0) × (after.pending ≡ s.pending))
        ⊎ ((1 ≤ s.hold_for)
            × ((forgotten : List Held) × (forgotten ++ after.pending
                  ≡ s.pending ++ (record { at = now; subject = subject; body = body } ∷ []))
                × (length after.pending ≡ min 20 (length s.pending + 1)))))

pair_eq : {A B : Type 0} {p : A × B} {a : A} {b : B} → p.0 ≡ a → p.1 ≡ b → p ≡ (a, b)
pair_eq ha hb = λ i. (ha i, hb i)

drop-latest :
    (queue : List Held) (held : List Held) (m : Held)
    → queue ≡ held ++ (m ∷ [])
    → (forgotten : List Held) × (forgotten ++ drop (length queue - 20) queue ≡ held ++ (m ∷ []))
      × (length (drop (length queue - 20) queue) ≡ min 20 (length held + 1))
drop-latest queue held m h = (
  take (length queue - 20) queue,
  append-take-drop (length queue - 20) queue ∙ h,
  omega (
    arith,
    length-drop (length queue - 20) queue,
    length-append held (m ∷ []),
    ap (λ q. length q) h,
  ),
)

hold-IsKept :
    (now : ℕ) (subject body reason : Text) (s : IrcBackend)
    → IsKept now subject body s (err reason, hold now subject body s)
unfolding hold
hold-IsKept now subject body reason s = elim (Bool-cases (s.hold_for == 0)) [
  | inl e ↦ rw e ((reason, refl), refl, inl ((==_iff s.hold_for 0).0 e, refl))
  | inr e ↦
      let m : Held = record { at = now; subject = subject; body = body } in
      let some_time : 1 ≤ s.hold_for = ground (arith, e) in
      rw e (
        (reason, refl),
        refl,
        inr (some_time, drop-latest (s.pending ++ (m ∷ [])) s.pending m refl),
      )
]

away-IsKept :
    (now : ℕ) (subject body : Text) (s : IrcBackend)
    → IsAway s
    → IsKept now subject body s (deliver now subject body s)
away-IsKept now subject body s h =
    let ((reason, failed), held) = deliver-away now subject body s h in
    subst (λ r. IsKept now subject body s r) (sym (pair_eq failed held))
      (hold-IsKept now subject body reason s)

-- What becomes of a message and of a retry, given whether the owner is there and the connection's pacer
abbrev pub IsReached : Bool → Option Outbound → ℕ → Text → Text → IrcBackend → Type 0
IsReached true (some o) now subject body s =
    ((deliver now subject body s).0 ≡ ok tt)
    × ((deliver now subject body s).1.pending ≡ [])
    × ((deliver now subject body s).1.link.sender
        ≡ some (write s.nick subject body (write_all s.nick (fresh now s) o)))
IsReached true none now subject body s =
    IsKept now subject body s (deliver now subject body s) × (retry_pending now s ≡ s)
IsReached false sender now subject body s =
    IsKept now subject body s (deliver now subject body s) × (retry_pending now s ≡ s)

pub link-IsReached :
    (online : Bool) (sender : Option Outbound) (now : ℕ) (subject body : Text) (s : IrcBackend)
    → s.link.owner_online ≡ online
    → s.link.sender ≡ sender
    → IsReached online sender now subject body s
unfolding deliver deliver_link deliver_online set_sender retry_pending retry_link
link-IsReached true (some o) now subject body s here link = rw (link, here) (refl, refl, refl)
link-IsReached true none now subject body s here link =
    (away-IsKept now subject body s (inl link), rw link refl)
link-IsReached false none now subject body s here link =
    (away-IsKept now subject body s (inr here), rw link refl)
link-IsReached false (some o) now subject body s here link =
    (away-IsKept now subject body s (inr here), rw (link, here) refl)
