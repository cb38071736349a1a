-- ===== src/Irc/Connection/Outage.antt =====
-- src/irc_processor.rs: for how long the link has been down when an outage is reported.
use irc2torrent.Prelude.{
  ℕ, ◌-◌, ◌≤◌, ◌≡◌, ◌⊎◌, ap, refl, subst, append_assoc, inl, inr, Bool, true, false, not, ◌&&◌,
  List, [], ◌∷◌, ◌++◌, Option, none, some, if◌then◌else◌, leb, All, All-append, Bool-cases, arith,
}
use irc2torrent.Irc.Connection.{
  Link, Report, irc_reconnected, irc_disconnected, Attempt, connected, report_down, wait_retry,
  or_now, try_once, listen,
}

-- The attempt made no connection.
abbrev pub IsFailed : Attempt → Type 0
IsFailed a = a.connection ≡ none

-- Among these attempts, the last ended n seconds, sixty or more, after the first, and none of those after
-- the first, the last included, made a connection.
abbrev pub IsOutage : List Attempt → ℕ → Type 0
IsOutage tries n =
    (before : List Attempt) × (first : Attempt) × (between : List Attempt) × (last : Attempt)
    × (after : List Attempt) × (tries ≡ before ++ (first ∷ (between ++ (last ∷ after))))
    × All IsFailed between
    × IsFailed last
    × (last.ended - first.ended ≡ n)
    × (60 ≤ n)

-- A reported outage is one of these attempts'.
abbrev pub IsTrue : List Attempt → Report → Type 0
IsTrue tries (irc_disconnected n) = IsOutage tries n
IsTrue tries (irc_reconnected n) = Unit

-- What `down_since` holds is when the first attempt ended after which none made a connection.
abbrev IsSince : List Attempt → Option ℕ → Type 0
IsSince past none = Unit
IsSince past (some t) =
    (before : List Attempt) × (first : Attempt) × (between : List Attempt) × (past
      ≡ before ++ (first ∷ between))
    × All IsFailed between
    × (first.ended ≡ t)

connected-IsTrue :
    (tries : List Attempt) (l : Link) (o : Option (ℕ × ℕ)) → All (IsTrue tries) (connected l o).0
unfolding connected
connected-IsTrue tries l none = tt
connected-IsTrue tries l (some (made, uptime)) = elim (Bool-cases l.reported_down) [
  | inl e ↦ rw e (tt, tt)
  | inr e ↦ rw e tt
]

reported-IsTrue :
    (tries : List Attempt) (down : Bool) (n : ℕ)
    → (60 ≤ n → IsOutage tries n)
    → All (IsTrue tries) (if not down && leb 60 n then irc_disconnected n ∷ [] else [])
reported-IsTrue tries true n h = tt
reported-IsTrue tries false n h = elim (Bool-cases (leb 60 n)) [
  | inl e ↦ let long : 60 ≤ n = ground (arith, e) in rw e (h long, tt)
  | inr e ↦ rw e tt
]

-- One attempt, given since when the link was down before it and whether that has ended
IsSince-IsTrue :
    (past : List Attempt) (a : Attempt) (after : List Attempt) (down : Bool) (since : Option ℕ)
    → IsSince past since
    → (since ≡ none) ⊎ IsFailed a
    → All (IsTrue (past ++ (a ∷ after))) (
        if not down && leb 60 (a.ended - or_now a.ended since)
        then irc_disconnected (a.ended - or_now a.ended since) ∷ []
        else [])
      × IsSince (past ++ (a ∷ [])) (some (or_now a.ended since))
IsSince-IsTrue past a after down none known how = (
  reported-IsTrue (past ++ (a ∷ after)) down (a.ended - a.ended) (λ long. absurd (omega arith)),
  (past, a, [], refl, tt, refl),
)
IsSince-IsTrue past a after down (some t) known (inl h) = absurd cc
IsSince-IsTrue past a after down (some t) (before, first, between, same, failed, at)
      (inr none_made) =
    let whole : past ++ (a ∷ after) ≡ before ++ (first ∷ (between ++ (a ∷ after))) =
      rw (same, append_assoc before (first ∷ between) (a ∷ after)) refl in
    let now_past : past ++ (a ∷ []) ≡ before ++ (first ∷ (between ++ (a ∷ []))) =
      rw (same, append_assoc before (first ∷ between) (a ∷ [])) refl in
    (
      reported-IsTrue (past ++ (a ∷ after)) down (a.ended - t) (λ long. (
        before,
        first,
        between,
        a,
        after,
        whole,
        failed,
        none_made,
        ap (λ x. a.ended - x) at,
        long,
      )),
      (
        before,
        first,
        between ++ (a ∷ []),
        now_past,
        All-append IsFailed between (a ∷ []) failed (none_made, tt),
        at,
      ),
    )

connected-IsSince :
    (past : List Attempt) (l : Link) (a : Attempt) (o : Option (ℕ × ℕ))
    → a.connection ≡ o
    → IsSince past l.down_since
    → IsSince past (connected l o).1.down_since
      × (((connected l o).1.down_since ≡ none) ⊎ IsFailed a)
unfolding connected
connected-IsSince past l a none same h = (h, inr same)
connected-IsSince past l a (some (made, uptime)) same h = (tt, inl refl)

pub listen-IsTrue :
    (past : List Attempt) (l : Link) (tries : List Attempt)
    → IsSince past l.down_since
    → All (IsTrue (past ++ tries)) (listen l tries).0
unfolding try_once report_down wait_retry
listen-IsTrue past l [] h = tt
listen-IsTrue past l (a ∷ tries) h =
    let up = connected l a.connection in
    let (known, how) = connected-IsSince past l a a.connection refl h in
    let (down, next) = IsSince-IsTrue past a tries up.1.reported_down up.1.down_since known how in
    let all = past ++ (a ∷ tries) in
    let rest = listen-IsTrue (past ++ (a ∷ [])) (try_once l a).link tries next in
    let later =
      subst (λ ts. All (IsTrue ts) (listen (try_once l a).link tries).0)
        (append_assoc past (a ∷ []) tries) rest in
    let now = report_down a.ended up.1 in
    All-append (IsTrue all) (up.0 ++ now.0) (listen (try_once l a).link tries).0
      (All-append (IsTrue all) up.0 now.0 (connected-IsTrue all l a.connection) down) later
