-- ===== src/Supervisor/Services/Abandoned.antt =====
-- src/supervisor.rs: a service whose program could not be started.
use irc2torrent.Prelude.{
  ℕ, zero, suc, ◌+◌, ◌<◌, ◌≡◌, ◌≢◌, refl, ap, subst, sym, ◌∙◌, inl, inr, ◌==◌, true, false, List,
  [], ◌∷◌, Option, none, some, if◌then◌else◌, get_elem?, arith, Bool-cases,
}
use irc2torrent.Supervisor.Services.{
  Service, Supervisor, lookup_pid, remove_pid, insert_pid, update_at, exited, exit_of, reap, is_due,
  started_with, known_as, restart_from, restart, Step, reaped, restarted, Run, here, next,
}

-- A service that does not run and is not to be restarted.
abbrev IsIdle : Service → Type 0
IsIdle svc = (svc.child ≡ none) × (svc.restart_at ≡ none)

-- Some service stands at the index, and it is idle.
abbrev IsIdleAt : ℕ → List Service → Type 0
IsIdleAt index services = (svc : Service) × (get_elem? services index ≡ some svc) × IsIdle svc

-- No pid is known for the index.
abbrev pub IsUnknown : ℕ → List (ℕ × ℕ) → Type 0
IsUnknown index by_pid = (pid : ℕ) → lookup_pid pid by_pid ≢ some index

-- A service that nothing will start again.
abbrev pub IsAbandoned : ℕ → Supervisor → Type 0
IsAbandoned index s = IsIdleAt index s.services × IsUnknown index s.by_pid

lookup_pid-remove :
    (pid p : ℕ) (by_pid : List (ℕ × ℕ))
    → lookup_pid p (remove_pid pid by_pid) ≡ (if pid == p then none else lookup_pid p by_pid)
lookup_pid-remove pid p [] = ground arith
lookup_pid-remove pid p ((q, i) ∷ by_pid) = ground (arith, lookup_pid-remove pid p by_pid)

none_found : {index : ℕ} → none ≢ some index
none_found h = cc

same_some {ℓ} : {A : Type ℓ} {a b : A} → some a ≡ some b → a ≡ b
same_some h = cc

remove-IsUnknown :
    (index pid : ℕ) (by_pid : List (ℕ × ℕ))
    → IsUnknown index by_pid
    → IsUnknown index (remove_pid pid by_pid)
remove-IsUnknown index pid by_pid h p found =
    let kept = sym (lookup_pid-remove pid p by_pid) ∙ found in
    elim (Bool-cases (pid == p)) [
      | inl e ↦ none_found (sym (ap (λ b. if b then none else lookup_pid p by_pid) e) ∙ kept)
      | inr e ↦ h p (sym (ap (λ b. if b then none else lookup_pid p by_pid) e) ∙ kept)
    ]

insert-IsUnknown :
    (index other pid : ℕ) (by_pid : List (ℕ × ℕ))
    → index ≢ other
    → IsUnknown index by_pid
    → IsUnknown index (insert_pid pid other by_pid)
insert-IsUnknown index other pid by_pid differs h p found = elim (Bool-cases (pid == p)) [
  | inl e ↦ differs (
      sym (
        same_some (
          sym (ap (λ b. if b then some other else lookup_pid p (remove_pid pid by_pid)) e)
          ∙ found)))
  | inr e ↦
      remove-IsUnknown index pid by_pid h p
        (sym (ap (λ b. if b then some other else lookup_pid p (remove_pid pid by_pid)) e) ∙ found)
]

known_as-IsUnknown :
    (index other : ℕ) (pid : Option ℕ) (by_pid : List (ℕ × ℕ))
    → index ≢ other
    → IsUnknown index by_pid
    → IsUnknown index (known_as other pid by_pid)
known_as-IsUnknown index other none by_pid differs h = h
known_as-IsUnknown index other (some pid) by_pid differs h =
    insert-IsUnknown index other pid by_pid differs h

get_elem?-update {ℓ} :
    {A : Type ℓ} (index other : ℕ) (f : A → A) (xs : List A)
    → index ≢ other
    → get_elem? (update_at other f xs) index ≡ get_elem? xs index
get_elem?-update index other f [] differs = refl
get_elem?-update zero zero f (x ∷ xs) differs = absurd (differs refl)
get_elem?-update zero (suc other) f (x ∷ xs) differs = refl
get_elem?-update (suc index) zero f (x ∷ xs) differs = refl
get_elem?-update (suc index) (suc other) f (x ∷ xs) differs =
    get_elem?-update index other f xs (λ e. differs (ap suc e))

exit_of-IsAbandoned :
    (index pid now : ℕ) (o : Option ℕ) (s : Supervisor)
    → o ≢ some index
    → IsAbandoned index s
    → IsAbandoned index (exit_of pid now o s).1
unfolding exit_of
exit_of-IsAbandoned index pid now none s other h = h
exit_of-IsAbandoned index pid now (some i) s other ((svc, at, idle), unknown) = (
  (svc, get_elem?-update index i (exited now) s.services (λ e. other (ap some (sym e))) ∙ at, idle),
  remove-IsUnknown index pid s.by_pid unknown,
)

-- Restarting the services from one index on makes no pid known for an index before it.
later-IsUnknown :
    (spawn : ℕ → Option ℕ) (now base index : ℕ) (services : List Service) (by_pid : List (ℕ × ℕ))
    → index < base
    → IsUnknown index by_pid
    → IsUnknown index (restart_from spawn now base services by_pid).1
later-IsUnknown spawn now base index [] by_pid before h = h
later-IsUnknown spawn now base index (svc ∷ services) by_pid before h =
    elim (Bool-cases (is_due now svc.restart_at)) [
      | inl e ↦ rw e (
          later-IsUnknown spawn now (suc base) index services (known_as base (spawn base) by_pid)
            (omega arith)
            (known_as-IsUnknown index base (spawn base) by_pid (λ same. omega arith) h))
      | inr e ↦ rw e (later-IsUnknown spawn now (suc base) index services by_pid (omega arith) h)
    ]

-- The state of the services at one index, in a list that begins at another.
abbrev IsLeft : ℕ → ℕ → List Service × List (ℕ × ℕ) → Type 0
IsLeft base i (services, by_pid) = IsIdleAt i services × IsUnknown (base + i) by_pid

restart_from-IsLeft :
    (spawn : ℕ → Option ℕ) (now base i : ℕ) (services : List Service) (by_pid : List (ℕ × ℕ))
    → IsLeft base i (services, by_pid)
    → IsLeft base i (restart_from spawn now base services by_pid)
restart_from-IsLeft spawn now base i [] by_pid ((svc, at, idle), unknown) = absurd cc
restart_from-IsLeft spawn now base zero (x ∷ services) by_pid ((svc, at, idle), unknown) =
    let same : x ≡ svc = same_some at in
    let quiet : is_due now x.restart_at ≡ false =
      ap (λ s. is_due now s.restart_at) same ∙ ap (is_due now) idle.1 in
    rw quiet (
      (svc, at, idle),
      later-IsUnknown spawn now (suc base) (base + 0) services by_pid (omega arith) unknown,
    )
restart_from-IsLeft spawn now base (suc i) (x ∷ services) by_pid (idle, unknown) =
    let moved : base + suc i ≡ suc base + i = omega arith in
    elim (Bool-cases (is_due now x.restart_at)) [
      | inl e ↦
          let pids = known_as base (spawn base) by_pid in
          let still =
            known_as-IsUnknown (base + suc i) base (spawn base) by_pid (λ same. omega arith)
              unknown in
          let (left, none_known) =
            restart_from-IsLeft spawn now (suc base) i services pids
              (idle, subst (λ j. IsUnknown j pids) moved still) in
          rw (e, moved) (left, none_known)
      | inr e ↦
          let (left, none_known) =
            restart_from-IsLeft spawn now (suc base) i services by_pid
              (idle, subst (λ j. IsUnknown j by_pid) moved unknown) in
          rw (e, moved) (left, none_known)
    ]

Step-IsAbandoned :
    {s t : Supervisor} (index : ℕ) → Step s t → IsAbandoned index s → IsAbandoned index t
unfolding reap restart
Step-IsAbandoned index (reaped s pid now) (idle, unknown) =
    exit_of-IsAbandoned index pid now (lookup_pid pid s.by_pid) s (unknown pid) (idle, unknown)
Step-IsAbandoned index (restarted s spawn now) (idle, unknown) =
    let from_zero : index ≡ 0 + index = omega arith in
    let (left, none_known) =
      restart_from-IsLeft spawn now 0 index s.services s.by_pid
        (idle, subst (λ j. IsUnknown j s.by_pid) from_zero unknown) in
    (left, subst (λ j. IsUnknown j (restart spawn now s).by_pid) (sym from_zero) none_known)

Run-IsAbandoned :
    {s t : Supervisor} (index : ℕ) → Run s t → IsAbandoned index s → IsAbandoned index t
Run-IsAbandoned index here h = h
Run-IsAbandoned index (next run step) h = Step-IsAbandoned index step (Run-IsAbandoned index run h)

-- A service that is down and due at one position of a list.
abbrev pub IsDueAt : ℕ → ℕ → List Service → Type 0
IsDueAt now i services =
    (svc : Service) × (get_elem? services i ≡ some svc)
    × (svc.child ≡ none)
    × (is_due now svc.restart_at ≡ true)

restart_from-failed :
    (spawn : ℕ → Option ℕ) (now base i : ℕ) (services : List Service) (by_pid : List (ℕ × ℕ))
    → IsDueAt now i services
    → spawn (base + i) ≡ none
    → IsUnknown (base + i) by_pid
    → IsLeft base i (restart_from spawn now base services by_pid)
unfolding started_with
restart_from-failed spawn now base i [] by_pid (svc, at, down, due) fails unknown = absurd cc
restart_from-failed spawn now base zero (x ∷ services) by_pid (svc, at, down, due) fails unknown =
    let same : x ≡ svc = same_some at in
    let due_now : is_due now x.restart_at ≡ true = ap (λ s. is_due now s.restart_at) same ∙ due in
    let no_pid : spawn base ≡ none = ap spawn (omega arith) ∙ fails in
    rw (due_now, no_pid)
      (
        (record x { restart_at = none }, refl, (ap (λ s. s.child) same ∙ down, refl)),
        later-IsUnknown spawn now (suc base) (base + 0) services by_pid (omega arith) unknown,
      )
restart_from-failed spawn now base (suc i) (x ∷ services) by_pid idle fails unknown =
    let moved : base + suc i ≡ suc base + i = omega arith in
    let fails_there : spawn (suc base + i) ≡ none = ap spawn (sym moved) ∙ fails in
    elim (Bool-cases (is_due now x.restart_at)) [
      | inl e ↦
          let pids = known_as base (spawn base) by_pid in
          let still =
            known_as-IsUnknown (base + suc i) base (spawn base) by_pid (λ same. omega arith)
              unknown in
          let (left, none_known) =
            restart_from-failed spawn now (suc base) i services pids idle fails_there
              (subst (λ j. IsUnknown j pids) moved still) in
          rw (e, moved) (left, none_known)
      | inr e ↦
          let (left, none_known) =
            restart_from-failed spawn now (suc base) i services by_pid idle fails_there
              (subst (λ j. IsUnknown j by_pid) moved unknown) in
          rw (e, moved) (left, none_known)
    ]

-- A service whose program cannot be started when its restart is due is down for good: whatever is
-- reaped or restarted after that, it neither runs nor is it to be restarted.
pub restart-IsAbandoned :
    (spawn : ℕ → Option ℕ) (now index : ℕ) (s t : Supervisor)
    → IsDueAt now index s.services
    → spawn index ≡ none
    → IsUnknown index s.by_pid
    → Run (restart spawn now s) t
    → IsAbandoned index t
unfolding restart
restart-IsAbandoned spawn now index s t due fails unknown run =
    let from_zero : index ≡ 0 + index = omega arith in
    let (left, none_known) =
      restart_from-failed spawn now 0 index s.services s.by_pid due
        (ap spawn (sym from_zero) ∙ fails) (subst (λ j. IsUnknown j s.by_pid) from_zero unknown) in
    Run-IsAbandoned index run
      (left, subst (λ j. IsUnknown j (restart spawn now s).by_pid) (sym from_zero) none_known)
