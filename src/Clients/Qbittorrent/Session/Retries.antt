-- ===== src/Clients/Qbittorrent/Session/Retries.antt =====
-- src/clients/qbittorrent.rs: how often a request goes out, and whose answer comes back.
use irc2torrent.Prelude.{
  ◌==◌, ◌≡◌, ◌≢◌, ◌⊎◌, refl, inl, inr, arith, List, ◌∷◌, Option, none, some, Result, ok, err,
  if◌then◌else◌, Bool-cases, ==_iff,
}
use irc2torrent.Clients.Qbittorrent.Session.{
  Request, login, Response, Server, ClientError, Credentials, Call, ◌>>=◌, or_unreachable, exchange,
  login_answer, log_in, refuse_forbidden, resend, send_authed, forbidden,
}

-- An answer that a call hands on is the server's to the latest request, is not a refusal, and came
-- to the first request or, after a refusal and a login that the server took, to the second. A call
-- that fails has sent the request, then perhaps a login, then perhaps the request again.
unfoldable pub IsSettled : Server → Credentials → Request → List Request → Call Response → Type 0
IsSettled server c r sent (ok response, out) =
    (server out ≡ some response)
    × (response.status ≢ forbidden)
    × ((out ≡ r ∷ sent)
        ⊎ ((refused answer : Response) × (server (r ∷ sent) ≡ some refused)
            × (refused.status ≡ forbidden)
            × (server (login c.username c.password ∷ r ∷ sent) ≡ some answer)
            × (login_answer answer ≡ ok tt)
            × (out ≡ r ∷ login c.username c.password ∷ r ∷ sent)))
IsSettled server c r sent (err e, out) =
    (out ≡ r ∷ sent)
    ⊎ ((out ≡ login c.username c.password ∷ r ∷ sent)
        ⊎ (out ≡ r ∷ login c.username c.password ∷ r ∷ sent))

module _ (server : Server) (c : Credentials) (r : Request) (sent : List Request) where
  abbrev logged_in : List Request
  logged_in = login c.username c.password ∷ r ∷ sent

  IsSettled-second :
      (refused answer : Response) (second : Option Response)
      → server (r ∷ sent) ≡ some refused
      → refused.status ≡ forbidden
      → server logged_in ≡ some answer
      → login_answer answer ≡ ok tt
      → server (r ∷ logged_in) ≡ second
      → IsSettled server c r sent (
          (or_unreachable second, r ∷ logged_in) >>= λ retried out. (refuse_forbidden retried, out))
  unfolding IsSettled
  IsSettled-second refused answer none h hs ha hl e = inr (inr refl)
  IsSettled-second refused answer (some retried) h hs ha hl e =
      elim (Bool-cases (retried.status == forbidden)) [
        | inl again ↦ rw again (inr (inr refl))
        | inr fine ↦ rw fine (e, ground arith, inr (refused, answer, h, hs, ha, hl, refl))
      ]

  IsSettled-login :
      (refused answer : Response) (taken : Result ClientError (Unit {0}))
      → server (r ∷ sent) ≡ some refused
      → refused.status ≡ forbidden
      → server logged_in ≡ some answer
      → login_answer answer ≡ taken
      → IsSettled server c r sent (
          (taken, logged_in) >>= λ _ out.
          exchange server r out >>= λ retried out. (refuse_forbidden retried, out))
  unfolding IsSettled exchange
  IsSettled-login refused answer (err e) h hs ha hl = inr (inl refl)
  IsSettled-login refused answer (ok tt) h hs ha hl =
      IsSettled-second refused answer (server (r ∷ logged_in)) h hs ha hl refl

  IsSettled-answer :
      (refused : Response) (answer : Option Response)
      → server (r ∷ sent) ≡ some refused
      → refused.status ≡ forbidden
      → server logged_in ≡ answer
      → IsSettled server c r sent (
          ((or_unreachable answer, logged_in) >>= λ response out. (login_answer response, out))
          >>= λ _ out. exchange server r out >>= λ retried out. (refuse_forbidden retried, out))
  unfolding IsSettled
  IsSettled-answer refused none h hs ha = inr (inl refl)
  IsSettled-answer refused (some answer) h hs ha =
      IsSettled-login refused answer (login_answer answer) h hs ha refl

  IsSettled-first :
      (first : Option Response)
      → server (r ∷ sent) ≡ first
      → IsSettled server c r sent (
          (or_unreachable first, r ∷ sent) >>= λ response out.
          if response.status == forbidden then resend server c r out else (ok response, out))
  unfolding IsSettled resend log_in exchange
  IsSettled-first none h = inl refl
  IsSettled-first (some response) h = elim (Bool-cases (response.status == forbidden)) [
    | inl refused ↦ rw refused (
        IsSettled-answer response (server logged_in) h
          ((==_iff response.status forbidden).0 refused) refl)
    | inr fine ↦ rw fine (h, ground arith, inl refl)
  ]

-- A request is sent once, or twice with a login between, whatever the server answers; what a call
-- hands on is the server's answer to the last of them and never a refusal, and a call that fails has
-- sent no more than that.
pub send_authed-IsSettled :
    (server : Server) (c : Credentials) (r : Request) (sent : List Request)
    → IsSettled server c r sent (send_authed server c r sent)
unfolding send_authed exchange
send_authed-IsSettled server c r sent = IsSettled-first server c r sent (server (r ∷ sent)) refl
