-- ===== src/Router/Attempts/Grounds.antt =====
-- The grounds of an answer, and what holds where an attempt leaves the loop.
use llm_api_router.Prelude.{
  ℕ, ℤ, ◌≡◌, Bool, true, false, not, ◌||◌, Option, none, some, List, [], ◌∷◌, is_some, ◌⊎◌,
  get_elem?,
}
use llm_api_router.Convert.Plan.{Plan, Refusal, Decision, decide, planned, refused}
use llm_api_router.Router.State.{ServerAttempt}
use llm_api_router.Router.Budget.{TransportError}
use llm_api_router.Router.World.{
  World, Request, Outcome, Loop, Answer, relayed, broken_off, client_left, rewrite_error,
  refused_400, last_answer, bad_gateway, no_backend, SendError, transport_error, buffered_error,
  served, disconnected, mid_stream, transport, buffered, rewrite_failed, conversion_refused,
}
use llm_api_router.Router.Attempts.{forced_convert}

-- A backend sent this at some try.
abbrev pub SentBuffered : World → ℕ → ℕ → Type 0
SentBuffered w i status =
    (retry : ℕ) × (pause : ℤ) × (used : ℤ) × (leaves : Bool) × (w.backend i retry
      ≡ buffered status pause used leaves)

abbrev pub SentTransport : World → TransportError → Type 0
SentTransport w e =
    (i : ℕ) × (retry : ℕ) × (used : ℤ) × (leaves : Bool) × (w.backend i retry
      ≡ transport e used leaves)

-- What a try says of a client that is gone.
abbrev pub client_gone : Outcome → Bool
client_gone (disconnected used) = true
client_gone (transport e used leaves) = leaves
client_gone (buffered status pause used leaves) = leaves
client_gone _ = false

abbrev pub decision : Request → ServerAttempt → Decision
decision q a = decide q.dialect q.path a.server.protocols (forced_convert q a)

-- The backend of an attempt cannot be spoken to: its plan, or the conversion that it asks for, is
-- refused.
abbrev pub IsRefused : Request → ServerAttempt → Type 0
IsRefused q a =
    ((why : Refusal) × (decision q a ≡ refused why))
    ⊎ ((p : Plan) × (decision q a ≡ planned p) × (q.prepare a p ≡ conversion_refused))

abbrev pub last_attempt : List ServerAttempt → Option ServerAttempt
last_attempt [] = none
last_attempt (a ∷ []) = some a
last_attempt (a ∷ b ∷ as_) = last_attempt (b ∷ as_)

-- The answer is what a backend sent at some try, or the client was gone at one, or the body of an
-- attempt could not be rewritten, or the backend of the last attempt cannot be spoken to, or a try
-- failed in the transport.
abbrev pub IsGrounded : World → Request → List ServerAttempt → Answer → Type 0
IsGrounded w q as_ (relayed i status) =
    (retry : ℕ) × (pause : ℤ) × (used : ℤ) × (w.backend i retry ≡ served status pause used)
IsGrounded w q as_ (broken_off i status) =
    (retry : ℕ) × (pause : ℤ) × (used : ℤ) × (w.backend i retry ≡ mid_stream status pause used)
IsGrounded w q as_ (client_left i) = (retry : ℕ) × (client_gone (w.backend i retry) ≡ true)
IsGrounded w q as_ (rewrite_error i) =
    (a : ServerAttempt) × (p : Plan) × (get_elem? as_ i ≡ some a)
    × (decision q a ≡ planned p)
    × (q.prepare a p ≡ rewrite_failed)
IsGrounded w q as_ refused_400 = (a : ServerAttempt) × (last_attempt as_ ≡ some a) × IsRefused q a
IsGrounded w q as_ (last_answer i status) = SentBuffered w i status
IsGrounded w q as_ (bad_gateway none) = ⊥
IsGrounded w q as_ (bad_gateway (some (transport_error e))) = SentTransport w e
IsGrounded w q as_ (bad_gateway (some (buffered_error status))) = ⊥
IsGrounded w q as_ no_backend = ⊥

abbrev pub HeldFrom : World → Option (ℕ × ℕ) → Type 0
HeldFrom w none = Unit
HeldFrom w (some (i, status)) = SentBuffered w i status

abbrev pub ErrFrom : World → Option (ℕ × ℕ) → Option SendError → Type 0
ErrFrom w back none = Unit
ErrFrom w back (some (transport_error e)) = SentTransport w e
ErrFrom w back (some (buffered_error status)) = is_some back ≡ true

abbrev pub IsSound : World → Loop → Type 0
IsSound w l = HeldFrom w l.held_back × ErrFrom w l.held_back l.last_err

abbrev pub is_gateway : Answer → Bool
is_gateway (bad_gateway e) = true
is_gateway _ = false

-- Only the last attempt notes a refusal.
abbrev pub MayRefuse : Request → List ServerAttempt → Bool → Bool → Type 0
MayRefuse q as_ is_last refusal =
    (refusal ≡ false)
    ⊎ ((is_last ≡ true) × ((a : ServerAttempt) × (last_attempt as_ ≡ some a) × IsRefused q a))

-- Where an attempt leaves things; a last one leaves an error or a refusal.
abbrev pub IsStep : World → Request → List ServerAttempt → Bool → Loop → Option Answer → Type 0
IsStep w q as_ is_last l (some x) = IsGrounded w q as_ x × (is_gateway x ≡ false)
IsStep w q as_ is_last l none =
    IsSound w l
    × MayRefuse q as_ is_last l.refusal
    × ((not is_last || (l.refusal || is_some l.last_err)) ≡ true)
