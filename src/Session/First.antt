-- ===== src/Session/First.antt =====
-- What a session asks first of the client: the subscription of its first setup.
use astarte_device_sdk_cpp.Base.{
  ℕ, ◌≡◌, ◌⊎◌, inl, inr, refl, ap, ◌∙◌, subst, false, Option, none, some, List, [], ◌∷◌, ◌++◌, Text,
  ok, err, arith,
}
use astarte_device_sdk_cpp.Introspection.{Introspection}
use astarte_device_sdk_cpp.Session.{
  Session, Client, Identity, Request, subscribe, request, answered, and_then, give_up_on_error,
  setup_subscriptions, send_introspection, send_emptycache, perform_session_setup, on_connected,
  on_setup_success, on_setup_failure, on_connection_lost, on_disconnected,
}
use astarte_device_sdk_cpp.Session.Requests.{Outcome, and_then-keeps}

-- Nothing has been asked of the client.
pub record IsFresh (s : Session) : Type 0 where
  pub disconnected : s.connected ≡ false
  pub no_tokens : s.session_setup_tokens ≡ []
  pub no_requests : s.requests ≡ []

-- The first request was a subscription.
abbrev pub HasSubscribed : Session → Type 0
HasSubscribed s =
    (topics : List Text) × (qoss : List ℕ) × (rest : List Request) × (s.requests
      ≡ subscribe topics qoss ∷ rest)

abbrev pub SubscribesFirst : Session → Type 0
SubscribesFirst s = IsFresh s ⊎ HasSubscribed s

pub asked_more :
    (s s' : Session) (r : Request)
    → s'.requests ≡ s.requests ++ r ∷ []
    → HasSubscribed s
    → HasSubscribed s'
asked_more s s' r e (topics, qoss, rest, h) =
    (topics, qoss, rest ++ r ∷ [], e ∙ ap (λ l. l ++ r ∷ []) h)

request-requests :
    (client : Client) (s : Session) (r : Request)
    → (request client s r).0.requests ≡ s.requests ++ r ∷ []
unfolding request
request-requests client s r = from_answer (client s.requests r)
  where
    from_answer : (answer : Option ℕ) → (answered s r answer).0.requests ≡ s.requests ++ r ∷ []
    from_answer none = refl
    from_answer (some token) = refl

request-HasSubscribed :
    (client : Client) (s : Session) (r : Request)
    → HasSubscribed s
    → HasSubscribed (request client s r).0
request-HasSubscribed client s r h =
    asked_more s (request client s r).0 r (request-requests client s r) h

first_request :
    (client : Client) (s : Session) (topics : List Text) (qoss : List ℕ)
    → SubscribesFirst s
    → HasSubscribed (request client s (subscribe topics qoss)).0
first_request client s topics qoss (inr h) = request-HasSubscribed client s _ h
first_request client s topics qoss (inl fresh) = (
  topics,
  qoss,
  [],
  request-requests client s _ ∙ ap (λ l. l ++ subscribe topics qoss ∷ []) fresh.no_requests,
)

give_up-HasSubscribed : (m : Outcome) → HasSubscribed m.0 → HasSubscribed (give_up_on_error m)
give_up-HasSubscribed (s, ok _) h = h
give_up-HasSubscribed (s, err e) h =
    asked_more s (give_up_on_error (s, err e)) Request.disconnect refl h

pub on_connected-HasSubscribed :
    (client : Client) (self : Identity) (introspection : Introspection) (s : Session)
    → SubscribesFirst s
    → HasSubscribed (on_connected client self introspection s)
unfolding on_connected perform_session_setup setup_subscriptions send_introspection send_emptycache
on_connected-HasSubscribed client self introspection s h =
    let empties : Session → Outcome = send_emptycache client self introspection in
    let announces : Session → Outcome = send_introspection client self introspection in
    let rest : Session → Outcome = λ s1. and_then (announces s1) empties in
    give_up-HasSubscribed (perform_session_setup client self introspection false s) (
      and_then-keeps HasSubscribed (setup_subscriptions client self introspection s) rest
        (first_request client s _ _ h)
        (λ s1 h1.
          and_then-keeps HasSubscribed (announces s1) empties (request-HasSubscribed client s1 _ h1)
            (λ s2 h2. request-HasSubscribed client s2 _ h2)))

pub on_setup_success-SubscribesFirst :
    (s s' : Session) → on_setup_success s ≡ some s' → SubscribesFirst s → SubscribesFirst s'
unfolding on_setup_success
on_setup_success-SubscribesFirst s s' e (inl fresh) =
    let t = fresh.no_tokens in absurd (ground arith)
on_setup_success-SubscribesFirst s s' e (inr (topics, qoss, rest, h)) =
    inr (topics, qoss, rest, ground arith)

pub on_setup_failure-SubscribesFirst :
    (s s' : Session) → on_setup_failure s ≡ some s' → SubscribesFirst s → SubscribesFirst s'
unfolding on_setup_failure
on_setup_failure-SubscribesFirst s s' e h = let same : s ≡ s' = cc in subst SubscribesFirst same h

pub on_connection_lost-SubscribesFirst :
    (s : Session) → SubscribesFirst s → SubscribesFirst (on_connection_lost s)
unfolding on_connection_lost
on_connection_lost-SubscribesFirst s (inl fresh) =
    inl (record { disconnected = refl; no_tokens = refl; no_requests = fresh.no_requests })
on_connection_lost-SubscribesFirst s (inr h) = inr h

pub on_disconnected-SubscribesFirst :
    (s : Session) → SubscribesFirst s → SubscribesFirst (on_disconnected s)
unfolding on_disconnected
on_disconnected-SubscribesFirst s (inl fresh) =
    inl
      (record { disconnected = refl; no_tokens = fresh.no_tokens; no_requests = fresh.no_requests })
on_disconnected-SubscribesFirst s (inr h) = inr h
