-- ===== src/Session/Requests.antt =====
-- What the calls of the client do to the session.
use astarte_device_sdk_cpp.Base.{
  ℕ, ◌≡◌, refl, sym, ap, ◌∙◌, false, Option, none, some, List, [], ◌∷◌, ◌++◌, codes, length, Result,
  ok, err,
}
use mathlib.Core.List.{append_assoc}
use astarte_device_sdk_cpp.Introspection.{Introspection, values}
use astarte_device_sdk_cpp.Session.{
  Session, Client, Identity, Request, subscribe, publish, base_topic, subscription_topics, twos,
  introspection_payload, request, answered, setup_subscriptions, send_introspection,
  send_emptycache, and_then, perform_session_setup,
}

-- The requests of a whole setup, in their order.
abbrev pub setup_requests : Identity → Introspection → List Request
setup_requests self introspection =
    let topics = subscription_topics self (values introspection) in
    subscribe topics (twos topics)
    ∷ publish (base_topic self) (introspection_payload (values introspection)) 2 false
    ∷ publish (base_topic self ++ codes "/control/emptyCache") (codes "1") 2 false
    ∷ []

-- The session after a call that the client accepts.
abbrev accepted : Session → ℕ → Request → Session
accepted s token r = record s {
  session_setup_tokens = s.session_setup_tokens ++ token ∷ [];
  requests = s.requests ++ r ∷ [];
}

-- The state and the outcome.
abbrev pub Outcome : Type 0
Outcome = Session × Result (Unit {0})

request-and_then :
    (client : Client) (s : Session) (r : Request) (k : Session → Outcome)
    → (and_then (request client s r) k).1 ≡ ok (tt {0})
    → (token : ℕ) × (and_then (request client s r) k ≡ k (accepted s token r))
unfolding request
request-and_then client s r k h = from_answer (client s.requests r) h
  where
    from_answer :
        (answer : Option ℕ)
        → (and_then (answered s r answer) k).1 ≡ ok (tt {0})
        → (token : ℕ) × (and_then (answered s r answer) k ≡ k (accepted s token r))
    from_answer none h = absurd cc
    from_answer (some token) h = (token, refl)

request-eq-ok :
    (client : Client) (s : Session) (r : Request)
    → (request client s r).1 ≡ ok (tt {0})
    → (token : ℕ) × (request client s r ≡ (accepted s token r, ok (tt {0})))
unfolding request
request-eq-ok client s r h = from_answer (client s.requests r) h
  where
    from_answer :
        (answer : Option ℕ)
        → (answered s r answer).1 ≡ ok (tt {0})
        → (token : ℕ) × (answered s r answer ≡ (accepted s token r, ok (tt {0})))
    from_answer none h = absurd cc
    from_answer (some token) h = (token, refl)

-- Three calls in a row that succeed.
three_requests :
    (client : Client) (s : Session) (a b c : Request)
    → (and_then
        (request client s a)
        (λ s1. and_then (request client s1 b) (λ s2. request client s2 c))).1
      ≡ ok (tt {0})
    → (k l m : ℕ) × ((and_then
          (request client s a)
          (λ s1. and_then (request client s1 b) (λ s2. request client s2 c)))
        ≡ (accepted (accepted (accepted s k a) l b) m c, ok (tt {0})))
three_requests client s a b c h =
    let last : Session → Outcome = λ s2. request client s2 c in
    let tail : Session → Outcome = λ s1. and_then (request client s1 b) last in
    let (k, p) = request-and_then client s a tail h in
    let (l, q) = request-and_then client (accepted s k a) b last (ap (λ o. o.1) (sym p) ∙ h) in
    let (m, r) =
      request-eq-ok client (accepted (accepted s k a) l b) c (ap (λ o. o.1) (sym (p ∙ q)) ∙ h) in
    (k, l, m, p ∙ (q ∙ r))

snoc_thrice {ℓ} :
    {A : Type ℓ} (xs : List A) (a b c : A)
    → ((xs ++ a ∷ []) ++ b ∷ []) ++ c ∷ [] ≡ xs ++ a ∷ b ∷ c ∷ []
snoc_thrice xs a b c =
    append_assoc (xs ++ a ∷ []) (b ∷ []) (c ∷ []) ∙ append_assoc xs (a ∷ []) (b ∷ c ∷ [])

-- A setup that succeeds adds three tokens and its three requests.
pub setup_ok :
    (client : Client) (self : Identity) (introspection : Introspection) (s : Session)
    → (perform_session_setup client self introspection false s).1 ≡ ok (tt {0})
    → (tokens : List ℕ) × (length tokens ≡ 3)
      × (perform_session_setup client self introspection false s ≡ (
        record s {
          session_setup_tokens = s.session_setup_tokens ++ tokens;
          requests = s.requests ++ setup_requests self introspection;
        },
        ok (tt {0}),
      ))
unfolding perform_session_setup setup_subscriptions send_introspection send_emptycache
setup_ok client self introspection s h =
    let topics = subscription_topics self (values introspection) in
    let a = subscribe topics (twos topics) in
    let b = publish (base_topic self) (introspection_payload (values introspection)) 2 false in
    let c = publish (base_topic self ++ codes "/control/emptyCache") (codes "1") 2 false in
    let (k, l, m, e) = three_requests client s a b c h in
    (
      k ∷ l ∷ m ∷ [],
      refl,
      e ∙ (λ i. (
        record s {
          session_setup_tokens = snoc_thrice s.session_setup_tokens k l m i;
          requests = snoc_thrice s.requests a b c i;
        },
        ok (tt {0}),
      )),
    )

-- What the calls of the client do to the session, whether they succeed or not: the flag stays, and
-- requests are added at the end.
unfoldable pub Extends : Session → Outcome → Type 0
Extends s (s', _) =
    (s'.connected ≡ s.connected) × (asked : List Request) × (s'.requests ≡ s.requests ++ asked)

request-Extends : (client : Client) (s : Session) (r : Request) → Extends s (request client s r)
unfolding request Extends
request-Extends client s r = from_answer (client s.requests r)
  where
    from_answer : (answer : Option ℕ) → Extends s (answered s r answer)
    from_answer none = (refl, r ∷ [], refl)
    from_answer (some token) = (refl, r ∷ [], refl)

and_then-Extends :
    (s : Session) (m : Outcome) (k : Session → Outcome)
    → Extends s m
    → ((s1 : Session) → Extends s1 (k s1))
    → Extends s (and_then m k)
unfolding Extends
and_then-Extends s (s1, ok tt) k (c, asked, e) h =
    let (c', asked', e') = h s1 in
    (c' ∙ c, asked ++ asked', e' ∙ ap (λ l. l ++ asked') e ∙ append_assoc s.requests asked asked')
and_then-Extends s (s1, err e) k x h = x

pub perform_session_setup-Extends :
    (client : Client) (self : Identity) (introspection : Introspection) (s : Session)
    → Extends s (perform_session_setup client self introspection false s)
unfolding perform_session_setup setup_subscriptions send_introspection send_emptycache
perform_session_setup-Extends client self introspection s =
    and_then-Extends s _ _ (request-Extends client s _) (λ s1.
      and_then-Extends s1 _ _ (request-Extends client s1 _) (λ s2. request-Extends client s2 _))

-- What holds after a step and is kept by the next holds after both.
pub and_then-keeps :
    (Q : Session → Type 0) (m : Outcome) (k : Session → Outcome)
    → Q m.0
    → ((s : Session) → Q s → Q (k s).0)
    → Q (and_then m k).0
and_then-keeps Q (s, ok _) k h next = next s h
and_then-keeps Q (s, err e) k h next = h
