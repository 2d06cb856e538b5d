-- ===== src/Session/Handshake.antt =====
-- When the flag `connected` is raised.
use astarte_device_sdk_cpp.Base.{
  Bool, Error, List, Option, [], ap, arith, err, false, inl, inr, length, none, ok, refl, some, suc,
  true, zero, ℕ, ◌++◌, ◌<◌, ◌==◌, ◌↔◌, ◌∙◌, ◌∷◌, ◌≡◌, ◌≤◌, ◌⊎◌,
}
use astarte_device_sdk_cpp.Introspection.{Introspection}
use astarte_device_sdk_cpp.Session.{
  Session, Client, Identity, Request, disconnect, give_up_on_error, perform_session_setup,
  on_connected, on_setup_success, on_setup_failure,
}
use astarte_device_sdk_cpp.Session.Requests.{
  setup_requests, Outcome, Extends, setup_ok, perform_session_setup-Extends,
}

-- What the client reports of one token: success or failure.
pub on_report : Bool → Session → Option Session
on_report true s = on_setup_success s
on_report false s = on_setup_failure s

-- A run of reports, oldest first; nothing where a handler blocks.
pub on_reports : List Bool → Session → Option Session
on_reports [] s = some s
on_reports (r ∷ rs) s = elim (on_report r s) [ none ↦ none | some s' ↦ on_reports rs s' ]

abbrev pub successes : List Bool → ℕ
successes [] = 0
successes (true ∷ rs) = suc (successes rs)
successes (false ∷ rs) = successes rs

on_reports-failures : (rs : List Bool) (s : Session) → successes rs ≡ 0 → on_reports rs s ≡ some s
unfolding on_reports on_report on_setup_failure
on_reports-failures [] s h = refl
on_reports-failures (true ∷ rs) s h = absurd (omega arith)
on_reports-failures (false ∷ rs) s h = on_reports-failures rs s h

-- With tokens left, the flag follows the successes.
on_reports-counts :
    (rs : List Bool) (tokens : List ℕ) (requests : List Request)
    → successes rs ≤ length tokens
    → 0 < length tokens
    → (s : Session) × (on_reports rs
          (record { connected = false; session_setup_tokens = tokens; requests = requests })
        ≡ some s)
      × (s.connected ≡ (successes rs == length tokens))
      × (s.requests ≡ requests)
unfolding on_reports on_report on_setup_success on_setup_failure
on_reports-counts [] (k ∷ tokens) requests h p = (_, refl, ground arith, refl)
on_reports-counts rs [] requests h p = absurd (omega arith)
on_reports-counts (true ∷ rs) (k ∷ []) requests h p =
    (_, on_reports-failures rs _ (omega arith), ground arith, refl)
on_reports-counts (true ∷ rs) (k ∷ l ∷ tokens) requests h p =
    let (s, e, c, k) = on_reports-counts rs (l ∷ tokens) requests (omega arith) (omega arith) in
    (s, e, ground arith, k)
on_reports-counts (false ∷ rs) (k ∷ tokens) requests h p =
    on_reports-counts rs (k ∷ tokens) requests h p

-- A connection whose three setup requests are accepted, and whose reports then come in any order,
-- at most one success for each request: no handler blocks, and the flag is up at the end exactly
-- when all three have succeeded. It was down, and the queue empty, before the connection.
pub connected_after_reports :
    (client : Client) (self : Identity) (introspection : Introspection) (s : Session)
    (rs : List Bool)
    → s.connected ≡ false
    → s.session_setup_tokens ≡ []
    → (perform_session_setup client self introspection false s).1 ≡ ok (tt {0})
    → successes rs ≤ 3
    → (s' : Session) × (on_reports rs (on_connected client self introspection s) ≡ some s')
      × (s'.connected ≡ (successes rs == 3))
      × (s'.requests ≡ s.requests ++ setup_requests self introspection)
unfolding on_connected
connected_after_reports client self introspection s rs d q h b =
    let (tokens, l, e) = setup_ok client self introspection s h in
    let asked = s.requests ++ setup_requests self introspection in
    let (s', r, c, k) = on_reports-counts rs tokens asked (omega arith) (omega arith) in
    let unqueued : on_reports rs
          (record s { session_setup_tokens = s.session_setup_tokens ++ tokens; requests = asked })
        ≡ on_reports rs
            (record { connected = false; session_setup_tokens = tokens; requests = asked }) =
      rw (d, q) in
    (
      s',
      ap (λ o. on_reports rs (give_up_on_error o)) e ∙ unqueued ∙ r,
      c ∙ ap (λ n. successes rs == n) l,
      k,
    )

-- A setup that fails, after any of its calls, leaves no token and leaves the flag as it was, and
-- the last request is to disconnect.
pub on_connected_of_failed_setup :
    (client : Client) (self : Identity) (introspection : Introspection) (s : Session) {e : Error}
    → (perform_session_setup client self introspection false s).1 ≡ err e
    → ((on_connected client self introspection s).session_setup_tokens ≡ [])
      × ((on_connected client self introspection s).connected ≡ s.connected)
      × (asked : List Request) × ((on_connected client self introspection s).requests
          ≡ s.requests ++ asked ++ disconnect ∷ [])
unfolding on_connected Extends
on_connected_of_failed_setup client self introspection s h =
    gives_up (perform_session_setup client self introspection false s) h
      (perform_session_setup-Extends client self introspection s)
  where
    gives_up :
        (m : Outcome) {e : Error}
        → m.1 ≡ err e
        → Extends s m
        → ((give_up_on_error m).session_setup_tokens ≡ [])
          × ((give_up_on_error m).connected ≡ s.connected)
          × (asked : List Request) × ((give_up_on_error m).requests
              ≡ s.requests ++ asked ++ disconnect ∷ [])
    gives_up (s', ok tt) h x = absurd cc
    gives_up (s', err e) h (c, asked, q) = (refl, c, asked, ap (λ l. l ++ disconnect ∷ []) q)

on_reports-blocked :
    (rs : List Bool) (s : Session)
    → s.session_setup_tokens ≡ []
    → 0 < successes rs
    → on_reports rs s ≡ none
unfolding on_reports on_report on_setup_success on_setup_failure
on_reports-blocked [] s q h = absurd (omega arith)
on_reports-blocked (true ∷ rs) s q h = rw q
on_reports-blocked (false ∷ rs) s q h = on_reports-blocked rs s q h

-- After a setup that fails, a run of reports blocks the handler of a success exactly when one of
-- the reports is a success: a request that the client took before the failing one may still
-- succeed, and its token is no longer in the queue.
pub late_success_blocks :
    (client : Client) (self : Identity) (introspection : Introspection) (s : Session) {e : Error}
    (rs : List Bool)
    → (perform_session_setup client self introspection false s).1 ≡ err e
    → (on_reports rs (on_connected client self introspection s) ≡ none) ↔ (0 < successes rs)
late_success_blocks client self introspection s rs h =
    let after = on_connected client self introspection s in
    let q = (on_connected_of_failed_setup client self introspection s h).0 in
    (
      λ blocked. elim (zero_or_positive (successes rs)) [
        | inl none_succeeds ↦
            let ends : on_reports rs after ≡ some after =
              on_reports-failures rs after none_succeeds in
            absurd cc
        | inr positive ↦ positive
      ],
      on_reports-blocked rs after q,
    )
  where
    zero_or_positive : (n : ℕ) → (n ≡ 0) ⊎ (0 < n)
    zero_or_positive zero = inl refl
    zero_or_positive (suc n) = inr (omega arith)
