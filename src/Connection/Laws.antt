-- ===== src/Connection/Laws.antt =====
-- What `send` does on each branch.
use astarte_device_sdk_cpp.Base.{
  refl, ℕ, ◌≤◌, ◌≡◌, ◌⊎◌, inl, inr, true, false, [], ◌∷◌, ◌++◌, Text, ltb, ok, err, Error,
  Bool-cases, arith,
}
use astarte_device_sdk_cpp.EndpointPath.{starts_with_byte}
use astarte_device_sdk_cpp.Session.{Session, Client, Identity, Request, publish}
use astarte_device_sdk_cpp.Connection.{Waits, data_topic, settles, send, disconnect}

-- The session after a publication.
abbrev pub published : Identity → Session → Text → Text → ℕ → Text → Session
published self s interface_name path qos data' = record s {
  requests = s.requests ++ publish (data_topic self interface_name path) data' qos false ∷ [];
}

-- Either nothing is asked of the client and there is an error, or the path starts with a slash, the
-- quality of service is at most 2, and the one message goes to the topic of the interface and path.
pub send-cases :
    (client : Client) (waits : Waits) (self : Identity) (s : Session) (interface_name path : Text)
    (qos : ℕ) (data' : Text)
    → (send client waits self s interface_name path qos data' ≡ (s, err Error.mqtt_error))
      ⊎ ((starts_with_byte b'/' path ≡ true)
          × (qos ≤ 2)
          × ((send client waits self s interface_name path qos data').0
              ≡ published self s interface_name path qos data'))
unfolding send
send-cases client waits self s interface_name path qos data' =
    elim (Bool-cases (starts_with_byte b'/' path)) [
      | inr e ↦ inl (rw e)
      | inl e ↦ elim (Bool-cases (ltb 2 qos)) [
        | inl l ↦ inl (rw (e, l))
        | inr l ↦ inr (e, ground arith, rw (e, l))
      ]
    ]

-- Where both tests pass, the outcome is that of the client.
pub send-eq-ok :
    (client : Client) (waits : Waits) (self : Identity) (s : Session) (interface_name path : Text)
    (qos : ℕ) (data' : Text)
    → starts_with_byte b'/' path ≡ true
    → qos ≤ 2
    → settles client waits s (publish (data_topic self interface_name path) data' qos false) ≡ true
    → send client waits self s interface_name path qos data'
      ≡ (published self s interface_name path qos data', ok tt)
unfolding send
send-eq-ok client waits self s interface_name path qos data' e b h =
    let l : ltb 2 qos ≡ false = ground arith in rw (e, l, h)

-- A disconnection is asked for once.
pub disconnect-requests :
    (client : Client) (waits : Waits) (s : Session)
    → (disconnect client waits s).0.requests ≡ s.requests ++ Request.disconnect ∷ []
unfolding disconnect
disconnect-requests client waits s = elim (Bool-cases (settles client waits s Request.disconnect)) [
  | inl e ↦ rw e refl
  | inr e ↦ rw e refl
]
