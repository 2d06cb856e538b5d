-- ===== src/Session/Topics.antt =====
-- The topics that a device subscribes to.
use astarte_device_sdk_cpp.Base.{
  ◌≡◌, refl, sym, ap, ◌∙◌, ◌⊎◌, inl, inr, ◌↔◌, false, List, [], ◌∷◌, ◌++◌, Text, codes, Bool-cases,
}
use astarte_device_sdk_cpp.Data.{Ownership, same_owner}
use astarte_device_sdk_cpp.Interface.{Interface}
use astarte_device_sdk_cpp.Session.{Identity, base_topic, server_topics, subscription_topics}

-- The element is one of the list's.
abbrev pub Among : {A : Type 0} → A → List A → Type 0
Among a [] = ⊥
Among a (x ∷ xs) = (a ≡ x) ⊎ Among a xs

abbrev pub topic_of : Identity → Interface → Text
topic_of self interface = base_topic self ++ b'/' ∷ (interface.interface_name ++ codes "/#")

abbrev pub IsServerTopic : Identity → List Interface → Text → Type 0
IsServerTopic self interfaces topic =
    (interface : Interface) × Among interface interfaces
    × (interface.ownership ≡ Ownership.server)
    × (topic ≡ topic_of self interface)

Among-cons :
    (self : Identity) (interface : Interface) (interfaces : List Interface) (topic : Text)
    → IsServerTopic self interfaces topic
    → IsServerTopic self (interface ∷ interfaces) topic
Among-cons self interface interfaces topic (i, m, o, e) = (i, inr m, o, e)

owner_is_server : (o : Ownership) → (same_owner o Ownership.device ≡ false) ↔ (o ≡ Ownership.server)
unfolding same_owner
owner_is_server Ownership.device = ((λ h. absurd cc), λ h. absurd cc)
owner_is_server Ownership.server = ((λ h. refl), λ h. refl)

server_topics_iff :
    (self : Identity) (interfaces : List Interface) (topic : Text)
    → Among topic (server_topics self interfaces) ↔ IsServerTopic self interfaces topic
unfolding server_topics
server_topics_iff self [] topic = ((λ m. absurd m), λ (i, m, o, e). absurd m)
server_topics_iff self (interface ∷ interfaces) topic =
    let (to, from) = server_topics_iff self interfaces topic in
    elim (Bool-cases (same_owner interface.ownership Ownership.device)) [
      | inl e ↦ rw e (
        (λ m. Among-cons self interface interfaces topic (to m)),
        λ (i, m, o, q). elim m [
          | inl p ↦
              let x = (owner_is_server interface.ownership).1 (ap (λ j. j.ownership) (sym p) ∙ o) in
              absurd cc
          | inr m ↦ from (i, m, o, q)
        ],
      )
      | inr e ↦ rw e (
        (λ m. elim m [
          | inl p ↦ (interface, inl refl, (owner_is_server interface.ownership).0 e, p)
          | inr m ↦ Among-cons self interface interfaces topic (to m)
        ]),
        λ (i, m, o, q). elim m [
          | inl p ↦ inl (q ∙ ap (topic_of self) p)
          | inr m ↦ inr (from (i, m, o, q))
        ],
      )
    ]

-- A device subscribes to its control topic and to the topics of the interfaces that the server
-- owns, and to nothing else.
pub subscription_topics_iff :
    (self : Identity) (interfaces : List Interface) (topic : Text)
    → Among topic (subscription_topics self interfaces) ↔ (
        (topic ≡ base_topic self ++ codes "/control/consumer/properties")
        ⊎ IsServerTopic self interfaces topic)
unfolding subscription_topics
subscription_topics_iff self interfaces topic =
    let (to, from) = server_topics_iff self interfaces topic in
    (
      (λ m. elim m [ inl e ↦ inl e | inr m ↦ inr (to m) ]),
      λ m. elim m [ inl e ↦ inl e | inr m ↦ inr (from m) ],
    )
