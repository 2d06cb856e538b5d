-- ===== src/Introspection/Versions.antt =====
-- Which interfaces replace which, and that none is ever downgraded.
use astarte_device_sdk_cpp.Base.{
  ◌≤◌, ◌<◌, ◌≡◌, ◌↔◌, ◌⊎◌, inl, inr, refl, Option, none, some, Option-cases, Result-cases, subst,
  ◌∙◌, List, [], ◌∷◌, Text, text_eq, text_eq_iff, if◌then◌else◌, All, Result, ok, err, arith,
  Bool-cases,
}
use astarte_device_sdk_cpp.Data.{same_owner_iff}
use astarte_device_sdk_cpp.Policies.InterfaceType.{same_interface_type_iff}
use astarte_device_sdk_cpp.Interface.{Interface}
use astarte_device_sdk_cpp.OrderedMap.{find, insert_or_assign}
use astarte_device_sdk_cpp.OrderedMap.Laws.{
  find-insert_or_assign, IsOrdered, insert_or_assign-IsOrdered,
}
use astarte_device_sdk_cpp.Introspection.{
  Introspection, store, replacement_error, checked_insert, get,
}

-- A new interface may take the place of a stored one: same owner, same type, and a version that
-- is not lower, the major number first.
pub record Supersedes (stored new : Interface) : Type 0 where
  pub same_ownership : stored.ownership ≡ new.ownership
  pub same_type : stored.interface_type ≡ new.interface_type
  pub version :
      (stored.version_major < new.version_major)
      ⊎ ((stored.version_major ≡ new.version_major) × (stored.version_minor ≤ new.version_minor))

pub Supersedes-refl : (i : Interface) → Supersedes i i
Supersedes-refl i = record {
  same_ownership = refl;
  same_type = refl;
  version = inr (refl, omega arith);
}

pub Supersedes-trans : (a b c : Interface) → Supersedes a b → Supersedes b c → Supersedes a c
Supersedes-trans a b c p q = record {
  same_ownership = ground arith;
  same_type = ground arith;
  version = ground (arith, p.version, q.version);
}

replacement_error_iff :
    (stored new : Interface) → (replacement_error stored new ≡ none) ↔ Supersedes stored new
unfolding replacement_error
replacement_error_iff stored new = ground (
  arith,
  same_owner_iff stored.ownership new.ownership,
  same_interface_type_iff stored.interface_type new.interface_type,
)

-- Nothing is stored, or what is stored is superseded.
abbrev pub Replaceable : Option Interface → Interface → Type 0
Replaceable none new = Unit
Replaceable (some stored) new = Supersedes stored new

-- An insertion succeeds exactly when no interface of that name is stored, or the stored one is
-- superseded.
pub checked_insert_iff :
    (s : Introspection) (i : Interface)
    → ((checked_insert s i).1 ≡ ok tt) ↔ Replaceable (find i.interface_name s.interfaces) i
unfolding checked_insert
checked_insert_iff s i = elim (Option-cases (find i.interface_name s.interfaces)) [
  | inl absent ↦ rw (absent, checked_insert) (λ e. tt, λ h. refl)
  | inr (old, present) ↦ rw (present, checked_insert) (decided old)
]
  where
    decided :
        (old : Interface)
        → (◌≡◌ {A = Result (Unit {0})}
            (elim (replacement_error old i) as (λ _. Introspection × Result (Unit {0})) [
              | some e ↦ (s, err e)
              | none ↦ (store s i, ok tt)
            ]).1
            (ok tt))
          ↔ Supersedes old i
    decided old = elim (Option-cases (replacement_error old i)) [
      | inl accepted ↦ rw accepted (λ e. (replacement_error_iff old i).0 accepted, λ h. refl)
      | inr (e, refused) ↦
          rw refused (λ x. cc, λ h. let n = (replacement_error_iff old i).1 h in cc)
    ]

-- After an insertion a name has the new interface where it is that one's and the insertion
-- succeeded, and otherwise what it had.
pub get-checked_insert :
    (s : Introspection) (i : Interface) (name : Text)
    → get (checked_insert s i).0 name ≡ elim (checked_insert s i).1 [
      | ok _ ↦ if text_eq i.interface_name name then ok i else get s name
      | err e ↦ get s name
    ]
unfolding get checked_insert
get-checked_insert s i name =
    ground (arith, find-insert_or_assign i.interface_name name i s.interfaces)

-- A run of insertions, successful or not.
unfoldable pub insert_all : Introspection → List Interface → Introspection
insert_all s [] = s
insert_all s (i ∷ is) = insert_all (checked_insert s i).0 is

pub get_of_find :
    (s : Introspection) (name : Text) (i : Interface)
    → get s name ≡ ok i
    → find name s.interfaces ≡ some i
unfolding get
get_of_find s name i h = ground arith

pub step_superseded :
    (s : Introspection) (new old : Interface) (name : Text)
    → get s name ≡ ok old
    → (now : Interface) × (get (checked_insert s new).0 name ≡ ok now) × Supersedes old now
step_superseded s new old name h = elim (Result-cases (checked_insert s new).1) [
  | inl (_, accepted) ↦ elim (Bool-cases (text_eq new.interface_name name)) [
    | inl same ↦
        let e : new.interface_name ≡ name = (text_eq_iff _ _).0 same in
        let kept =
          subst (λ r. Replaceable r new) (get_of_find s _ old (rw e h))
            ((checked_insert_iff s new).0 accepted) in
        (new, get-checked_insert s new name ∙ rw (accepted, same), kept)
    | inr other ↦ (old, get-checked_insert s new name ∙ rw (accepted, other) h, Supersedes-refl old)
  ]
  | inr (e, refused) ↦ (old, get-checked_insert s new name ∙ rw refused h, Supersedes-refl old)
]

-- Whatever is inserted later, successfully or not, a supported interface stays supported under its
-- name, with the same owner and type and a version that is not lower.
pub insert_all-Supersedes :
    (s : Introspection) (is : List Interface) (old : Interface) (name : Text)
    → get s name ≡ ok old
    → (now : Interface) × (get (insert_all s is) name ≡ ok now) × Supersedes old now
unfolding insert_all
insert_all-Supersedes s [] old name h = (old, h, Supersedes-refl old)
insert_all-Supersedes s (i ∷ is) old name h =
    let (mid, at_mid, p) = step_superseded s i old name h in
    let (now, at_end, q) = insert_all-Supersedes (checked_insert s i).0 is mid name at_mid in
    (now, at_end, Supersedes-trans old mid now p q)

-- The entries are in the order of their names, each under its interface's own name.
pub record IsWellKept (s : Introspection) : Type 0 where
  pub ordered : IsOrdered s.interfaces
  pub named : All (λ e. e.1.interface_name ≡ e.0) s.interfaces

insert-named :
    (i : Interface) (entries : List (Text × Interface))
    → All (λ e. e.1.interface_name ≡ e.0) entries
    → All (λ e. e.1.interface_name ≡ e.0) (insert_or_assign i.interface_name i entries)
unfolding insert_or_assign
insert-named i [] h = (refl, tt)
insert-named i ((k, v) ∷ entries) (h, hs) = ground (arith, insert-named i entries hs)

-- Every insertion keeps the entries in order and under their own names, so no name is twice in
-- the introspection.
pub checked_insert-IsWellKept :
    (s : Introspection) (i : Interface) → IsWellKept s → IsWellKept (checked_insert s i).0
unfolding checked_insert
checked_insert-IsWellKept s i w = ground (
  arith,
  insert-named i s.interfaces w.named,
  insert_or_assign-IsOrdered i.interface_name i s.interfaces w.ordered,
)
