-- ===== src/Hub/Importer/Tasks.antt =====
-- Which tasks a tick starts.
use fab_dns.Base.{
  Bool, true, false, ◌||◌, or_true, List, [], ◌∷◌, ◌≡◌, refl, sym, ap, ◌∙◌, any, In, In-append,
  append_left-In, append_right-In, ◌⊎◌, ◌↔◌, inl, inr, ok, Bool-cases,
}
use fab_dns.Api.{GlobalService, ObjectKey, key_of, key_beq, key_beq_iff}
use fab_dns.Hub.KeySet
use fab_dns.Hub.KeySet.{ObjectKeySet, has, has-add, has-new_object_key_set}
use fab_dns.Hub.Importer.{
  create_or_update, delete, imported_keys, creations, deletions, import_services,
}

-- A service of the key is in the list.
abbrev pub has_key : ObjectKey → List GlobalService → Bool
has_key j services = any (λ svc. key_beq (key_of svc) j) services

has-imported_keys :
    (j : ObjectKey) (services : List GlobalService) (keys : ObjectKeySet)
    → has j (imported_keys services keys) ≡ has_key j services || has j keys
unfolding imported_keys
has-imported_keys j [] keys = refl
has-imported_keys j (svc ∷ services) keys =
    has-imported_keys j services (KeySet.add (key_of svc) keys)
    ∙ rw (has-add (key_of svc) j keys) (elim (Bool-cases (key_beq (key_of svc) j)) [
      | inl t ↦ rw t (or_true (has_key j services))
      | inr t ↦ rw t refl
    ])

creations-delete :
    (svc : GlobalService) (services : List GlobalService) → In (delete svc) (creations services) → ⊥
unfolding creations
creations-delete svc [] i = i
creations-delete svc (s ∷ services) (inl e) = cc
creations-delete svc (s ∷ services) (inr i) = creations-delete svc services i

deletions_sound :
    (svc : GlobalService) (keys : ObjectKeySet) (items : List GlobalService)
    → In (delete svc) (deletions keys items)
    → In svc items × (has (key_of svc) keys ≡ false)
unfolding deletions
deletions_sound svc keys [] i = absurd i
deletions_sound svc keys (s ∷ items) i = elim (Bool-cases (has (key_of s) keys)) [
  | inl t ↦
      let k : In (delete svc) (deletions keys items) = rw t at i in
      let (h, out) = deletions_sound svc keys items k in (inr h, out)
  | inr t ↦
      let k : (delete svc ≡ delete s) ⊎ In (delete svc) (deletions keys items) = rw t at i in
      elim k [
        | inl e ↦ let same : svc ≡ s = cc in (inl same, rw same t)
        | inr m ↦ let (h, out) = deletions_sound svc keys items m in (inr h, out)
      ]
]

deletions_complete :
    (svc : GlobalService) (keys : ObjectKeySet) (items : List GlobalService)
    → In svc items
    → has (key_of svc) keys ≡ false
    → In (delete svc) (deletions keys items)
unfolding deletions
deletions_complete svc keys [] i out = absurd i
deletions_complete svc keys (s ∷ items) (inl e) out =
    let t : has (key_of s) keys ≡ false = rw (← e) out in
    rw t (inl (ap (λ (x : GlobalService). delete x) e))
deletions_complete svc keys (s ∷ items) (inr i) out = elim (Bool-cases (has (key_of s) keys)) [
  | inl t ↦ rw t (deletions_complete svc keys items i out)
  | inr t ↦ rw t (inr (deletions_complete svc keys items i out))
]

has-imported :
    (j : ObjectKey) (services : List GlobalService)
    → has j (imported_keys services KeySet.new_object_key_set) ≡ has_key j services
has-imported j services =
    has-imported_keys j services KeySet.new_object_key_set
    ∙ rw (has-new_object_key_set j) (or_false (has_key j services))
  where
    or_false : (b : Bool) → (b || false) ≡ b
    or_false true = refl
    or_false false = refl

-- When both lists could be read, a tick starts the deletion of a service exactly if it is among the
-- local services and no service of its key was downloaded.
pub import_services-delete :
    (E : Type 0) (services items : List GlobalService) (svc : GlobalService)
    → In (delete svc) (import_services {E = E} (ok services) (ok items))
      ↔ (In svc items × (has_key (key_of svc) services ≡ false))
unfolding import_services
import_services-delete E services items svc =
    let keys = imported_keys services KeySet.new_object_key_set in
    let known = has-imported (key_of svc) services in
    (
      λ i. elim (In-append (delete svc) (creations services) (deletions keys items) i) [
        | inl c ↦ absurd (creations-delete svc services c)
        | inr d ↦ let (h, out) = deletions_sound svc keys items d in (h, sym known ∙ out)
      ],
      λ p.
          append_right-In (delete svc) (creations services) (deletions keys items)
            (deletions_complete svc keys items p.0 (known ∙ p.1)),
    )

pub has_key-In :
    (j : ObjectKey) (services : List GlobalService)
    → has_key j services ≡ true
    → (svc : GlobalService) × In svc services × (key_of svc ≡ j)
has_key-In j [] h = cc
has_key-In j (s ∷ services) h = elim (Bool-cases (key_beq (key_of s) j)) [
  | inl t ↦ (s, inl refl, (key_beq_iff (key_of s) j).0 t)
  | inr t ↦ let (svc, i, e) = has_key-In j services (rw t at h) in (svc, inr i, e)
]

In-has_key :
    (svc : GlobalService) (services : List GlobalService)
    → In svc services
    → has_key (key_of svc) services ≡ true
In-has_key svc [] i = absurd i
In-has_key svc (s ∷ services) (inl e) =
    let t : key_beq (key_of s) (key_of svc) ≡ true =
      (key_beq_iff (key_of s) (key_of svc)).1 (ap key_of (sym e)) in
    rw t refl
In-has_key svc (s ∷ services) (inr i) = elim (Bool-cases (key_beq (key_of s) (key_of svc))) [
  | inl t ↦ rw t refl
  | inr t ↦ rw t (In-has_key svc services i)
]

-- A service that was downloaded does not have a key that was not.
pub In-apart :
    (svc : GlobalService) (services : List GlobalService) (j : ObjectKey)
    → In svc services
    → has_key j services ≡ false
    → key_of svc ≡ j
    → ⊥
In-apart svc services j i out e =
    let no : has_key j services ≡ true = rw (← e) (In-has_key svc services i) in cc

creations-create_or_update :
    (svc : GlobalService) (services : List GlobalService)
    → In (create_or_update svc) (creations services) ↔ In svc services
unfolding creations
creations-create_or_update svc [] = (λ i. i, λ i. i)
creations-create_or_update svc (s ∷ services) =
    let (to, from) = creations-create_or_update svc services in
    (
      λ i. elim i [ inl e ↦ let same : svc ≡ s = cc in inl same | inr i ↦ inr (to i) ],
      λ i. elim i [
        | inl e ↦ inl (ap (λ (x : GlobalService). create_or_update x) e)
        | inr i ↦ inr (from i)
      ],
    )

deletions-create_or_update :
    (svc : GlobalService) (keys : KeySet.ObjectKeySet) (items : List GlobalService)
    → In (create_or_update svc) (deletions keys items)
    → ⊥
unfolding deletions
deletions-create_or_update svc keys [] i = i
deletions-create_or_update svc keys (s ∷ items) i = elim (Bool-cases (KeySet.has (key_of s) keys)) [
  | inl t ↦ deletions-create_or_update svc keys items (rw t at i)
  | inr t ↦
      let k : (create_or_update svc ≡ delete s) ⊎ In (create_or_update svc) (deletions keys items) =
        rw t at i in
      elim k [ inl e ↦ cc | inr m ↦ deletions-create_or_update svc keys items m ]
]

-- A tick starts the import of exactly the services that were downloaded.
pub import_services-create_or_update :
    (E : Type 0) (services items : List GlobalService) (svc : GlobalService)
    → In (create_or_update svc) (import_services {E = E} (ok services) (ok items)) ↔ In svc services
unfolding import_services
import_services-create_or_update E services items svc =
    let keys = imported_keys services KeySet.new_object_key_set in
    let created = creations-create_or_update svc services in
    (
      λ i. elim (In-append (create_or_update svc) (creations services) (deletions keys items) i) [
        | inl c ↦ created.0 c
        | inr d ↦ absurd (deletions-create_or_update svc keys items d)
      ],
      λ i.
          append_left-In (create_or_update svc) (creations services) (deletions keys items)
            (created.1 i),
    )
