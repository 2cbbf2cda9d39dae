-- ===== src/Hub/KeySet.antt =====
-- pkg/service-hub/types/objectkeyset.go
use fab_dns.Base.{Bool, true, false, List, [], ◌≡◌, refl, arith, if◌then◌else◌}
use fab_dns.Base.Map
use fab_dns.Base.Map.{has_value}
use fab_dns.Api.{ObjectKey, key_eq, key_beq}

-- `map[client.ObjectKey]Empty`
abbrev pub ObjectKeySet : Type 0
ObjectKeySet = List (ObjectKey × Unit {0})

unfoldable pub new_object_key_set : ObjectKeySet
new_object_key_set = []

unfoldable pub add : ObjectKey → ObjectKeySet → ObjectKeySet
add key keys = Map.insert key tt keys

unfoldable pub delete : ObjectKey → ObjectKeySet → ObjectKeySet
delete key keys = Map.delete key keys

unfoldable pub has : ObjectKey → ObjectKeySet → Bool
has key keys = has_value (Map.lookup key keys)

pub has-new_object_key_set : (j : ObjectKey) → has j new_object_key_set ≡ false
unfolding has new_object_key_set Map.lookup
has-new_object_key_set j = refl

pub has-add :
    (key j : ObjectKey) (keys : ObjectKeySet)
    → has j (add key keys) ≡ (if key_beq key j then true else has j keys)
unfolding has add
has-add key j keys = rw Map.lookup-insert (ground arith)

pub has-delete :
    (key j : ObjectKey) (keys : ObjectKeySet)
    → has j (delete key keys) ≡ (if key_beq key j then false else has j keys)
unfolding has delete
has-delete key j keys = rw Map.lookup-delete (ground arith)

pub ruleset key_set_laws = (has-new_object_key_set, has-add, has-delete)
