-- ===== src/Hub/Clusters/Heap.antt =====
-- Reads of the heap after a write and after an allocation.
use fab_dns.Base.{
  ℕ, zero, suc, List, [], ◌∷◌, ◌++◌, Option, none, some, ◌≡◌, refl, arith, length, get_elem?,
  nat_beq, if◌then◌else◌,
}
use fab_dns.Hub.Clusters.{Cluster, write_heap}

abbrev pub map_cluster : (Cluster → Cluster) → Option Cluster → Option Cluster
map_cluster f none = none
map_cluster f (some c) = some (f c)

pub get_elem?-write_heap :
    (p q : ℕ) (f : Cluster → Cluster) (heap : List Cluster)
    → get_elem? (write_heap p f heap) q
      ≡ (if nat_beq p q then map_cluster f (get_elem? heap q) else get_elem? heap q)
unfolding write_heap
get_elem?-write_heap p q f [] = ground arith
get_elem?-write_heap zero zero f (c ∷ cs) = refl
get_elem?-write_heap zero (suc q) f (c ∷ cs) = ground arith
get_elem?-write_heap (suc p) zero f (c ∷ cs) = ground arith
get_elem?-write_heap (suc p) (suc q) f (c ∷ cs) = ground (arith, get_elem?-write_heap p q f cs)

pub get_elem?-alloc :
    (heap : List Cluster) (c : Cluster) → get_elem? (heap ++ c ∷ []) (length heap) ≡ some c
get_elem?-alloc [] c = refl
get_elem?-alloc (d ∷ heap) c = get_elem?-alloc heap c

pub get_elem?-old :
    (heap : List Cluster) (c d : Cluster) (p : ℕ)
    → get_elem? heap p ≡ some d
    → get_elem? (heap ++ c ∷ []) p ≡ some d
get_elem?-old [] c d p h = cc
get_elem?-old (x ∷ heap) c d zero h = h
get_elem?-old (x ∷ heap) c d (suc p) h = get_elem?-old heap c d p h
