-- ===== src/Record/Laws.antt =====
-- The laws of lookups, stores and deletions.
use network_observability_cl.Base.{
  String, Bool, none, some, [], ◌∷◌, ◌≡◌, refl, arith, str_eq, str_eq_iff, if◌then◌else◌,
}
use network_observability_cl.Record.{Value, GenericMap, lookup, put, delete_where}

-- A store is seen at its own key, and at no other.
pub lookup-put :
    (j k : String) (v : Value) (m : GenericMap)
    → lookup j (put k v m) ≡ (if str_eq k j then some v else lookup j m)
unfolding lookup put
lookup-put j k v [] = refl
lookup-put j k v ((i, w) ∷ m) =
    ground (arith, str_eq_iff k j, str_eq_iff i k, str_eq_iff i j, lookup-put j k v m)

-- A deletion takes exactly the chosen keys away.
pub lookup-delete_where :
    (j : String) (drop : String → Bool) (m : GenericMap)
    → lookup j (delete_where drop m) ≡ (if drop j then none else lookup j m)
unfolding lookup delete_where
lookup-delete_where j drop [] = ground arith
lookup-delete_where j drop ((i, w) ∷ m) =
    ground (arith, str_eq_iff i j, lookup-delete_where j drop m)
