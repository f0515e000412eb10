-- ===== src/HashTable/Tests.antt =====
-- hash-table.c at the table that its `main` fills, and the theorems at it.
use bare_metal_architect.Prelude.{
  get_elem?, if◌then◌else◌, ℕ, ◌≡◌, refl, Bool, true, some, [], ◌∷◌, arith, pos, done,
}
use bare_metal_architect.Text.{str_eq, codes, hash_function}
use bare_metal_architect.HashTable.{
  Chain, negsuc, Text, exits, KeyValuePair, HashTable, table_insert, table_get,
}
use bare_metal_architect.HashTable.Lookup.{
  Replies, slot, IsValid, lookup, table_get_lem, table_insert_lem,
}

abbrev always : ℕ → Bool
always n = true

abbrev leonor : KeyValuePair
leonor = record { key = codes "Leonor"; value = pos 8 }

abbrev nash : KeyValuePair
nash = record { key = codes "Nash"; value = pos 11 }

-- "Leonor" hashes to 2 and "Nash" to 1 among three buckets.
abbrev small : HashTable
small = record { buckets = [] ∷ (nash ∷ []) ∷ (leonor ∷ []) ∷ []; capacity = 3 }

small-IsValid : IsValid small
small-IsValid = omega arith

hashes :
    (hash_function (codes "Leonor") 3 ≡ done (pos 2))
    × (hash_function (codes "Nash") 3 ≡ done (pos 1))
unfolding hash_function
hashes = (refl, refl)

scans :
    (table_get small (codes "Nash") ≡ done (pos 11))
    × (table_get small (codes "L") ≡ done (negsuc 0))
    × (table_get small (codes "Val") ≡ exits)
unfolding table_get hash_function str_eq
scans = (refl, refl, refl)

table_get_lem_example :
    (chain : Chain) × (get_elem? small.buckets (slot small (codes "Nash")) ≡ some chain)
    × Replies chain (lookup small (codes "Nash")) (table_get small (codes "Nash"))
table_get_lem_example = table_get_lem small (codes "Nash") small-IsValid (omega arith)

table_insert_lem_example :
    (t' : HashTable) × (table_insert always small (codes "Nash") (pos 5) ≡ done t')
    × IsValid t'
    × ((j : Text)
        → lookup t' j ≡ (if str_eq (codes "Nash") j then some (pos 5) else lookup small j))
table_insert_lem_example =
    table_insert_lem always small (codes "Nash") (pos 5) small-IsValid (omega arith) refl refl
