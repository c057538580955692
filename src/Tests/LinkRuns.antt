-- ===== src/Tests/LinkRuns.antt =====
-- A list with its head at 0, its tail at 1 and the elements 2 and 3.
use operating_system_pl_nt.Prelude.{
  ℕ, ◌≡◌, refl, none, some, List, [], ◌∷◌, ◌++◌, ◌==◌, ltb, if◌then◌else◌, ok, arith,
}
use operating_system_pl_nt.Links.{Store, Links, list_insert, list_remove, list_insert_ordered}
use operating_system_pl_nt.Links.Chain.{IsList}
use operating_system_pl_nt.Links.Inserts.{Untouched, list_insert-IsList, list_remove-IsList}
use operating_system_pl_nt.Links.Ordered.{Sorted, list_insert_ordered-Sorted}

abbrev links : Links
links = record { head = 0; tail = 1 }

abbrev store : Store
store = record {
  prev = λ a. if a == 2 then some 0 else if a == 3 then some 2 else if a == 1 then some 3 else none;
  next = λ a. if a == 0 then some 2 else if a == 2 then some 3 else if a == 3 then some 1 else none;
}

store-IsList : IsList store links (2 ∷ 3 ∷ [])
store-IsList = record {
  starts = refl;
  stops = refl;
  seg = ((refl, refl), ((refl, refl), (refl, refl)));
  distinct = (refl, (refl, (refl, (refl, tt))));
}

list_insert-IsList_example :
    (m' : Store) × (list_insert 3 4 store ≡ ok m')
    × IsList m' links (2 ∷ 4 ∷ 3 ∷ [])
    × Untouched (4 ∷ 0 ∷ 1 ∷ 2 ∷ 3 ∷ []) store m'
list_insert-IsList_example = list_insert-IsList store links (2 ∷ []) (3 ∷ []) 4 store-IsList refl

list_remove-IsList_example :
    (m' : Store) × (list_remove 2 store ≡ ok (3, m'))
    × IsList m' links (3 ∷ [])
    × Untouched (0 ∷ 1 ∷ 3 ∷ []) store m'
list_remove-IsList_example = list_remove-IsList store links [] (3 ∷ []) 2 store-IsList

list_insert_ordered-Sorted_example :
    (ys : List ℕ) × (zs : List ℕ) × (m' : Store) × (2 ∷ 3 ∷ [] ≡ ys ++ zs)
    × (list_insert_ordered ltb 3 links 4 store ≡ ok m')
    × IsList m' links (ys ++ (4 ∷ zs))
    × Sorted ltb (ys ++ (4 ∷ zs))
list_insert_ordered-Sorted_example =
    list_insert_ordered-Sorted ltb store links (2 ∷ 3 ∷ []) 4 3 store-IsList (refl, tt)
      (λ x y h. ground (arith, h)) refl (omega arith)
