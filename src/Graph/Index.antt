-- ===== src/Graph/Index.antt =====
-- The map from names to node ids of a graph: `indexmap::IndexMap<String, NodeId>`, a package that
-- the sources call. The model takes it as a parameter. Nothing iterates over this map, so its order
-- is left out; `get` after `insert` is what the code relies on.
use causasv.Prelude.{ℕ, ◌≡◌, refl, String, Option, none, some, List, [], ◌∷◌, str_eq, if◌then◌else◌}

pub record NameIndex : Type 1 where
  pub Map : Type 0
  pub new : Map
  pub get : Map → String → Option ℕ
  pub insert : Map → String → ℕ → Map
  pub get-new : (k : String) → get new k ≡ none
  pub get-insert :
      (m : Map) (j k : String) (v : ℕ)
      → get (insert m j v) k ≡ (if str_eq j k then some v else get m k)

abbrev pub assoc_get : List (String × ℕ) → String → Option ℕ
assoc_get [] k = none
assoc_get ((j, v) ∷ m) k = if str_eq j k then some v else assoc_get m k

-- An index that meets the laws, for examples: an association list, latest entry first.
abbrev pub assoc_index : NameIndex
assoc_index = record {
  Map = List (String × ℕ);
  new = [];
  get = assoc_get;
  insert = λ m k v. (k, v) ∷ m;
  get-new = λ k. refl;
  get-insert = λ m j k v. refl;
}
