-- ===== src/DConvex/Interface.antt =====
-- The sets of node ids that src/d_convex.rs keeps: `indexmap::IndexSet<NodeId>`, a package that the
-- sources call. The model takes it as a parameter, with the iteration order that its documentation
-- gives: a value not in the set goes to the end, and `retain` keeps the order.
use causasv.Prelude.{ℕ, ◌≡◌, refl, Bool, not, List, [], ◌∷◌, ◌++◌, contains, length, if◌then◌else◌}

abbrev pub filter : (ℕ → Bool) → List ℕ → List ℕ
filter keep [] = []
filter keep (x ∷ xs) = if keep x then x ∷ filter keep xs else filter keep xs

pub record IdSet : Type 1 where
  pub Ids : Type 0
  pub new : Ids
  pub items : Ids → List ℕ
  pub len : Ids → ℕ
  pub has : Ids → ℕ → Bool
  -- whether the value is new, and the set after the call
  pub insert : Ids → ℕ → Bool × Ids
  pub retain : Ids → (ℕ → Bool) → Ids
  pub items-new : items new ≡ []
  pub len-items : (s : Ids) → len s ≡ length (items s)
  pub has-items : (s : Ids) (x : ℕ) → has s x ≡ contains (items s) x
  pub insert-is_new : (s : Ids) (x : ℕ) → (insert s x).0 ≡ not (has s x)
  pub items-insert :
      (s : Ids) (x : ℕ) → items (insert s x).1 ≡ (if has s x then items s else items s ++ x ∷ [])
  -- nothing else of a set is observed
  pub items-same : (s t : Ids) → items s ≡ items t → s ≡ t
  pub items-retain : (s : Ids) (keep : ℕ → Bool) → items (retain s keep) ≡ filter keep (items s)

-- Sets that meet the laws, for examples: lists.
abbrev pub list_ids : IdSet
list_ids = record {
  Ids = List ℕ;
  new = [];
  items = λ s. s;
  len = length;
  has = contains;
  insert = λ s x. (not (contains s x), if contains s x then s else s ++ x ∷ []);
  retain = λ s keep. filter keep s;
  items-new = refl;
  len-items = λ s. refl;
  has-items = λ s x. refl;
  insert-is_new = λ s x. refl;
  items-insert = λ s x. refl;
  items-same = λ s t e. e;
  items-retain = λ s keep. refl;
}

module _ (ids : IdSet) where
  open ids use {Ids, new, insert}

  -- `extend` and `collect` insert each value in turn.
  abbrev pub extend : Ids → List ℕ → Ids
  extend s [] = s
  extend s (x ∷ xs) = extend (insert s x).1 xs

  abbrev pub collect : List ℕ → Ids
  collect xs = extend new xs
