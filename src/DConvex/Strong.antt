-- ===== src/DConvex/Strong.antt =====
-- `strong_d_convex_hull` (src/d_convex.rs): a strong hull is always reached.
use causasv.Prelude.{
  ℕ, zero, suc, ◌+◌, ◌<◌, ◌≤◌, ◌≡◌, ◌⊎◌, refl, ap, subst, arith, Bool, true, false, ◌&&◌, ◌||◌,
  List, [], ◌∷◌, count, length, ◌==◌, Bool-cases, inl, inr,
}
use causasv.Error.{ok, err, invalid_node_id}
use causasv.Cache.Masks.{contains-count}
use causasv.Graph.Index.{NameIndex}
use causasv.Graph.{Dag, node_count, parents_raw}
use causasv.Graph.WellFormed.{IsWellFormed, parent-lt}
use causasv.DConvex.Interface.{IdSet, filter, extend, collect}
use causasv.DConvex.Sets.{
  Within, Within-extend, Within-new, Within-insert, count-filter, has-collect, has-count,
  has-extend, has-insert, below_of_has, len-le, len-extend-lt,
}
use causasv.DConvex.Ancestors.{IsAncestor, ancestors_or_self_exact}
use causasv.DConvex.Hull.{IsDConvex, closure_loop-ends, check_ids-decides, start-Within}
use causasv.DConvex.{
  adjacent, each_after, each_pair, absorb_pair, absorb_parents, children_or_self, marginalized_out,
  d_convex_closure, linear_ordering_violation_parents, strong_loop, strong_d_convex_hull,
}

module _ {S : Type 0} (step : S → ℕ → ℕ → S) (P : S → Type 0) where
  each_after-keeps :
      (a : ℕ) (bs : List ℕ) (s : S)
      → ((b : ℕ) → 0 < count b bs → (t : S) → P t → P (step t a b))
      → P s
      → P (each_after step a bs s)
  each_after-keeps a [] s keeps p = p
  each_after-keeps a (b ∷ bs) s keeps p =
      each_after-keeps a bs (step s a b) (λ c m. keeps c (ground arith))
        (keeps b (ground arith) s p)

  each_pair-keeps :
      (xs : List ℕ) (s : S)
      → ((a b : ℕ) → 0 < count a xs → 0 < count b xs → (t : S) → P t → P (step t a b))
      → P s
      → P (each_pair step xs s)
  each_pair-keeps [] s keeps p = p
  each_pair-keeps (a ∷ rest) s keeps p =
      each_pair-keeps rest _ (λ b c m m'. keeps b c (ground arith) (ground arith))
        (each_after-keeps a rest s (λ b m. keeps a b (ground arith) (ground arith)) p)

-- The test holds of every two entries, the earlier one first.
abbrev pub AllPairs : (ℕ → ℕ → Bool) → List ℕ → Type 0
AllPairs test [] = Unit
AllPairs test (a ∷ rest) = ((b : ℕ) → 0 < count b rest → test a b ≡ true) × AllPairs test rest

count-le : (v : ℕ) (xs : List ℕ) → count v xs ≤ length xs
count-le v [] = omega arith
count-le v (x ∷ xs) = ground (arith, count-le v xs)

module _ (ids : IdSet) {im : NameIndex} (d : Dag im) (h : IdSet.Ids ids) where
  open ids use {Ids, items, len, has, insert, len-items}

  -- Two parents that are adjacent, or both in the set.
  abbrev pub is_ordered : ℕ → ℕ → Bool
  is_ordered a b = has h a && has h b || adjacent ids d a b

  len_pos : (s : Ids) (v : ℕ) → has s v ≡ true → 0 < len s
  len_pos s v m = ground (arith, len-items s, has-count ids s v, count-le v (items s))

  absorb_pair-ordered :
      (s : Ids) (a b : ℕ)
      → len (absorb_pair ids d h s a b) ≡ 0
      → (len s ≡ 0) × (is_ordered a b ≡ true)
  absorb_pair-ordered s a b e =
      let s₁ = (insert s a).1 in ground (arith, len_pos (insert s₁ b).1 b, has-insert ids s₁ b b)

  each_after-ordered :
      (a : ℕ) (bs : List ℕ) (s : Ids)
      → len (each_after (absorb_pair ids d h) a bs s) ≡ 0
      → (len s ≡ 0) × ((b : ℕ) → 0 < count b bs → is_ordered a b ≡ true)
  each_after-ordered a [] s e = (e, λ b m. absurd (omega arith))
  each_after-ordered a (b ∷ bs) s e =
      let (empty, later) = each_after-ordered a bs _ e in
      let (empty', first) = absorb_pair-ordered s a b empty in
      (
        empty',
        λ c m. elim (Bool-cases (b == c)) [
          | inl same ↦
              let here : b ≡ c = ground arith in subst (λ x. is_ordered a x ≡ true) here first
          | inr other ↦ later c (ground arith)
        ],
      )

  each_pair-ordered :
      (xs : List ℕ) (s : Ids)
      → len (each_pair (absorb_pair ids d h) xs s) ≡ 0
      → (len s ≡ 0) × AllPairs is_ordered xs
  each_pair-ordered [] s e = (e, tt)
  each_pair-ordered (a ∷ rest) s e =
      let (empty, later) = each_pair-ordered rest _ e in
      let (empty', first) = each_after-ordered a rest s empty in (empty', (first, later))

  -- If nothing is absorbed, the parents of each node of the list are ordered.
  absorb_parents-ordered :
      (ws : List ℕ) (s : Ids)
      → len (absorb_parents ids d h ws s) ≡ 0
      → (len s ≡ 0) × ((w : ℕ) → 0 < count w ws → AllPairs is_ordered (parents_raw d w))
  absorb_parents-ordered [] s e = (e, λ w m. absurd (omega arith))
  absorb_parents-ordered (w ∷ ws) s e =
      let (empty, later) = absorb_parents-ordered ws _ e in
      let (empty', first) = each_pair-ordered (parents_raw d w) s empty in
      (
        empty',
        λ x m. elim (Bool-cases (w == x)) [
          | inl same ↦
              let here : w ≡ x = ground arith in
              subst (λ y. AllPairs is_ordered (parents_raw d y)) here first
          | inr other ↦ later x (ground arith)
        ],
      )

  -- What is absorbed is in the graph, and if there is any, some of it is not in the set.
  abbrev IsNews : Ids → Type 0
  IsNews s =
      Within ids (node_count d) s × (0 < len s → (v : ℕ) × (has s v ≡ true) × (has h v ≡ false))

  absorb_pair-IsNews :
      (a b : ℕ)
      → a < node_count d
      → b < node_count d
      → (s : Ids) → IsNews s
      → IsNews (absorb_pair ids d h s a b)
  absorb_pair-IsNews a b a_lt b_lt s news = elim (Bool-cases (has h a && has h b)) [
    | inl both ↦ rw both news
    | inr some_new ↦ elim (Bool-cases (adjacent ids d a b)) [
      | inl next_to ↦ rw (some_new, next_to) news
      | inr apart ↦
          let s₁ = (insert s a).1 in
          let in_b = λ (x : ℕ). has-insert ids s₁ b x in
          let in_a = λ (x : ℕ). has-insert ids s a x in
          let within =
            Within-insert ids (node_count d) s₁ b (Within-insert ids (node_count d) s a news.0 a_lt)
              b_lt in
          rw (some_new, apart)
            (
              within,
              λ pos. elim (Bool-cases (has h a)) [
                | inl held ↦ (b, ground (arith, in_b b), ground arith)
                | inr free ↦ (a, ground (arith, in_b a, in_a a), free)
              ],
            )
    ]
  ]

  absorb_parents-IsNews :
      IsWellFormed d → (ws : List ℕ) (s : Ids) → IsNews s → IsNews (absorb_parents ids d h ws s)
  absorb_parents-IsNews wf [] s news = news
  absorb_parents-IsNews wf (w ∷ ws) s news = absorb_parents-IsNews wf ws _ (
      each_pair-keeps (absorb_pair ids d h) IsNews (parents_raw d w) s
        (λ a b m m'. absorb_pair-IsNews a b (parent-lt d wf a w m) (parent-lt d wf b w m')) news)

  -- The parents of every child (or self) of what is marginalized out that is an ancestor (or self)
  -- of the set are linearly ordered.
  abbrev pub IsOrdered : Type 0
  IsOrdered =
      (w : ℕ)
      → has (children_or_self ids d (marginalized_out ids d h)) w ≡ true
      → IsAncestor d (items h) w
      → AllPairs is_ordered (parents_raw d w)

  -- The check returns; it finds nothing only if the parents are ordered, and else something new.
  violations-decide :
      IsWellFormed d
      → Within ids (node_count d) h
      → (absorb : Ids) × (linear_ordering_violation_parents ids d h ≡ ok absorb)
        × IsNews absorb
        × (len absorb ≡ 0 → IsOrdered)
  unfolding linear_ordering_violation_parents
  violations-decide wf within =
      let children = children_or_self ids d (marginalized_out ids d h) in
      let (ancestors, run, inside, exact) = ancestors_or_self_exact ids d wf h within in
      let ws = filter (has ancestors) (items children) in
      let none_yet : IsNews (IdSet.new ids) = (
        Within-new ids (node_count d),
        λ pos. absurd (omega (arith, len-items (IdSet.new ids), ap length (IdSet.items-new ids))),
      ) in
      (
        absorb_parents ids d h ws (IdSet.new ids),
        rw run refl,
        absorb_parents-IsNews wf ws (IdSet.new ids) none_yet,
        λ empty w m anc.
            let known : has ancestors w ≡ true = (exact w).1 anc in
            (absorb_parents-ordered ws (IdSet.new ids) empty).1 w (
              ground
                (arith, count-filter (has ancestors) (items children) w, has-count ids children w)),
      )

module _ (ids : IdSet) {im : NameIndex} (d : Dag im) (wf : IsWellFormed d) where
  open ids use {Ids, items, len, has}

  -- Each round but the last one makes the set grow.
  strong_loop-ends :
      (k : ℕ) (h : Ids)
      → Within ids (node_count d) h
      → node_count d < k + len h
      → (h' : Ids) × (strong_loop ids d k h ≡ ok h')
        × Within ids (node_count d) h'
        × IsDConvex ids d h'
        × IsOrdered ids d h'
        × ((v : ℕ) → has h v ≡ true → has h' v ≡ true)
  unfolding strong_loop d_convex_closure
  strong_loop-ends zero h within enough = absurd (omega (arith, len-le ids (node_count d) h within))
  strong_loop-ends (suc k) h within enough =
      let (h₁, run, within₁, convex, longer, kept) =
        closure_loop-ends ids d wf (node_count d + 1) h within (omega arith) in
      let (absorb, found, news, ordered) = violations-decide ids d h₁ wf within₁ in
      elim (Bool-cases (len absorb == 0)) [
        | inl e ↦ (h₁, rw (run, found, e) refl, within₁, convex, ordered (ground arith), kept)
        | inr e ↦
            let (v, in_absorb, fresh) = news.1 (ground arith) in
            let grows =
              len-extend-lt ids (items absorb) h₁ v fresh
                (ground (arith, has-count ids absorb v)) in
            let next : Within ids (node_count d) (extend ids h₁ (items absorb)) =
              Within-extend ids (node_count d) (items absorb) h₁ within₁ (λ x m.
                below_of_has ids (node_count d) absorb x news.0
                  (ground (arith, has-count ids absorb x))) in
            let (h₂, ends, within₂, convex₂, ordered₂, kept₂) =
              strong_loop-ends k (extend ids h₁ (items absorb)) next
                (omega (arith, grows, longer)) in
            (
              h₂,
              rw (run, found, e) ends,
              within₂,
              convex₂,
              ordered₂,
              λ x m. kept₂ x (ground (arith, has-extend ids (items absorb) h₁ x, kept x)),
            )
      ]

  -- For a well-formed graph and any list of required ids: either `strong_d_convex_hull` returns ok
  -- with a set of ids of the graph, each once, that has all the required ones, on which a round of
  -- path vertices finds nothing outside the set, and for which the parents of every child or self
  -- of what is marginalized out that is an ancestor or self of the set are pairwise adjacent or
  -- both in the set; or some required id is not in the graph and the result is `InvalidNodeId` with
  -- such an id. The bound on the rounds is never hit.
  pub strong_d_convex_hull_reached :
      (required : List ℕ)
      → ((h : Ids) × (strong_d_convex_hull ids d required ≡ ok h)
          × Within ids (node_count d) h
          × ((v : ℕ) → 0 < count v required → has h v ≡ true)
          × IsDConvex ids d h
          × IsOrdered ids d h)
        ⊎ ((id : ℕ) × (0 < count id required)
            × (node_count d ≤ id)
            × (strong_d_convex_hull ids d required ≡ err (invalid_node_id id)))
  unfolding strong_d_convex_hull
  strong_d_convex_hull_reached required = elim (check_ids-decides ids d wf required) [
    | inr (id, m, beyond, run) ↦ inr (id, m, beyond, rw run refl)
    | inl (run, below) ↦
        let start = collect ids required in
        let (h, ends, within, convex, ordered, kept) =
          strong_loop-ends (node_count d + 1) start (start-Within ids d wf required below)
            (omega arith) in
        inl (
          h,
          rw run ends,
          within,
          λ v m. kept v (ground (arith, has-collect ids required v, contains-count required v)),
          convex,
          ordered,
        )
  ]
