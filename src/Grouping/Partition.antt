-- ===== src/Grouping/Partition.antt =====
-- The groups that grouping.py returns: a partition of the indices into the classes of the links.
use capturemate_ai.Prelude.{
  ℕ, zero, suc, ◌+◌, ◌<◌, ◌≡◌, refl, inl, inr, Bool, Option, some, List, [], In, arith, ltb, length,
  if◌then◌else◌, dec_lt, nat_eq,
}
use capturemate_ai.Prelude.Dict.{Dict, values, lookup}
use capturemate_ai.Prelude.Int.{ℤ}
use capturemate_ai.Prelude.Float.{Float, FloatOps}
use capturemate_ai.Grouping.{add_member, collect, group_by_links, group_indices, linked}
use capturemate_ai.Grouping.Find.{
  IsForest, HasRoot, HasRoot-unique, HasRoot-Keeps, IsForest-Keeps, Keeps, Keeps-refl, Keeps-trans,
  find_forest,
}
use capturemate_ai.Grouping.Links.{Conn, link, same, flip, chain, Tracks, HasRoot-lt}
use capturemate_ai.Grouping.Loop.{Linked, Total, pair_loop}
use capturemate_ai.Grouping.Members.{
  occurrences_all, occurrences_all-add_member, add_member-entry, lookup-add_member_old,
  lookup-add_member_new, In-values, values-In, lookup-In,
}

-- After the indices below i: each stands once, under its root in the forest p.
record Collected (p : List ℕ) (i : ℕ) (d : Dict ℕ (List ℕ)) : Type 0 where
  counts : (a : ℕ) → occurrences_all a (values d) ≡ (if ltb a i then 1 else 0)
  homes : (k x : ℕ) (l : List ℕ) → In (k, l) d → In x l → HasRoot p x k
  found : (a r : ℕ) → a < i → HasRoot p a r → (l : List ℕ) × (lookup r d ≡ some l) × In a l

module _ (n : ℕ) (p : List ℕ) (w : IsForest n p) where
  Collected-next :
      (i r : ℕ) (d : Dict ℕ (List ℕ))
      → HasRoot p i r
      → Collected p i d
      → Collected p (suc i) (add_member r i d)
  Collected-next i r d h c = record {
    counts = λ a. ground (arith, occurrences_all-add_member a r i d, c.counts a);
    homes = λ k x l q m. elim (add_member-entry r i k x l d q m) [
      | inl (l', q', m') ↦ c.homes k x l' q' m'
      | inr (ex, ek) ↦ rw (ex, ek) h
    ];
    found = λ a s lt g. elim (dec_lt a i) [
      | yes older ↦ let (l, e, m) = c.found a s older g in lookup-add_member_old s r i a d l e m
      | no newest ↦
          let is : a ≡ i = omega arith in
          let same : r ≡ s = HasRoot-unique h (rw is at g) in
          rw (is, ← same) (lookup-add_member_new r i d)
    ];
  }

  collect_lem :
      (left i : ℕ) (q : List ℕ) (d : Dict ℕ (List ℕ))
      → i + left ≡ n
      → Keeps p q
      → Collected p i d
      → (d' : Dict ℕ (List ℕ)) × (collect n left i q d ≡ some d') × Collected p n d'
  unfolding collect
  collect_lem zero i q d e keep c = let all : i ≡ n = omega arith in (d, refl, rw all at c)
  collect_lem (suc left) i q d e keep c =
      let (k, r, le, path) = w.reach i (omega arith) in
      let h : HasRoot p i r = record { depth = k; path = path } in
      let (s, q', run, hs, keep') = find_forest n q i (IsForest-Keeps keep w) (omega arith) in
      let same : s ≡ r = HasRoot-unique hs (HasRoot-Keeps keep h) in
      let c' = Collected-next i r d h c in
      let (d', run', c'') =
        collect_lem left (suc i) q' (add_member r i d) (omega arith) (Keeps-trans keep keep') c' in
      (d', rw (run, same, run'), c'')

-- The groups are the classes of the linked pairs, and hold each index below n once and no other.
pub record IsPartition (link? : ℕ → ℕ → Option Bool) (n : ℕ) (gs : List (List ℕ)) : Type 0 where
  pub once : (a : ℕ) → occurrences_all a gs ≡ (if ltb a n then 1 else 0)
  pub joined : (g : List ℕ) (a b : ℕ) → In g gs → In a g → In b g → Conn (Linked link? n) a b
  pub together :
      (a b : ℕ) → a < n → Conn (Linked link? n) a b → (g : List ℕ) × In g gs × In a g × In b g

Tracks-Conn :
    {n : ℕ} {E : ℕ → ℕ → Type 0} {p : List ℕ}
    → Tracks n E p
    → ((a b : ℕ) → E a b → (a < n) × (b < n))
    → {a b : ℕ} → Conn E a b
    → ((r : ℕ) → HasRoot p a r → HasRoot p b r) × ((r : ℕ) → HasRoot p b r → HasRoot p a r)
Tracks-Conn t inside (link {a} {b} e) = (
  λ r. t.complete a b r e,
  λ r h.
      let (k, s, le, path) = t.forest.reach a (inside a b e).0 in
      let root_a : HasRoot _ a s = record { depth = k; path = path } in
      rw (HasRoot-unique h (t.complete a b s e root_a)) root_a,
)
Tracks-Conn t inside (same e) = (λ r h. rw e at h, λ r h. rw (← e) at h)
Tracks-Conn t inside (flip c) = let (to, back) = Tracks-Conn t inside c in (back, to)
Tracks-Conn t inside (chain c d) =
    let (to, back) = Tracks-Conn t inside c in
    let (to', back') = Tracks-Conn t inside d in (λ r h. to' r (to r h), λ r h. back r (back' r h))

module _ {link? : ℕ → ℕ → Option Bool} {n : ℕ} {p : List ℕ} {d : Dict ℕ (List ℕ)}
    (t : Tracks n (Linked link? n) p) (c : Collected p n d) where
  Linked-inside : (x y : ℕ) → Linked link? n x y → (x < n) × (y < n)
  Linked-inside x y l = omega (arith, l.up, l.within)

  one_group :
      (a b : ℕ)
      → a < n
      → Conn (Linked link? n) a b
      → (g : List ℕ) × In g (values d) × In a g × In b g
  one_group a b la path =
      let (k, r, le, q) = t.forest.reach a la in
      let ha : HasRoot p a r = record { depth = k; path = q } in
      let hb = (Tracks-Conn t Linked-inside path).0 r ha in
      let (l, e, m) = c.found a r la ha in
      let (l', e', m') = c.found b r (HasRoot-lt t.forest hb) hb in
      let same : l' ≡ l = ground arith in (l, In-values (lookup-In r l d e), m, rw (← same) m')

  Collected-IsPartition : IsPartition link? n (values d)
  Collected-IsPartition = record {
    once = c.counts;
    joined = λ g a b q ma mb.
        let (k, q') = values-In g d q in
        let ha = c.homes k a g q' ma in
        let hb = c.homes k b g q' mb in
        t.sound a b k (HasRoot-lt t.forest ha) (HasRoot-lt t.forest hb) ha hb;
    together = one_group;
  }

Collected-nil : (p : List ℕ) → Collected p 0 []
Collected-nil p = record {
  counts = λ a. ground arith;
  homes = λ k x l q m. elim q [ ];
  found = λ a r lt h. absurd (omega arith);
}

-- If every link test of a pair i < j < n returns, `group_by_links` returns groups that hold each
-- index below n exactly once and nothing else, and two indices below n share a group exactly when
-- a chain of linked pairs joins them.
pub group_by_links-IsPartition :
    (link? : ℕ → ℕ → Option Bool) (n : ℕ)
    → Total link? n
    → (gs : List (List ℕ)) × (group_by_links link? n ≡ some gs) × IsPartition link? n gs
unfolding group_by_links
group_by_links-IsPartition link? n total =
    let (p, run, t) = pair_loop link? n total in
    let (d, run', c) =
      collect_lem n p t.forest n 0 p [] (omega arith) (Keeps-refl p) (Collected-nil p) in
    (values d, rw (run, run'), Collected-IsPartition t c)

-- If every pair's similarity test returns, `group_indices` returns a partition of the items into
-- the classes that the similar pairs generate.
pub group_indices-IsPartition :
    (ops : FloatOps) (embeddings : List (List Float)) (timestamps_ms : List (Option ℤ))
    (threshold tau_seconds w_min : Float)
    → Total (linked ops embeddings timestamps_ms threshold tau_seconds w_min) (length embeddings)
    → (gs : List (List ℕ)) × (group_indices ops embeddings timestamps_ms threshold tau_seconds w_min
        ≡ some gs)
      × IsPartition
          (linked ops embeddings timestamps_ms threshold tau_seconds w_min)
          (length embeddings)
          gs
unfolding group_indices
group_indices-IsPartition ops embeddings timestamps_ms threshold tau_seconds w_min total =
    group_by_links-IsPartition _ (length embeddings) total
