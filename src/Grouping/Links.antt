-- ===== src/Grouping/Links.antt =====
-- `union` of grouping.py, and what it does to the classes that the trees stand for.
use capturemate_ai.Prelude.{
  ℕ, zero, suc, ◌<◌, ◌≡◌, refl, ◌∙◌, ◌≢◌, ◌⊎◌, inl, inr, some, List, get_elem?, set, length-set,
  get_elem?-lt, arith, eqb, Bool-cases, eqb_iff, if◌then◌else◌,
}
use capturemate_ai.Grouping.{union}
use capturemate_ai.Grouping.Forest.{Root, Root-top, Root-set_tree, roots-set}
use capturemate_ai.Grouping.Find.{
  IsForest, HasRoot, HasRoot-unique, HasRoot-Keeps, IsForest-Keeps, find_forest,
}

-- The equivalence that a relation generates.
pub data Conn (E : ℕ → ℕ → Type 0) : ℕ → ℕ → Type 0 where
  link : {a b : ℕ} → E a b → Conn E a b
  same : {a b : ℕ} → a ≡ b → Conn E a b
  flip : {a b : ℕ} → Conn E a b → Conn E b a
  chain : {a b c : ℕ} → Conn E a b → Conn E b c → Conn E a c

pub Conn-map :
    {E F : ℕ → ℕ → Type 0} → ((a b : ℕ) → E a b → F a b) → {a b : ℕ} → Conn E a b → Conn F a b
Conn-map f (link e) = link (f _ _ e)
Conn-map f (same q) = same q
Conn-map f (flip c) = flip (Conn-map f c)
Conn-map f (chain c d) = chain (Conn-map f c) (Conn-map f d)

HasRoot-set_tree :
    (p : List ℕ) (a b z r : ℕ)
    → get_elem? p a ≡ some a
    → get_elem? p b ≡ some b
    → a ≢ b
    → HasRoot p z r
    → HasRoot (set p b a) z (if eqb r b then a else r)
HasRoot-set_tree p a b z r ha hb ne h =
    let (k, le, h') = Root-set_tree p a b ha hb ne h.depth z r h.path in
    record { depth = k; path = h' }

IsForest-set_tree :
    (n : ℕ) (p : List ℕ) (a b : ℕ)
    → get_elem? p a ≡ some a
    → get_elem? p b ≡ some b
    → a ≢ b
    → IsForest n p
    → IsForest n (set p b a)
IsForest-set_tree n p a b ha hb ne w = record {
  size = length-set p b a ∙ w.size;
  height = suc w.height;
  room = ground (arith, roots-set 0 p b b a hb, w.room);
  reach = λ x lt.
      let (k, r, le, h) = w.reach x lt in
      let (k', le', h') = Root-set_tree p a b ha hb ne k x r h in
      (k', (if eqb r b then a else r), omega arith, h');
}

-- What `union(a, b)` leaves: the tree of b's root hangs under a's root.
pub record Joined (n : ℕ) (p p' : List ℕ) (a b : ℕ) : Type 0 where
  pub forest : IsForest n p'
  pub root_a : ℕ
  pub root_b : ℕ
  pub has_a : HasRoot p a root_a
  pub has_b : HasRoot p b root_b
  pub moved : (z r : ℕ) → HasRoot p z r → HasRoot p' z (if eqb r root_b then root_a else r)

pub union_lem :
    (n : ℕ) (p : List ℕ) (a b : ℕ)
    → IsForest n p
    → a < n
    → b < n
    → (p' : List ℕ) × (union n p a b ≡ some p') × Joined n p p' a b
unfolding union
union_lem n p a b w la lb =
    let (ra, p₁, run₁, hra, keep₁) = find_forest n p a w la in
    let w₁ = IsForest-Keeps keep₁ w in
    let (rb, p₂, run₂, hrb, keep₂) = find_forest n p₁ b w₁ lb in
    let w₂ = IsForest-Keeps keep₂ w₁ in
    let stays = λ (z r : ℕ) (h : HasRoot p z r). HasRoot-Keeps keep₂ (HasRoot-Keeps keep₁ h) in
    let (sb, p₃, run₃, hsb, keep₃) = find_forest n p b w lb in
    let same_b : sb ≡ rb = HasRoot-unique (HasRoot-Keeps keep₁ hsb) hrb in
    let a₂ = stays a ra hra in
    let b₂ = HasRoot-Keeps keep₂ hrb in
    elim (Bool-cases (eqb ra rb)) [
      | inl eq ↦ (
        p₂,
        ground arith,
        record {
          forest = w₂;
          root_a = ra;
          root_b = rb;
          has_a = hra;
          has_b = rw (← same_b) hsb;
          moved = λ z r h. elim (Bool-cases (eqb r rb)) [
            | inl q ↦ rw (q, (eqb_iff ra rb).0 eq, ← (eqb_iff r rb).0 q) (stays z r h)
            | inr q ↦ rw q (stays z r h)
          ];
        },
      )
      | inr ne ↦
          let apart : ra ≢ rb = λ q. cc (ne, (eqb_iff ra rb).1 q) in
          let top_a = Root-top p₂ a₂.depth a ra a₂.path in
          let top_b = Root-top p₂ b₂.depth b rb b₂.path in
          (
            set p₂ rb ra,
            ground arith,
            record {
              forest = IsForest-set_tree n p₂ ra rb top_a top_b apart w₂;
              root_a = ra;
              root_b = rb;
              has_a = hra;
              has_b = rw (← same_b) hsb;
              moved = λ z r h. HasRoot-set_tree p₂ ra rb z r top_a top_b apart (stays z r h);
            },
          )
    ]

-- p is a forest whose trees are the classes of E.
pub record Tracks (n : ℕ) (E : ℕ → ℕ → Type 0) (p : List ℕ) : Type 0 where
  pub forest : IsForest n p
  pub sound : (a b r : ℕ) → a < n → b < n → HasRoot p a r → HasRoot p b r → Conn E a b
  pub complete : (a b r : ℕ) → E a b → HasRoot p a r → HasRoot p b r

pub Tracks-iff :
    {n : ℕ} {E F : ℕ → ℕ → Type 0} {p : List ℕ}
    → ((a b : ℕ) → E a b → F a b)
    → ((a b : ℕ) → F a b → E a b)
    → Tracks n E p
    → Tracks n F p
Tracks-iff to back t = record {
  forest = t.forest;
  sound = λ a b r la lb ha hb. Conn-map to (t.sound a b r la lb ha hb);
  complete = λ a b r f h. t.complete a b r (back a b f) h;
}

pub HasRoot-lt : {n a r : ℕ} {p : List ℕ} → IsForest n p → HasRoot p a r → a < n
HasRoot-lt {n} {a} {r} {p} w h = inside h.depth h.path
  where
    inside : (k : ℕ) → Root p k a r → a < n
    inside zero (f, _) = omega (arith, get_elem?-lt p a f, w.size)
    inside (suc k) (y, f, _, _) = omega (arith, get_elem?-lt p a f, w.size)

-- The pair (i, j) is new: F is E with that pair.
module _ {n i j : ℕ} {E F : ℕ → ℕ → Type 0} {p p' : List ℕ} (li : i < n) (lj : j < n)
    (old : (a b : ℕ) → E a b → F a b) (new : (a b : ℕ) → F a b → E a b ⊎ ((a ≡ i) × (b ≡ j)))
    (pair : F i j) (J : Joined n p p' i j) (t : Tracks n E p) where
  open J use {root_a, root_b, has_a, has_b, moved}

  within_E : (a b s : ℕ) → a < n → b < n → HasRoot p a s → HasRoot p b s → Conn F a b
  within_E a b s la lb ha hb = Conn-map old (t.sound a b s la lb ha hb)

  -- An index of the joined tree is joined to i; the others keep their root.
  home : (a r : ℕ) → HasRoot p' a r → ((r ≡ root_a) × Conn F a i) ⊎ (HasRoot p a r × (r ≢ root_b))
  home a r h =
      let la = HasRoot-lt J.forest h in
      let (k, s, le, q) = t.forest.reach a la in
      let was : HasRoot p a s = record { depth = k; path = q } in
      let now = moved a s was in
      elim (Bool-cases (eqb s root_b)) [
        | inl e ↦
            let to_j = within_E a j root_b la lj (rw (← (eqb_iff s root_b).0 e) was) has_b in
            inl (HasRoot-unique h (rw e at now), chain to_j (flip (link pair)))
        | inr ne ↦
            let keeps : s ≡ r = HasRoot-unique (rw ne at now) h in
            inr (rw (← keeps) was, λ e. cc (ne, (eqb_iff s root_b).1 (keeps ∙ e)))
      ]

  joined_to_i : (b r : ℕ) → b < n → r ≡ root_a → HasRoot p' b r → Conn F b i
  joined_to_i b r lb e h = elim (home b r h) [
    | inl (_, c) ↦ c
    | inr (was, _) ↦ within_E b i root_a lb li (rw (← e) was) has_a
  ]

  sound_join : (a b r : ℕ) → a < n → b < n → HasRoot p' a r → HasRoot p' b r → Conn F a b
  sound_join a b r la lb ha hb = elim (home a r ha) [
    | inl (e, c) ↦ chain c (flip (joined_to_i b r lb e hb))
    | inr (was, _) ↦ elim (home b r hb) [
      | inl (e, c) ↦ chain (joined_to_i a r la e ha) (flip c)
      | inr (was', _) ↦ within_E a b r la lb was was'
    ]
  ]

  at_i : HasRoot p' i root_a
  at_i = elim (Bool-cases (eqb root_a root_b)) [
    | inl e ↦ let h = moved i root_a has_a in rw e at h
    | inr e ↦ let h = moved i root_a has_a in rw e at h
  ]

  at_j : HasRoot p' j root_a
  at_j = let h = moved j root_b has_b in rw ((eqb_iff root_b root_b).1 refl) at h

  complete_join : (a b r : ℕ) → F a b → HasRoot p' a r → HasRoot p' b r
  complete_join a b r f h = elim (new a b f) [
    | inl e ↦
        let (k, s, le, q) = t.forest.reach a (HasRoot-lt J.forest h) in
        let was : HasRoot p a s = record { depth = k; path = q } in
        rw (HasRoot-unique h (moved a s was)) (moved b s (t.complete a b s e was))
    | inr (ea, eb) ↦ rw (HasRoot-unique (rw ea at h) at_i, eb) at_j
  ]

  pub Tracks-join : Tracks n F p'
  Tracks-join = record { forest = J.forest; sound = sound_join; complete = complete_join }
