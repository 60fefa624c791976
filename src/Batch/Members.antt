-- ===== src/Batch/Members.antt =====
-- The parts of batch.py that name members: ids, restored memos, and the groups of indices.
use capturemate_ai.Prelude.{
  ℕ, zero, suc, ◌+◌, ◌<◌, ◌≤◌, ◌≡◌, refl, sym, ap, ◌∙◌, inl, inr, ◌↔◌, Bool, Option, none, some,
  List, [], ◌∷◌, ◌++◌, Str, In, here, there, In-append_left, In-append_right, In-append, length,
  get_elem?, Bool-cases, some_inj, eqb, eqb_iff, arith, nat_eq, dec_lt,
}
use capturemate_ai.Prelude.Float.{Float}
use capturemate_ai.Prelude.Int.{ℤ}
use capturemate_ai.Prelude.Dict.{Dict}
use capturemate_ai.Prelude.Options.{bind-some}
use capturemate_ai.Json.{ok, bind-ok, ok_inj, or_arithmetic-ok}
use capturemate_ai.Models.{AnalyzeBatchItem, MemoGroup, Settings}
use capturemate_ai.Grouping.{group_indices}
use capturemate_ai.Grouping.Links.{same}
use capturemate_ai.Grouping.Members.{occurrences, occurrences_all}
use capturemate_ai.Grouping.Partition.{IsPartition}
use capturemate_ai.Grouping.Returned.{group_by_links-returned}
use capturemate_ai.Places.Refs.{IsSource, relisted}
use capturemate_ai.Service.{Runtime}
use capturemate_ai.Places.Buckets.{HasMember}
use capturemate_ai.Restore.{restore_in_response}
use capturemate_ai.Batch.{singles, group_embedded, group_items, client_ids, restore_groups}

abbrev pub concat : List (List ℕ) → List ℕ
concat [] = []
concat (g ∷ gs) = g ++ concat gs

pub In-concat : {i : ℕ} {g : List ℕ} (gs : List (List ℕ)) → In g gs → In i g → In i (concat gs)
In-concat [] q m = elim q [ ]
In-concat (g ∷ gs) (here e) m = In-append_left (concat gs) (rw e at m)
In-concat (g ∷ gs) (there q) m = In-append_right g (In-concat gs q m)

occurrences-pos : {a : ℕ} (g : List ℕ) → In a g → 0 < occurrences a g
occurrences-pos [] m = elim m [ ]
occurrences-pos {a = a} (x ∷ g) (here e) = ground arith
occurrences-pos (x ∷ g) (there m) = omega (arith, occurrences-pos g m)

occurrences_all-pos : {a : ℕ} (gs : List (List ℕ)) → In a (concat gs) → 0 < occurrences_all a gs
occurrences_all-pos [] m = elim m [ ]
occurrences_all-pos (g ∷ gs) m = elim (In-append g m) [
  | inl p ↦ omega (arith, occurrences-pos g p)
  | inr p ↦ omega (arith, occurrences_all-pos gs p)
]

-- The groups hold the indices below n and no others.
abbrev pub AllBelow : ℕ → List (List ℕ) → Type 0
AllBelow n gs = (i : ℕ) → In i (concat gs) ↔ (i < n)

IsPartition-AllBelow :
    {link? : ℕ → ℕ → Option Bool} {n : ℕ} {gs : List (List ℕ)}
    → IsPartition link? n gs
    → AllBelow n gs
IsPartition-AllBelow {gs = gs} p i = (
  λ m. ground (arith, occurrences_all-pos gs m, p.once i),
  λ lt. let (g, q, m, m') = p.together i i lt (same refl) in In-concat gs q m,
)

singles_sound : (s n i : ℕ) → In i (concat (singles s n)) → (s ≤ i) × (i < s + n)
unfolding singles
singles_sound s zero i m = elim m [ ]
singles_sound s (suc n) i (here e) = omega arith
singles_sound s (suc n) i (there m) = omega (arith, singles_sound (suc s) n i m)

singles_complete : (s n i : ℕ) → s ≤ i → i < s + n → In i (concat (singles s n))
unfolding singles
singles_complete s zero i le lt = absurd (omega arith)
singles_complete s (suc n) i le lt = elim (dec_lt s i) [
  | yes more ↦ there (singles_complete (suc s) n i (omega arith) (omega arith))
  | no least ↦ here (omega arith)
]

pub singles-AllBelow : (n : ℕ) → AllBelow n (singles 0 n)
singles-AllBelow n i = (
  λ m. omega (arith, singles_sound 0 n i m),
  λ lt. singles_complete 0 n i (omega arith) (omega arith),
)

abbrev pub Members : List AnalyzeBatchItem → List ℕ → List Str → Type 0
Members items idx_list ids = (id : Str) → In id ids ↔ IsSource items idx_list id

module _ (rt : Runtime) (cfg : Settings) where
  open rt use {floats}

  group_embedded-AllBelow :
      (masked : List Str) (timestamps : List (Option ℤ)) (answer : Option (List (List Float)))
      (gs : List (List ℕ))
      → group_embedded rt cfg masked timestamps answer ≡ ok gs
      → AllBelow (length masked) gs
  unfolding group_embedded group_indices
  group_embedded-AllBelow masked timestamps none gs h =
      rw (ok_inj h) at (singles-AllBelow (length masked))
  group_embedded-AllBelow masked timestamps (some embeddings) gs h =
      elim (Bool-cases (eqb (length embeddings) (length masked))) [
        | inr other ↦ rw (ok_inj (rw other at h)) at (singles-AllBelow (length masked))
        | inl same_size ↦
            let size = (eqb_iff (length embeddings) (length masked)).0 same_size in
            rw size at (
              IsPartition-AllBelow (
                group_by_links-returned _ (length embeddings) gs
                  (or_arithmetic-ok _ (rw same_size at h))))
      ]

  -- Where the grouping returns, its groups hold the indices of the items and no others.
  pub group_items-AllBelow :
      (embedding : Option (List Str → Option (List (List Float)))) (masked : List Str)
      (timestamps : List (Option ℤ)) (gs : List (List ℕ))
      → group_items rt cfg embedding masked timestamps ≡ ok gs
      → AllBelow (length masked) gs
  unfolding group_items
  group_items-AllBelow none masked timestamps gs h =
      rw (ok_inj h) at (singles-AllBelow (length masked))
  group_items-AllBelow (some embed) masked timestamps gs h =
      group_embedded-AllBelow masked timestamps _ gs h

  pub client_ids-Members :
      (items : List AnalyzeBatchItem) (idx_list : List ℕ) (ids : List Str)
      → client_ids rt cfg items idx_list ≡ some ids
      → Members items idx_list ids
  unfolding client_ids
  client_ids-Members items [] ids h id =
      (λ m. elim (rw (← some_inj h) at m) [ ], λ s. elim s.listed [ ])
  client_ids-Members items (i ∷ idx_list) ids h id =
      let (item, at_i, h') = bind-some (get_elem? items i) _ h in
      let (rest, er, h'') = bind-some (client_ids rt cfg items idx_list) _ h' in
      let (to, back) = client_ids-Members items idx_list rest er id in
      rw (← some_inj h'') (
        λ m. elim m [
          | here e ↦ record {
            index = i;
            item = item;
            listed = here refl;
            at_index = at_i;
            same_id = e;
          }
          | there j ↦ let s = to j in relisted (i ∷ idx_list) s (there s.listed)
        ],
        λ s. elim s.listed [
          | here e ↦ here (
              s.same_id
              ∙ ap (λ (x : AnalyzeBatchItem). x.client_id)
                  (some_inj (sym s.at_index ∙ ap (get_elem? items) e ∙ at_i)))
          | there j ↦ there (back (relisted idx_list s j))
        ],
      )

  pub restore_groups-HasMember :
      (mapping : Dict Str Str) (gs gs' : List MemoGroup)
      → restore_groups rt cfg mapping gs ≡ ok gs'
      → (id : Str) → HasMember gs' id ↔ HasMember gs id
  unfolding restore_groups
  restore_groups-HasMember mapping [] gs' h id =
      (λ (g, i, m). elim (rw (← ok_inj h) at i) [ ], λ (g, i, m). elim i [ ])
  restore_groups-HasMember mapping (g ∷ gs) gs' h id =
      let (a, ea, h') = bind-ok (restore_in_response g.analysis mapping) _ h in
      let (rest, er, h'') = bind-ok (restore_groups rt cfg mapping gs) _ h' in
      let (to, back) = restore_groups-HasMember mapping gs rest er id in
      rw (← ok_inj h'') (
        λ (k, i, m). elim i [
          | here e ↦ (g, here refl, rw e at m)
          | there j ↦ let (c, q, n) = to (k, j, m) in (c, there q, n)
        ],
        λ (k, i, m). elim i [
          | here e ↦ (_, here refl, rw e at m)
          | there j ↦ let (c, q, n) = back (k, j, m) in (c, there q, n)
        ],
      )
