-- ===== src/Batch/Steps.antt =====
-- The steps of a batch: what a return tells of the parts, and the members of the memos of one source.
use capturemate_ai.Prelude.{
  ℕ, ◌≡◌, refl, sym, ap, ◌∙◌, inl, inr, Option, none, some, List, [], ◌∷◌, ◌++◌, Str, here, there,
  In-append_left, In-append_right, In-append, get_elem?, Bool-cases, some_inj, none-some, ◌==◌,
  str_eq,
}
use capturemate_ai.Prelude.Dict.{Dict}
use capturemate_ai.Text.{codes}
use capturemate_ai.Privacy.{MaskResult}
use capturemate_ai.Json.{Result, ok, raise, bind-ok, ok_inj, or_arithmetic, or_arithmetic-ok}
use capturemate_ai.Models.{AnalyzeResponse, AnalyzeBatchItem, MemoGroup, Settings}
use capturemate_ai.Places.Refs.{relisted}
use capturemate_ai.Service.{Runtime, Client, World}
use capturemate_ai.Places.Buckets.{Covers}
use capturemate_ai.Split.Members.{split_restaurant_analysis-Covers}
use capturemate_ai.Batch.{restore_groups, split_of, or_alone, source_groups, after, append_groups}
use capturemate_ai.Batch.Members.{Members, restore_groups-HasMember}

pub Covers-append :
    (items : List AnalyzeBatchItem) (xs ys : List ℕ) (gs hs : List MemoGroup)
    → Covers items xs gs
    → Covers items ys hs
    → Covers items (xs ++ ys) (gs ++ hs)
Covers-append items xs ys gs hs c d = record {
  sound = λ id (g, i, m). elim (In-append gs i) [
    | inl j ↦ let s = c.sound id (g, j, m) in relisted (xs ++ ys) s (In-append_left ys s.listed)
    | inr j ↦ let s = d.sound id (g, j, m) in relisted (xs ++ ys) s (In-append_right xs s.listed)
  ];
  complete = λ id s. elim (In-append xs s.listed) [
    | inl j ↦ let (g, i, m) = c.complete id (relisted xs s j) in (g, In-append_left hs i, m)
    | inr j ↦ let (g, i, m) = d.complete id (relisted ys s j) in (g, In-append_right gs i, m)
  ];
}

pub Covers-nil : (items : List AnalyzeBatchItem) → Covers items [] []
Covers-nil items = record {
  sound = λ id (g, i, m). elim i [ ];
  complete = λ id s. elim s.listed [ ];
}

pub ids-Covers :
    (items : List AnalyzeBatchItem) (xs : List ℕ) (ids : List Str) (a : AnalyzeResponse)
    → Members items xs ids
    → Covers items xs (record { member_client_ids = ids; analysis = a } ∷ [])
ids-Covers items xs ids a members = record {
  sound = λ id (g, i, m). elim i [ here e ↦ (members id).0 (rw e at m) | there n ↦ elim n [ ] ];
  complete = λ id s. (_, here refl, (members id).1 s);
}

module _ (rt : Runtime) (cfg : Settings) (client : Option Client) (locale : Str) where
  open rt use {unicode, floats}

  abbrev pub Run : Type 0
  Run = Result (List MemoGroup) × World

  -- Both steps have returned.
  pub after-ok {ℓ} :
      {A : Type ℓ} (p : Result A × World) (f : A → World → Run) {gs : List MemoGroup}
      → (after rt cfg client locale p f).0 ≡ ok gs
      → (a : A) × (p.0 ≡ ok a) × ((f a p.1).0 ≡ ok gs)
  after-ok (ok a, w) f h = (a, refl, h)
  after-ok (raise e, w) f h = cc

  pub append_groups-ok :
      (gs : List MemoGroup) (p : Run) {all : List MemoGroup}
      → (append_groups rt cfg client locale gs p).0 ≡ ok all
      → (hs : List MemoGroup) × (p.0 ≡ ok hs) × (gs ++ hs ≡ all)
  append_groups-ok gs (ok hs, w) h = (hs, refl, ok_inj h)
  append_groups-ok gs (raise e, w) h = cc

  pub restored-Covers :
      (items : List AnalyzeBatchItem) (xs : List ℕ) (mapping : Dict Str Str)
      (gs gs' : List MemoGroup)
      → restore_groups rt cfg mapping gs ≡ ok gs'
      → Covers items xs gs
      → Covers items xs gs'
  restored-Covers items xs mapping gs gs' h c = record {
    sound = λ id m. c.sound id ((restore_groups-HasMember rt cfg mapping gs gs' h id).0 m);
    complete = λ id s. (restore_groups-HasMember rt cfg mapping gs gs' h id).1 (c.complete id s);
  }

  -- The memo of a source that is not split.
  alone-Covers :
      (items : List AnalyzeBatchItem) (i : ℕ) (item : AnalyzeBatchItem) (a : AnalyzeResponse)
      → get_elem? items i ≡ some item
      → Covers items
          (i ∷ [])
          (record { member_client_ids = item.client_id ∷ []; analysis = a } ∷ [])
  alone-Covers items i item a e = record {
    sound = λ id (g, q, m). elim q [
      | here eg ↦ elim (rw eg at m) [
        | here is ↦ record {
          index = i;
          item = item;
          listed = here refl;
          at_index = e;
          same_id = is;
        }
        | there n ↦ elim n [ ]
      ]
      | there n ↦ elim n [ ]
    ];
    complete = λ id s. elim s.listed [
      | here is ↦ (
        _,
        here refl,
        here (
            s.same_id
            ∙ ap (λ (x : AnalyzeBatchItem). x.client_id)
                (some_inj (sym s.at_index ∙ ap (get_elem? items) is ∙ e))),
      )
      | there n ↦ elim n [ ]
    ];
  }

  split_of-Covers :
      (analysis : AnalyzeResponse) (xs : List ℕ) (items : List AnalyzeBatchItem)
      (gs : List MemoGroup)
      → split_of rt cfg client locale analysis xs items ≡ ok (some gs)
      → Covers items xs gs
  split_of-Covers analysis xs items gs h =
      elim (Bool-cases (analysis.category == codes "restaurant")) [
        | inl eats ↦
            split_restaurant_analysis-Covers unicode floats rt.format analysis xs items gs
              (rw eats at h)
        | inr other ↦ absurd (none-some (ok_inj (rw other at h)))
      ]

  or_alone-Covers :
      (items : List AnalyzeBatchItem) (i : ℕ) (item : AnalyzeBatchItem) (a : AnalyzeResponse)
      (split : Option (List MemoGroup))
      → get_elem? items i ≡ some item
      → ((gs : List MemoGroup) → split ≡ some gs → Covers items (i ∷ []) gs)
      → Covers items (i ∷ []) (or_alone rt cfg client locale a item.client_id split)
  or_alone-Covers items i item a none e c = alone-Covers items i item a e
  or_alone-Covers items i item a (some gs) e c = c gs refl

  pub source_groups-Covers :
      (items : List AnalyzeBatchItem) (mask_results : List MaskResult) (i : ℕ) (a : AnalyzeResponse)
      (gs : List MemoGroup)
      → source_groups rt cfg client locale items mask_results i a ≡ ok gs
      → Covers items (i ∷ []) gs
  unfolding source_groups
  source_groups-Covers items mask_results i a gs h =
      let (item, ei, h₁) = bind-ok (or_arithmetic (get_elem? items i)) _ h in
      let (mr, em, h₂) = bind-ok (or_arithmetic (get_elem? mask_results i)) _ h₁ in
      let (split, es, h₃) = bind-ok (split_of rt cfg client locale a (i ∷ []) items) _ h₂ in
      restored-Covers items (i ∷ []) mr.mapping _ gs h₃ (
        or_alone-Covers items i item a split (or_arithmetic-ok _ ei)
          (λ hs e. split_of-Covers a (i ∷ []) items hs (es ∙ ap ok e)))
