-- ===== src/Batch/Returns.antt =====
-- The steps of a batch without a client that return.
use capturemate_ai.Prelude.{
  ℕ, suc, ◌<◌, ◌≡◌, refl, Bool, true, false, none, some, List, [], ◌∷◌, ◌++◌, Str, In, here, there,
  get_elem?_of_lt, length, str_eq, if◌then◌else◌,
}
use capturemate_ai.Prelude.Dict.{Dict, update}
use capturemate_ai.Text.{codes, nonempty, join}
use capturemate_ai.Privacy.{MaskResult}
use capturemate_ai.Json.{Result, ok, raise, raise-ok, ok_inj, get}
use capturemate_ai.Models.{AnalyzeResponse, AnalyzeBatchItem, MemoGroup, Settings}
use capturemate_ai.Service.{Runtime, World}
use capturemate_ai.Service.Offline.{IsPlain, analyze-IsPlain}
use capturemate_ai.Split.{split_restaurant_analysis}
use capturemate_ai.Batch.{
  merge_mappings, client_ids, source_parts, merge_with_source_refs, after, append_groups,
  analyze_merged,
}

abbrev pub Below : ℕ → List ℕ → Type 0
Below n xs = (i : ℕ) → In i xs → i < n

pub either_some :
    {A : Type 0} (b : Bool) (x y : A) → (z : A) × ((if b then some x else some y) ≡ some z)
either_some true x y = (x, refl)
either_some false x y = (y, refl)

module _ (rt : Runtime) (cfg : Settings) (locale : Str) where
  open rt use {unicode, floats}

  abbrev pub Run : Type 0
  Run = Result (List MemoGroup) × World

  abbrev pub Returns : Run → Type 0
  Returns p = (gs : List MemoGroup) × (p.0 ≡ ok gs)

  pub after-Returns {ℓ} :
      {A : Type ℓ} (p : Result A × World) (f : A → World → Run) {a : A}
      → p.0 ≡ ok a
      → Returns (f a p.1)
      → Returns (after rt cfg none locale p f)
  after-Returns (raise e, w) f h k = absurd (raise-ok h)
  after-Returns (ok x, w) f h k = rw (ok_inj h) k

  pub append_groups-Returns :
      (gs : List MemoGroup) (p : Run) → Returns p → Returns (append_groups rt cfg none locale gs p)
  append_groups-Returns gs (raise e, w) (hs, h) = absurd (raise-ok h)
  append_groups-Returns gs (ok x, w) h = (gs ++ x, refl)

  pub merge_mappings-returns :
      (results : List MaskResult) (xs : List ℕ) (merged : Dict Str Str)
      → Below (length results) xs
      → (m : Dict Str Str) × (merge_mappings rt cfg results xs merged ≡ some m)
  unfolding merge_mappings
  merge_mappings-returns results [] merged b = (merged, refl)
  merge_mappings-returns results (i ∷ xs) merged b =
      let (mr, e) = get_elem?_of_lt results i (b i (here refl)) in
      let (m, e') =
        merge_mappings-returns results xs (update merged mr.mapping) (λ j m. b j (there m)) in
      (m, rw e e')

  pub source_parts-returns :
      (masked : List Str) (k : ℕ) (xs : List ℕ)
      → Below (length masked) xs
      → (parts : List Str) × (source_parts masked k xs ≡ some parts)
  unfolding source_parts
  source_parts-returns masked k [] b = ([], refl)
  source_parts-returns masked k (i ∷ xs) b =
      let (text, e) = get_elem?_of_lt masked i (b i (here refl)) in
      let (parts, e') = source_parts-returns masked (suc k) xs (λ j m. b j (there m)) in
      rw (e, e') (either_some (nonempty text) _ parts)

  pub client_ids-returns :
      (items : List AnalyzeBatchItem) (xs : List ℕ)
      → Below (length items) xs
      → (ids : List Str) × (client_ids rt cfg items xs ≡ some ids)
  unfolding client_ids
  client_ids-returns items [] b = ([], refl)
  client_ids-returns items (i ∷ xs) b =
      let (item, e) = get_elem?_of_lt items i (b i (here refl)) in
      let (ids, e') = client_ids-returns items xs (λ j m. b j (there m)) in
      (item.client_id ∷ ids, rw (e, e'))

  pub analyze_merged-IsPlain :
      (masked : List Str) (xs : List ℕ) (w : World)
      → Below (length masked) xs
      → (r : AnalyzeResponse) × ((analyze_merged rt cfg none locale masked xs w).0 ≡ ok r)
        × IsPlain r
  unfolding analyze_merged merge_with_source_refs
  analyze_merged-IsPlain masked xs w b =
      let (parts, e) = source_parts-returns masked 0 xs b in
      let (r, q, v) = analyze-IsPlain rt cfg locale (join (codes "\n\n") parts) w in (r, rw e q, v)

  -- Without details there is nothing to split.
  pub no_split :
      (a : AnalyzeResponse) (xs : List ℕ) (items : List AnalyzeBatchItem)
      → IsPlain a
      → split_restaurant_analysis unicode floats rt.format a xs items ≡ ok none
  unfolding split_restaurant_analysis get
  no_split a xs items p = rw p.bare refl
