-- ===== src/Clients/Grouped.antt =====
-- The grouping of a batch with an embedding client of the factory.
use capturemate_ai.Prelude.{
  ℕ, ◌≡◌, refl, ap, ◌∙◌, ◌⊎◌, inl, inr, Option, none, some, List, map, Str, length, length-map,
  eqb_iff,
}
use capturemate_ai.Prelude.Float.{Float}
use capturemate_ai.Prelude.Int.{ℤ}
use capturemate_ai.Json.{Result, ok, or_arithmetic}
use capturemate_ai.Models.{Settings}
use capturemate_ai.Service.{Runtime}
use capturemate_ai.Grouping.{group_indices}
use capturemate_ai.Batch.{Embedder, embed_input, singles, group_embedded, group_items}
use capturemate_ai.Clients.{Sdk, build_embedding_client}
use capturemate_ai.Clients.Contract.{IsSdk}
use capturemate_ai.Clients.Factory.{build_embedding_client-IsBuilt}

module _ (rt : Runtime) (cfg : Settings) (int_of_float : Float → Result ℤ) (sdk : Sdk)
    (vector : Str → Str → List Float) where
  -- The texts are grouped by their own vectors.
  abbrev pub ByVectors : List Str → List (Option ℤ) → Result (List (List ℕ)) → Type 0
  ByVectors masked times groups =
      (model : Str) × (groups
        ≡ or_arithmetic (
            group_indices rt.floats (map (vector model) (map (embed_input rt cfg) masked)) times
              cfg.grouping_threshold cfg.grouping_tau_seconds cfg.grouping_w_min))

  embedded-ByVectors :
      (masked : List Str) (times : List (Option ℤ)) (model : Str) (o : Option (List (List Float)))
      → ((vs : List (List Float))
          → o ≡ some vs
          → vs ≡ map (vector model) (map (embed_input rt cfg) masked))
      → (group_embedded rt cfg masked times o ≡ ok (singles 0 (length masked)))
        ⊎ ByVectors masked times (group_embedded rt cfg masked times o)
  unfolding group_embedded
  embedded-ByVectors masked times model none f = inl refl
  embedded-ByVectors masked times model (some vs) f =
      let same = f vs refl in
      let size : length vs ≡ length masked =
        ap length same
        ∙ (length-map (vector model) (map (embed_input rt cfg) masked)
            ∙ length-map (embed_input rt cfg) masked) in
      let tested = (eqb_iff (length vs) (length masked)).1 size in
      inr (
        model,
        rw tested (
            ap
              (λ x. or_arithmetic (
                group_indices rt.floats x times cfg.grouping_threshold cfg.grouping_tau_seconds
                  cfg.grouping_w_min))
              same),
      )

  -- Where the factory of the embeddings returns, with a client or with none, a batch is either left
  -- in single groups, or every text is compared by the vector of its own preprocessed text, cut to
  -- 2000 characters: no vector is missing, and none stands at the place of another text. This
  -- supposes what the packages document of their responses.
  pub group_items-ByVectors :
      IsSdk sdk vector
      → (masked : List Str) (times : List (Option ℤ)) (embedder : Option Embedder)
      → build_embedding_client rt.unicode rt.floats int_of_float sdk cfg ≡ ok embedder
      → (group_items rt cfg embedder masked times ≡ ok (singles 0 (length masked)))
        ⊎ ByVectors masked times (group_items rt cfg embedder masked times)
  unfolding group_items
  group_items-ByVectors sound masked times none h = inl refl
  group_items-ByVectors sound masked times (some embed) h =
      let built =
        build_embedding_client-IsBuilt rt.unicode rt.floats int_of_float sdk cfg vector sound embed
          h in
      embedded-ByVectors masked times built.model (embed (map (embed_input rt cfg) masked))
        (λ vs e. built.kept.ordered (map (embed_input rt cfg) masked) vs e)
