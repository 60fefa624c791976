-- ===== src/Clients/Vectors.antt =====
-- What the constructions of the embedding clients of app/embeddings/ give.
use capturemate_ai.Prelude.{
  ◌≡◌, ◌≢◌, refl, subst, ◌∙◌, ◌⊎◌, inl, inr, Bool-cases, some, some_inj, List, [], Str, ◌==◌,
  str_eq,
}
use capturemate_ai.Prelude.Float.{Float, FloatOps}
use capturemate_ai.Prelude.Int.{ℤ}
use capturemate_ai.Text.{Unicode, codes}
use capturemate_ai.Json.{Result, ok, raise, ok_inj, raise-ok, bind-ok}
use capturemate_ai.Models.{Settings}
use capturemate_ai.Batch.{Embedder}
use capturemate_ai.Clients.{
  Sdk, gemini_embed, openai_embed, embedding_timeout_ms, new_gemini_embedder, new_openai_embedder,
  present_embedder, openai_model,
}
use capturemate_ai.Clients.Contract.{
  IsEmbeddingClient, IsSdk, gemini_embed-IsEmbeddingClient, openai_embed-IsEmbeddingClient,
}

-- The setting has the key, and it is not empty.
abbrev pub HasKey : Settings → Str → Type 0
HasKey cfg key = (cfg.llm_api_key ≡ some key) × (key ≢ [])

module _ (unicode : Unicode) (floats : FloatOps) (int_of_float : Float → Result ℤ) (sdk : Sdk)
    (cfg : Settings) where
  module _ (vector : Str → Str → List Float) where
    -- The embedding client keeps its contract with the vectors of one of the two models.
    pub record IsBuilt (embed : Embedder) : Type 0 where
      pub key : Str
      pub keyed : HasKey cfg key
      pub model : Str
      pub chosen : (model ≡ cfg.llm_embedding_model) ⊎ (model ≡ codes "text-embedding-3-small")
      pub kept : IsEmbeddingClient (vector model) embed

    present-some :
        (r : Result Embedder) (embed : Embedder)
        → present_embedder unicode floats int_of_float sdk cfg r ≡ ok (some embed)
        → (e : Embedder) × (r ≡ ok e) × (e ≡ embed)
    present-some (ok e) embed h = (e, refl, some_inj (ok_inj h))
    present-some (raise x) embed h = absurd (raise-ok h)

    chosen_model :
        (model : Str)
        → (openai_model model ≡ model) ⊎ (openai_model model ≡ codes "text-embedding-3-small")
    chosen_model model = elim (Bool-cases (model == codes "text-embedding-004")) [
      | inl y ↦ inr (rw y refl)
      | inr n ↦ inl (rw n refl)
    ]

    gemini_embed-IsBuilt :
        IsSdk sdk vector
        → (key : Str) → HasKey cfg key
        → IsBuilt (gemini_embed sdk key cfg.llm_embedding_model)
    gemini_embed-IsBuilt sound key k = record {
      key = key;
      keyed = k;
      model = cfg.llm_embedding_model;
      chosen = inl refl;
      kept = gemini_embed-IsEmbeddingClient sdk vector sound key cfg.llm_embedding_model;
    }

    openai_embed-IsBuilt :
        IsSdk sdk vector
        → (key : Str) → HasKey cfg key
        → IsBuilt (openai_embed sdk key (openai_model cfg.llm_embedding_model))
    openai_embed-IsBuilt sound key k = record {
      key = key;
      keyed = k;
      model = openai_model cfg.llm_embedding_model;
      chosen = chosen_model cfg.llm_embedding_model;
      kept =
          openai_embed-IsEmbeddingClient sdk vector sound key
            (openai_model cfg.llm_embedding_model);
    }

    pub new_gemini_embedder-IsBuilt :
        IsSdk sdk vector
        → (key : Str) (embed : Embedder) → HasKey cfg key
        → present_embedder unicode floats int_of_float sdk cfg
            (new_gemini_embedder unicode floats int_of_float sdk cfg key)
          ≡ ok (some embed)
        → IsBuilt embed
    unfolding new_gemini_embedder
    new_gemini_embedder-IsBuilt sound key embed k h =
        let (e, r, h₁) =
          present-some (new_gemini_embedder unicode floats int_of_float sdk cfg key) embed h in
        let (ms, t, h₂) = bind-ok (embedding_timeout_ms unicode floats int_of_float sdk cfg) _ r in
        let (made, c, h₃) = bind-ok (sdk.genai_embedding_client key ms) _ h₂ in
        subst IsBuilt (ok_inj h₃ ∙ h₁) (gemini_embed-IsBuilt sound key k)

    pub new_openai_embedder-IsBuilt :
        IsSdk sdk vector
        → (key : Str) (embed : Embedder) → HasKey cfg key
        → present_embedder unicode floats int_of_float sdk cfg
            (new_openai_embedder unicode floats int_of_float sdk cfg key)
          ≡ ok (some embed)
        → IsBuilt embed
    unfolding new_openai_embedder
    new_openai_embedder-IsBuilt sound key embed k h =
        let (e, r, h₁) =
          present-some (new_openai_embedder unicode floats int_of_float sdk cfg key) embed h in
        let (made, c, h₂) = bind-ok (sdk.openai_client key cfg.llm_embedding_timeout_seconds) _ r in
        subst IsBuilt (ok_inj h₂ ∙ h₁) (openai_embed-IsBuilt sound key k)
