-- ===== src/Clients/Factory.antt =====
-- That the factories of app/llm/ and app/embeddings/ give clients that keep their contracts.
use capturemate_ai.Prelude.{
  ℕ, ◌≡◌, refl, ◌⊎◌, inl, inr, Bool-cases, Option, none, some, none-some, List, [], ◌∷◌, Str, ◌==◌,
  str_eq,
}
use capturemate_ai.Prelude.Float.{Float, FloatOps}
use capturemate_ai.Prelude.Int.{ℤ}
use capturemate_ai.Text.{Unicode, codes}
use capturemate_ai.Json.{Error, Result, ok, raise, value_error, ok_inj}
use capturemate_ai.Models.{Settings}
use capturemate_ai.Batch.{Embedder}
use capturemate_ai.Clients.{
  Sdk, LlmClient, Called, text_or_empty, first_content, timeout_ms, embedder_of, embedder_for,
  build_embedding_client,
}
use capturemate_ai.Clients.Vectors.{
  HasKey, IsBuilt, new_gemini_embedder-IsBuilt, new_openai_embedder-IsBuilt,
}
use capturemate_ai.Clients.Contract.{Answer, Keeps, IsSdk}

-- A client that answers with what is made of the package's calls, and keeps its contract.
pub record Serves {A : Type 0} (text_of : A → Str) (call : ℕ → Str → Called A) (client : LlmClient)
    : Type 0 where
  pub answers : (n : ℕ) (prompt : Str) → Answer text_of (call n prompt) (client n prompt)
  pub keeps : (n : ℕ) (prompt : Str) → Keeps (client n prompt)

module _ (unicode : Unicode) (floats : FloatOps) (int_of_float : Float → Result ℤ) (sdk : Sdk)
    (cfg : Settings) where
  abbrev pub Provider : Str → Type 0
  Provider name = unicode.lower cfg.llm_provider ≡ name

  -- The outcome of build_llm_client: none without a key; for each of the two providers, a client of
  -- that provider's package with the configured key, model and timeout, or the exception of its
  -- construction; and ValueError for another provider.
  pub data Built : Result (Option LlmClient) → Type 0 where
    without_key : ((key : Str) → ¬ HasKey cfg key) → Built (ok none)
    gemini :
        {key : Str} {ms : ℤ} {client : LlmClient}
        → HasKey cfg key
        → Provider (codes "gemini")
        → sdk.genai_client key ≡ ok tt
        → timeout_ms unicode floats int_of_float sdk cfg ≡ ok ms
        → Serves text_or_empty (sdk.generate_content key cfg.llm_model ms) client
        → Built (ok (some client))
    gemini_raises :
        {key : Str} {e : Error}
        → HasKey cfg key
        → Provider (codes "gemini")
        → (sdk.genai_client key ≡ raise e)
          ⊎ (timeout_ms unicode floats int_of_float sdk cfg ≡ raise e)
        → Built (raise e)
    openai :
        {key : Str} {client : LlmClient}
        → HasKey cfg key
        → Provider (codes "openai")
        → sdk.openai_client key cfg.llm_timeout_seconds ≡ ok tt
        → Serves first_content
            (sdk.chat_completion key cfg.llm_model cfg.llm_timeout_seconds)
            client
        → Built (ok (some client))
    openai_raises :
        {key : Str} {e : Error}
        → HasKey cfg key
        → Provider (codes "openai")
        → sdk.openai_client key cfg.llm_timeout_seconds ≡ raise e
        → Built (raise e)
    unsupported :
        {key : Str}
        → HasKey cfg key
        → ¬ Provider (codes "gemini")
        → ¬ Provider (codes "openai")
        → Built (raise value_error)

module _ (unicode : Unicode) (floats : FloatOps) (int_of_float : Float → Result ℤ) (sdk : Sdk)
    (cfg : Settings) (vector : Str → Str → List Float) where
  embedder_of-IsBuilt :
      IsSdk sdk vector
      → (key : Str) (embed : Embedder) → HasKey cfg key
      → embedder_of unicode floats int_of_float sdk cfg key ≡ ok (some embed)
      → IsBuilt unicode floats int_of_float sdk cfg vector embed
  embedder_of-IsBuilt sound key embed k h =
      elim (Bool-cases (unicode.lower cfg.llm_provider == codes "gemini")) [
        | inl g ↦
            new_gemini_embedder-IsBuilt unicode floats int_of_float sdk cfg vector sound key embed k
              (rw g at h)
        | inr g ↦ elim (Bool-cases (unicode.lower cfg.llm_provider == codes "openai")) [
          | inl o ↦
              new_openai_embedder-IsBuilt unicode floats int_of_float sdk cfg vector sound key embed
                k (rw (g, o) at h)
          | inr o ↦ absurd (none-some (ok_inj (rw (g, o) at h)))
        ]
      ]

  embedder_for-IsBuilt :
      IsSdk sdk vector
      → (o : Option Str) (embed : Embedder) → cfg.llm_api_key ≡ o
      → embedder_for unicode floats int_of_float sdk cfg o ≡ ok (some embed)
      → IsBuilt unicode floats int_of_float sdk cfg vector embed
  embedder_for-IsBuilt sound none embed e h = absurd (none-some (ok_inj h))
  embedder_for-IsBuilt sound (some []) embed e h = absurd (none-some (ok_inj h))
  embedder_for-IsBuilt sound (some (c ∷ s)) embed e h =
      embedder_of-IsBuilt sound (c ∷ s) embed (e, λ n. cc) h

  -- If the factory of the embeddings gives a client, there is a key, and the client keeps the
  -- contract of EmbeddingClient with the configured model or the default of OpenAI: it gives the
  -- vectors of the texts, one for each and in their order, or an error. This supposes what the
  -- packages document of their responses.
  pub build_embedding_client-IsBuilt :
      IsSdk sdk vector
      → (embed : Embedder)
      → build_embedding_client unicode floats int_of_float sdk cfg ≡ ok (some embed)
      → IsBuilt unicode floats int_of_float sdk cfg vector embed
  unfolding build_embedding_client
  build_embedding_client-IsBuilt sound embed h =
      embedder_for-IsBuilt sound cfg.llm_api_key embed refl h
