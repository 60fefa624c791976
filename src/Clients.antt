-- ===== src/Clients.antt =====
-- app/llm/ and app/embeddings/: the clients of the providers, and the factories that choose one.
-- The providers' packages are the parameter Sdk. The rate limiter only delays the calls.
pub mod Sorted
pub mod Contract
pub mod Vectors
pub mod Factory
pub mod Grouped
use capturemate_ai.Prelude.{
  ℕ, Option, none, some, List, [], ◌∷◌, map, Str, length, eqb, leb, if◌then◌else◌, ◌==◌, str_eq,
}
use capturemate_ai.Prelude.Int.{ℤ}
use capturemate_ai.Prelude.Float.{Float, FloatOps, thousand}
use capturemate_ai.Prelude.Options
use capturemate_ai.Text.{Unicode, codes, strip}
use capturemate_ai.Json.{Error, Result, ok, raise, value_error, ◌>>=◌}
use capturemate_ai.Models.{Settings}
use capturemate_ai.Service.{Reply, reply, llm_error}
use capturemate_ai.Batch.{Embedder}

-- One vector of a response of OpenAI, with its index.
pub record Indexed : Type 0 where
  pub index : ℕ
  pub embedding : List Float

-- How a call of a generating client goes: an exception inside the `try`, a response, with what is
-- read of it, or an exception outside the `try`, of an import or of the reading of the response.
pub data Called (A : Type 0) : Type 0 where
  failed : Called A
  responded : A → Called A
  escaped : Error → Called A

-- What `generate` gives: a text or LlmError, or another exception.
pub data Generated : Type 0 where
  generated : Reply → Generated
  uncaught : Error → Generated

-- The answer of the client to its n-th call.
abbrev pub LlmClient : Type 0
LlmClient = ℕ → Str → Generated

-- The packages. The first three are their imports and the constructors of their clients, which can
-- raise; the calls take the key and the model first, and the generating ones can answer each call
-- as they like. Of the embedding calls, `none` is an exception of the call; the fields of a response
-- are as documented, and reading them raises nothing.
pub record Sdk : Type 0 where
  -- genai.Client(api_key)
  pub genai_client : Str → Result (Unit {0})
  -- genai.Client(api_key, http_options), with the timeout in milliseconds
  pub genai_embedding_client : Str → ℤ → Result (Unit {0})
  -- OpenAI(api_key, timeout, max_retries=0)
  pub openai_client : Str → Float → Result (Unit {0})
  -- response.text, with the timeout in milliseconds
  pub generate_content : Str → Str → ℤ → ℕ → Str → Called (Option Str)
  -- the contents of the messages of response.choices, with the timeout in seconds
  pub chat_completion : Str → Str → Float → ℕ → Str → Called (List (Option Str))
  -- the values of response.embeddings
  pub embed_content : Str → Str → Str → Option (List (List Float))
  -- response.data
  pub create_embeddings : Str → Str → List Str → Option (List Indexed)

-- text or ""
abbrev text_or_empty : Option Str → Str
text_or_empty none = []
text_or_empty (some s) = s

-- An empty text raises LlmError.
abbrev pub answered : Str → Reply
answered [] = llm_error
answered (c ∷ s) = reply (c ∷ s)

unfoldable pub gemini_reply : Called (Option Str) → Generated
unfolding strip
gemini_reply failed = generated llm_error
gemini_reply (responded text) = generated (answered (strip (text_or_empty text)))
gemini_reply (escaped e) = uncaught e

-- response.choices[0].message.content, or "" without choices.
abbrev pub first_content : List (Option Str) → Str
first_content [] = []
first_content (content ∷ choices) = text_or_empty content

unfoldable pub openai_reply : Called (List (Option Str)) → Generated
unfolding strip
openai_reply failed = generated llm_error
openai_reply (responded choices) = generated (answered (strip (first_content choices)))
openai_reply (escaped e) = uncaught e

-- The first of the embeddings, if there is one.
abbrev first_vector : List (List Float) → Option (List Float)
first_vector [] = none
first_vector (v ∷ vs) = some v

-- The loop of the Gemini client: one call for each text.
unfoldable pub embed_each :
    (Str → Option (List (List Float))) → List Str → Option (List (List Float))
embed_each embed_content [] = some []
embed_each embed_content (text ∷ texts) =
    Options.◌>>=◌ (Options.◌>>=◌ (embed_content text) first_vector) (λ vector.
      Options.◌>>=◌ (embed_each embed_content texts) (λ vectors. some (vector ∷ vectors)))

unfoldable pub insert_indexed : Indexed → List Indexed → List Indexed
insert_indexed d [] = d ∷ []
insert_indexed d (e ∷ es) = if leb d.index e.index then d ∷ e ∷ es else e ∷ insert_indexed d es

-- sorted(response.data, key=lambda item: item.index)
unfoldable pub sort_indexed : List Indexed → List Indexed
unfolding insert_indexed
sort_indexed [] = []
sort_indexed (d ∷ ds) = insert_indexed d (sort_indexed ds)

-- The vectors, where there is one for each text.
unfoldable pub counted_vectors : ℕ → List Indexed → Option (List (List Float))
counted_vectors n data_sorted =
    if eqb (length data_sorted) n
    then some (map (λ (d : Indexed). d.embedding) data_sorted)
    else none

module _ (sdk : Sdk) (api_key model : Str) where
  -- GeminiLlmClient.generate
  abbrev pub gemini_generate : ℤ → LlmClient
  gemini_generate timeout_ms n prompt =
      gemini_reply (sdk.generate_content api_key model timeout_ms n prompt)

  -- OpenAiLlmClient.generate
  abbrev pub openai_generate : Float → LlmClient
  openai_generate timeout n prompt =
      openai_reply (sdk.chat_completion api_key model timeout n prompt)

  -- GeminiEmbeddingClient.embed
  abbrev pub gemini_embed : Embedder
  gemini_embed texts = embed_each (sdk.embed_content api_key model) texts

  -- OpenAiEmbeddingClient.embed
  unfoldable pub openai_embed : Embedder
  unfolding sort_indexed counted_vectors
  openai_embed [] = some []
  openai_embed (text ∷ texts) =
      Options.◌>>=◌ (sdk.create_embeddings api_key model (text ∷ texts))
        (λ response. counted_vectors (length (text ∷ texts)) (sort_indexed response))

-- The default model of Gemini is not one of OpenAI.
abbrev pub openai_model : Str → Str
openai_model model =
    if model == codes "text-embedding-004" then codes "text-embedding-3-small" else model

-- `int` of a float, which raises at an infinite one and at NaN, is the parameter `int_of_float`.
module _ (unicode : Unicode) (floats : FloatOps) (int_of_float : Float → Result ℤ) (sdk : Sdk)
    (cfg : Settings) where
  -- int(timeout_seconds * 1000)
  abbrev pub timeout_ms : Result ℤ
  timeout_ms = int_of_float (floats.mul cfg.llm_timeout_seconds thousand)

  -- GeminiLlmClient.__init__
  unfoldable pub new_gemini_client : Str → Result LlmClient
  unfolding gemini_reply
  new_gemini_client api_key = do
    made ← sdk.genai_client api_key
    ms ← timeout_ms
    ok (gemini_generate sdk api_key cfg.llm_model ms)

  -- OpenAiLlmClient.__init__
  unfoldable pub new_openai_client : Str → Result LlmClient
  unfolding openai_reply
  new_openai_client api_key = do
    made ← sdk.openai_client api_key cfg.llm_timeout_seconds
    ok (openai_generate sdk api_key cfg.llm_model cfg.llm_timeout_seconds)

  abbrev present : Result LlmClient → Result (Option LlmClient)
  present (ok client) = ok (some client)
  present (raise e) = raise e

  abbrev llm_of : Str → Result (Option LlmClient)
  llm_of api_key =
      if unicode.lower cfg.llm_provider == codes "gemini"
      then present (new_gemini_client api_key)
      else if unicode.lower cfg.llm_provider == codes "openai"
      then present (new_openai_client api_key)
      else raise value_error

  abbrev llm_for : Option Str → Result (Option LlmClient)
  llm_for none = ok none
  llm_for (some []) = ok none
  llm_for (some (c ∷ s)) = llm_of (c ∷ s)

  -- `build_llm_client`
  unfoldable pub build_llm_client : Result (Option LlmClient)
  unfolding new_gemini_client new_openai_client
  build_llm_client = llm_for cfg.llm_api_key

  -- int(timeout_seconds * 1000)
  abbrev pub embedding_timeout_ms : Result ℤ
  embedding_timeout_ms = int_of_float (floats.mul cfg.llm_embedding_timeout_seconds thousand)

  -- GeminiEmbeddingClient.__init__
  unfoldable pub new_gemini_embedder : Str → Result Embedder
  unfolding embed_each
  new_gemini_embedder api_key = do
    ms ← embedding_timeout_ms
    made ← sdk.genai_embedding_client api_key ms
    ok (gemini_embed sdk api_key cfg.llm_embedding_model)

  -- OpenAiEmbeddingClient.__init__
  unfoldable pub new_openai_embedder : Str → Result Embedder
  unfolding openai_embed
  new_openai_embedder api_key = do
    made ← sdk.openai_client api_key cfg.llm_embedding_timeout_seconds
    ok (openai_embed sdk api_key (openai_model cfg.llm_embedding_model))

  abbrev present_embedder : Result Embedder → Result (Option Embedder)
  present_embedder (ok embed) = ok (some embed)
  present_embedder (raise e) = raise e

  abbrev embedder_of : Str → Result (Option Embedder)
  embedder_of api_key =
      if unicode.lower cfg.llm_provider == codes "gemini"
      then present_embedder (new_gemini_embedder api_key)
      else if unicode.lower cfg.llm_provider == codes "openai"
      then present_embedder (new_openai_embedder api_key)
      else ok none

  abbrev embedder_for : Option Str → Result (Option Embedder)
  embedder_for none = ok none
  embedder_for (some []) = ok none
  embedder_for (some (c ∷ s)) = embedder_of (c ∷ s)

  -- `build_embedding_client`
  unfoldable pub build_embedding_client : Result (Option Embedder)
  unfolding new_gemini_embedder new_openai_embedder
  build_embedding_client = embedder_for cfg.llm_api_key
