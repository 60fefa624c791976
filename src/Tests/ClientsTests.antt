-- ===== src/Tests/ClientsTests.antt =====
-- Runs of the clients of the providers.
use capturemate_ai.Prelude.{
  ◌≡◌, refl, sym, ap, subst, ◌⊎◌, Option, some, none, some_inj, List, [], ◌∷◌, map, Str, length,
}
use mathlib.Core.List.{Permᴰ}
use capturemate_ai.Prelude.Float.{Float}
use capturemate_ai.Prelude.Int.{ℤ, pos}
use capturemate_ai.Text.{codes}
use capturemate_ai.Json.{Result, ok}
use capturemate_ai.Models.{Settings}
use capturemate_ai.Service.{reply}
use capturemate_ai.Batch.{Embedder, singles, group_items}
use capturemate_ai.Clients.{
  Sdk, Indexed, failed, responded, generated, gemini_reply, openai_embed, build_embedding_client,
}
use capturemate_ai.Clients.Sorted.{enumerate}
use capturemate_ai.Clients.Contract.{IsSdk}
use capturemate_ai.Clients.Vectors.{IsBuilt}
use capturemate_ai.Clients.Factory.{build_embedding_client-IsBuilt}
use capturemate_ai.Clients.Grouped.{ByVectors, group_items-ByVectors}
use capturemate_ai.Tests.Samples.{
  ascii, count_float, counting_floats, sample_runtime, sample_settings,
}

-- A vector that tells how long a text is.
abbrev sample_vector : Str → Str → List Float
sample_vector model text = count_float (length text) ∷ []

-- The first two of a response come in the wrong order.
abbrev exchanged : List Indexed → List Indexed
exchanged [] = []
exchanged (d ∷ []) = d ∷ []
exchanged (d ∷ e ∷ ds) = e ∷ d ∷ ds

-- Twenty seconds.
abbrev twenty : Float → Result ℤ
twenty x = ok (pos 20000)

abbrev sample_sdk : Sdk
sample_sdk = record {
  genai_client = λ key. ok tt;
  genai_embedding_client = λ key ms. ok tt;
  openai_client = λ key timeout. ok tt;
  generate_content = λ key model ms n prompt. responded (some (codes " {} "));
  chat_completion = λ key model timeout n prompt. failed;
  embed_content = λ key model text. some (sample_vector model text ∷ []);
  create_embeddings =
      λ key model texts. some (exchanged (enumerate 0 (map (sample_vector model) texts)));
}

exchanged-Permᴰ : (ds : List Indexed) → Permᴰ ds (exchanged ds)
exchanged-Permᴰ [] = Permᴰ.nil
exchanged-Permᴰ (d ∷ []) = Permᴰ.cons refl Permᴰ.nil
exchanged-Permᴰ (d ∷ e ∷ ds) = Permᴰ.swap refl refl

head_vector : List (List Float) → List Float
head_vector [] = []
head_vector (v ∷ vs) = v

sample_sdk-IsSdk : IsSdk sample_sdk sample_vector
unfolding head_vector
sample_sdk-IsSdk = record {
  single = λ key model text v vs h. sym (ap head_vector (some_inj h));
  indexed = λ key model texts response h size.
      subst (Permᴰ (enumerate 0 (map (sample_vector model) texts))) (some_inj h)
        (exchanged-Permᴰ (enumerate 0 (map (sample_vector model) texts)));
}

-- The blanks around a reply are taken off.
gemini_reply_run : gemini_reply (responded (some (codes " {} "))) ≡ generated (reply (codes "{}"))
unfolding gemini_reply
gemini_reply_run = refl

abbrev openai_settings : Settings
openai_settings = record sample_settings { llm_provider = codes "openai" }

two_vectors :
    openai_embed sample_sdk (codes "k") (codes "m") (codes "abc" ∷ codes "d" ∷ [])
    ≡ some ((count_float 3 ∷ []) ∷ (count_float 1 ∷ []) ∷ [])
unfolding openai_embed
two_vectors = refl

abbrev openai_embedder : Option Embedder
openai_embedder = some (openai_embed sample_sdk (codes "k") (codes "e"))

openai_built :
    build_embedding_client ascii counting_floats twenty sample_sdk openai_settings
    ≡ ok (some (openai_embed sample_sdk (codes "k") (codes "e")))
unfolding build_embedding_client
openai_built = refl

build_embedding_client-IsBuilt_example :
    IsBuilt ascii counting_floats twenty sample_sdk openai_settings sample_vector
      (openai_embed sample_sdk (codes "k") (codes "e"))
build_embedding_client-IsBuilt_example =
    build_embedding_client-IsBuilt ascii counting_floats twenty sample_sdk openai_settings
      sample_vector sample_sdk-IsSdk (openai_embed sample_sdk (codes "k") (codes "e")) openai_built

group_items-ByVectors_example :
    (group_items sample_runtime openai_settings openai_embedder
        (codes "abc" ∷ codes "d" ∷ [])
        (none ∷ none ∷ [])
      ≡ ok (singles 0 2))
    ⊎ ByVectors sample_runtime openai_settings twenty sample_sdk sample_vector
        (codes "abc" ∷ codes "d" ∷ [])
        (none ∷ none ∷ [])
        (group_items sample_runtime openai_settings openai_embedder
          (codes "abc" ∷ codes "d" ∷ [])
          (none ∷ none ∷ []))
group_items-ByVectors_example =
    group_items-ByVectors sample_runtime openai_settings twenty sample_sdk sample_vector
      sample_sdk-IsSdk (codes "abc" ∷ codes "d" ∷ []) (none ∷ none ∷ []) openai_embedder
      openai_built
