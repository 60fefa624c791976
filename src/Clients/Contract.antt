-- ===== src/Clients/Contract.antt =====
-- The contracts LlmClient and EmbeddingClient, and that the clients of the factories keep them.
use capturemate_ai.Prelude.{
  ℕ, ◌≡◌, ◌≢◌, refl, sym, ap, subst, ◌∙◌, ◌⊎◌, inl, inr, Bool-cases, Option, some, some_inj,
  none-some, List, [], ◌∷◌, map, Str, length, eqb, eqb_iff, str_eq,
}
use mathlib.Core.List.{Permᴰ}
use capturemate_ai.Prelude.Float.{Float}
use capturemate_ai.Prelude.Options.{bind-some}
use capturemate_ai.Prelude.Options
use capturemate_ai.Json.{Error}
use capturemate_ai.Text.{strip}
use capturemate_ai.Text.Strip.{strip-twice}
use capturemate_ai.Service.{Reply, reply, llm_error}
use capturemate_ai.Batch.{Embedder}
use capturemate_ai.Clients.{
  Sdk, Indexed, Called, failed, responded, escaped, Generated, generated, uncaught, text_or_empty,
  first_content, answered, gemini_reply, openai_reply, first_vector, embed_each, sort_indexed,
  counted_vectors, gemini_embed, openai_embed,
}
use capturemate_ai.Clients.Sorted.{
  enumerate, vectors-enumerate, sort_indexed-enumerate, length-sort_indexed,
}

-- What `generate` makes of a call, of whose response `text_of` is the text: LlmError where the call
-- fails or the text is blank, else the text without the blanks at its ends; and an exception outside
-- the `try` is passed on.
pub data Answer {A : Type 0} (text_of : A → Str) : Called A → Generated → Type 0 where
  failed_call : Answer text_of failed (generated llm_error)
  blank : {a : A} → strip (text_of a) ≡ [] → Answer text_of (responded a) (generated llm_error)
  stripped :
      {a : A}
      → strip (text_of a) ≢ []
      → Answer text_of (responded a) (generated (reply (strip (text_of a))))
  passed_on : {e : Error} → Answer text_of (escaped e) (uncaught e)

responded-Answer :
    {A : Type 0} (text_of : A → Str) (a : A) (s : Str)
    → strip (text_of a) ≡ s
    → Answer text_of (responded a) (generated (answered s))
responded-Answer text_of a [] h = blank h
responded-Answer text_of a (c ∷ s) h =
    subst (λ t. Answer text_of (responded a) (generated (reply t))) h
      (stripped (λ e. let clash = sym h ∙ e in cc))

pub gemini_reply-Answer :
    (call : Called (Option Str)) → Answer text_or_empty call (gemini_reply call)
unfolding gemini_reply
gemini_reply-Answer failed = failed_call
gemini_reply-Answer (responded text) = responded-Answer text_or_empty text _ refl
gemini_reply-Answer (escaped e) = passed_on

pub openai_reply-Answer :
    (call : Called (List (Option Str))) → Answer first_content call (openai_reply call)
unfolding openai_reply
openai_reply-Answer failed = failed_call
openai_reply-Answer (responded choices) = responded-Answer first_content choices _ refl
openai_reply-Answer (escaped e) = passed_on

-- `LlmClient.generate`: a text that is not empty and has no blank at its ends, or LlmError.
abbrev pub IsReply : Reply → Type 0
IsReply r = (r ≡ llm_error) ⊎ ((text : Str) × (r ≡ reply text) × (text ≢ []) × (strip text ≡ text))

-- Of an exception outside the `try` the contract says nothing.
abbrev pub Keeps : Generated → Type 0
Keeps (generated r) = IsReply r
Keeps (uncaught e) = Unit

pub Answer-Keeps :
    {A : Type 0} {text_of : A → Str} {call : Called A} {g : Generated}
    → Answer text_of call g
    → Keeps g
Answer-Keeps failed_call = inl refl
Answer-Keeps (blank h) = inl refl
Answer-Keeps {text_of = text_of} (stripped {a = a} h) = inr (_, refl, h, strip-twice (text_of a))
Answer-Keeps passed_on = tt

-- `EmbeddingClient.embed`: for each text its vector, in the order of the texts, or EmbeddingError.
pub record IsEmbeddingClient (vector : Str → List Float) (embed : Embedder) : Type 0 where
  pub ordered :
      (texts : List Str) (vectors : List (List Float))
      → embed texts ≡ some vectors
      → vectors ≡ map vector texts
  pub nothing : embed [] ≡ some []

-- What the packages document: a model has one vector for each text; Gemini answers a text with an
-- embedding that has it, or with none; and where OpenAI answers with as many embeddings as there
-- are texts, they are those of the texts, with the places of the texts as their indices.
pub record IsSdk (sdk : Sdk) (vector : Str → Str → List Float) : Type 0 where
  pub single :
      (api_key model text : Str) (v : List Float) (vs : List (List Float))
      → sdk.embed_content api_key model text ≡ some (v ∷ vs)
      → v ≡ vector model text
  pub indexed :
      (api_key model : Str) (texts : List Str) (response : List Indexed)
      → sdk.create_embeddings api_key model texts ≡ some response
      → length response ≡ length texts
      → Permᴰ (enumerate 0 (map (vector model) texts)) response

first_vector-some :
    (vs : List (List Float)) (v : List Float)
    → first_vector vs ≡ some v
    → (rest : List (List Float)) × (vs ≡ v ∷ rest)
first_vector-some [] v h = absurd (none-some h)
first_vector-some (w ∷ ws) v h = (ws, ap (λ x. x ∷ ws) (some_inj h))

module _ (sdk : Sdk) (vector : Str → Str → List Float) (sound : IsSdk sdk vector)
    (api_key model : Str) where
  embed_each-ordered :
      (texts : List Str) (vectors : List (List Float))
      → embed_each (sdk.embed_content api_key model) texts ≡ some vectors
      → vectors ≡ map (vector model) texts
  unfolding embed_each
  embed_each-ordered [] vectors h = sym (some_inj h)
  embed_each-ordered (text ∷ texts) vectors h =
      let (v, one, h₁) =
        bind-some (Options.◌>>=◌ (sdk.embed_content api_key model text) first_vector) _ h in
      let (es, called, first) = bind-some (sdk.embed_content api_key model text) _ one in
      let (rest, e) = first_vector-some es v first in
      let (vs, more, h₂) = bind-some (embed_each (sdk.embed_content api_key model) texts) _ h₁ in
      sym (some_inj h₂)
      ∙ (ap (λ x. x ∷ vs) (sound.single api_key model text v rest (called ∙ ap some e))
          ∙ ap (◌∷◌ (vector model text)) (embed_each-ordered texts vs more))

  pub gemini_embed-IsEmbeddingClient :
      IsEmbeddingClient (vector model) (gemini_embed sdk api_key model)
  unfolding embed_each
  gemini_embed-IsEmbeddingClient = record { ordered = embed_each-ordered; nothing = refl }

  counted-ordered :
      (n : ℕ) (data_sorted : List Indexed) (vectors : List (List Float))
      → counted_vectors n data_sorted ≡ some vectors
      → (length data_sorted ≡ n) × (map (λ (d : Indexed). d.embedding) data_sorted ≡ vectors)
  unfolding counted_vectors
  counted-ordered n data_sorted vectors h = elim (Bool-cases (eqb (length data_sorted) n)) [
    | inl y ↦ ((eqb_iff (length data_sorted) n).0 y, some_inj (rw y at h))
    | inr no_count ↦ absurd (none-some (rw no_count at h))
  ]

  openai_embed-ordered :
      (texts : List Str) (vectors : List (List Float))
      → openai_embed sdk api_key model texts ≡ some vectors
      → vectors ≡ map (vector model) texts
  unfolding openai_embed
  openai_embed-ordered [] vectors h = sym (some_inj h)
  openai_embed-ordered (text ∷ texts) vectors h =
      let all = text ∷ texts in
      let (response, r, h₁) = bind-some (sdk.create_embeddings api_key model all) _ h in
      let (count, same) = counted-ordered (length all) (sort_indexed response) vectors h₁ in
      let vs = map (vector model) all in
      let order =
        sort_indexed-enumerate response vs (
          sound.indexed api_key model all response r
            (sym (length-sort_indexed response) ∙ count)) in
      sym same ∙ (ap (map (λ (d : Indexed). d.embedding)) order ∙ vectors-enumerate 0 vs)

  pub openai_embed-IsEmbeddingClient :
      IsEmbeddingClient (vector model) (openai_embed sdk api_key model)
  unfolding openai_embed
  openai_embed-IsEmbeddingClient = record { ordered = openai_embed-ordered; nothing = refl }
