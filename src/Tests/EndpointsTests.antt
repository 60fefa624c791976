-- ===== src/Tests/EndpointsTests.antt =====
-- Runs of the endpoints on a server without a language model.
use capturemate_ai.Prelude.{
  ℕ, ◌≡◌, refl, sym, ap, inl, inr, Option, none, some, some_inj, none-some, List, [], ◌∷◌, Str,
}
use capturemate_ai.Prelude.Int.{ℤ, pos, leb_ℤ, ◌+ℤ◌}
use capturemate_ai.Text.{codes}
use capturemate_ai.Json.{
  Value, Fields, null, bool, int, float, str, list, dict, get, or_else, opt_str,
}
use capturemate_ai.Models.{AnalyzeBatchItem, MemoGroup}
use capturemate_ai.Engine.{engine, empty_cache, get_ocr_engine}
use capturemate_ai.Images.{
  answer, refused, Upload, max_image_bytes, min_useful_chars, entry_of, client_id_value,
  read_images, parse_metadata,
}
use capturemate_ai.Images.Collected.{IsItemModel, Collected, IsSmall-content}
use capturemate_ai.Images.Loop.{read_images-Collected, read_images-answers, AllFine}
use capturemate_ai.Batch.{group_items}
use capturemate_ai.Categories.{category_stage2}
use capturemate_ai.Auth.{AuthenticatedUser, success, get_current_user, payload_of}
use capturemate_ai.Endpoints.{
  Backend, Server, AnalyzeImages, AuthTokenResponse, authenticate_with_google, analyze_images,
}
use capturemate_ai.Endpoints.Answered.{IsAnswered, analyze_images-IsAnswered}
use capturemate_ai.Endpoints.Refused.{Cause, analyze_images-Cause}
use capturemate_ai.Endpoints.Offline.{Groups, analyze_images-answers}
use capturemate_ai.Endpoints.SignIn.{IsSession, authenticate_with_google-IsSession}
use capturemate_ai.Tests.AuthTests.{Token, open_jwt, open_jwt-IsJwt, google_claims, moment}
use capturemate_ai.Tests.Samples.{ascii, sample_runtime, sample_settings, fresh}

-- The item's model: an id that is a text, a text, and a time that is None or an integer.
abbrev time_of : Value → Option (Option ℤ)
time_of null = some none
time_of (int n) = some (some n)
time_of _ = none

abbrev timed : Str → Str → Option (Option ℤ) → Option AnalyzeBatchItem
timed id text none = none
timed id text (some t) = some (record { client_id = id; masked_text = text; captured_at = t })

abbrev sample_validate : Value → Str → Value → Option AnalyzeBatchItem
sample_validate (str id) (c ∷ text) time = timed id (c ∷ text) (time_of time)
sample_validate _ _ _ = none

timed-fields :
    (id text : Str) (o : Option (Option ℤ)) (item : AnalyzeBatchItem)
    → timed id text o ≡ some item
    → (str id ≡ str item.client_id) × (item.masked_text ≡ text)
timed-fields id text none item h = absurd (none-some h)
timed-fields id text (some t) item h =
    let e = some_inj h in
    (
      ap (λ (i : AnalyzeBatchItem). str i.client_id) e,
      sym (ap (λ (i : AnalyzeBatchItem). i.masked_text) e),
    )

sample_fields :
    (id : Value) (text : Str) (time : Value) (item : AnalyzeBatchItem)
    → sample_validate id text time ≡ some item
    → (id ≡ str item.client_id) × (item.masked_text ≡ text)
sample_fields (str id) (c ∷ text) time item h = timed-fields id (c ∷ text) (time_of time) item h
sample_fields (str id) [] time item h = absurd (none-some h)
sample_fields null text time item h = absurd (none-some h)
sample_fields (bool b) text time item h = absurd (none-some h)
sample_fields (int n) text time item h = absurd (none-some h)
sample_fields (float x) text time item h = absurd (none-some h)
sample_fields (list vs) text time item h = absurd (none-some h)
sample_fields (dict fs) text time item h = absurd (none-some h)

sample_validate-IsItemModel : IsItemModel sample_validate
sample_validate-IsItemModel = record {
  accepts = λ id c text time t. elim t [
    | inl e ↦ (_, ap (λ v. timed id (c ∷ text) (time_of v)) e)
    | inr (n, e) ↦ (_, ap (λ v. timed id (c ∷ text) (time_of v)) e)
  ];
  fields = sample_fields;
}

-- The OCR reads the same ten letters and more from every image.
abbrev sample_backend : Backend ℕ Token
sample_backend = record {
  rt = sample_runtime;
  cfg = sample_settings;
  jwt = open_jwt;
  client = none;
  embedding = none;
  detect = λ s. none;
  load = λ n. engine 7;
  extract = λ e i bytes. some (codes "timetable of monday");
  validate = sample_validate;
}

abbrev configured_backend : Backend ℕ Token
configured_backend = record sample_backend {
  cfg = record sample_settings { google_web_client_id = some (codes "w") };
}

abbrev idle : Server ℕ
idle = record { cache = empty_cache; world = fresh }

-- An image without a name, one that cannot be read, and one with a name.
abbrev nameless : Upload
nameless = record { filename = none; content = some (1 ∷ []) }

abbrev third : Upload
third = record { filename = some (codes "c.png"); content = some (1 ∷ 2 ∷ []) }

abbrev sample_images : List Upload
sample_images = nameless ∷ record { filename = some (codes "b.png"); content = none } ∷ third ∷ []

abbrev sample_request : Option (Str × Token) → Option Str → AnalyzeImages Token
sample_request credentials metadata = record {
  now = pos 200;
  credentials = credentials;
  images = sample_images;
  locale = codes "ko-KR";
  metadata = metadata;
}

-- An access token of the user u1.
abbrev access_token : Token
access_token = (
  payload_of sample_settings open_jwt google_claims (codes "access") (pos 1800) moment,
  codes "a",
)

abbrev known : Option (Str × Token)
known = some (codes "bearer", access_token)

answered :
    (groups : List MemoGroup) × ((analyze_images sample_backend (sample_request known none) idle).0
      ≡ answer groups)
unfolding analyze_images category_stage2 payload_of leb_ℤ ◌+ℤ◌ max_image_bytes min_useful_chars
answered = (_, refl)

analyze_images-IsAnswered_example :
    IsAnswered sample_backend (sample_request known none) idle answered.0
analyze_images-IsAnswered_example =
    analyze_images-IsAnswered sample_backend sample_validate-IsItemModel (sample_request known none)
      idle answered.0 answered.1

bad_request :
    (detail : Str) × ((analyze_images sample_backend
        (sample_request known (some (codes "x")))
        idle).0
      ≡ refused 400 detail)
unfolding analyze_images payload_of leb_ℤ ◌+ℤ◌
bad_request = (_, refl)

analyze_images-Cause_example :
    Cause sample_backend
      (sample_request known (some (codes "x")))
      idle
      400
      bad_request.0
      (analyze_images sample_backend (sample_request known (some (codes "x"))) idle).1
analyze_images-Cause_example =
    analyze_images-Cause sample_backend (sample_request known (some (codes "x"))) idle 400
      bad_request.0 bad_request.1

user_known :
    (user : AuthenticatedUser) × (get_current_user sample_settings open_jwt ascii (pos 200) known
      ≡ success user)
unfolding get_current_user payload_of leb_ℤ ◌+ℤ◌
user_known = (_, refl)

engine_known : (get_ocr_engine sample_backend.load empty_cache).0 ≡ engine 7
unfolding get_ocr_engine
engine_known = refl

no_metadata : parse_metadata sample_runtime.json_loads none ≡ answer []
unfolding parse_metadata
no_metadata = refl

grouping_returns : Groups sample_runtime sample_settings none
unfolding group_items
grouping_returns masked times = (_, refl)

fine_images :
    AllFine
      (sample_backend.extract 7)
      sample_validate
      []
      sample_validate-IsItemModel
      0
      sample_images
unfolding max_image_bytes client_id_value entry_of get or_else opt_str
fine_images =
    let small = IsSmall-content (sample_backend.extract 7) sample_validate [] in
    (
      record {
        small = small nameless (1 ∷ []) refl refl;
        id = codes "image_0";
        named = refl;
        timed = inl refl;
      },
      (
        record {
          small = λ bytes e. absurd (none-some e);
          id = codes "b.png";
          named = refl;
          timed = inl refl;
        },
        (
          record {
            small = small third (1 ∷ 2 ∷ []) refl refl;
            id = codes "c.png";
            named = refl;
            timed = inl refl;
          },
          tt,
        ),
      ),
    )

read_three :
    (items : List AnalyzeBatchItem) × (read_images
        (sample_backend.extract 7)
        sample_validate
        []
        0
        sample_images
      ≡ answer items)
read_three =
    read_images-answers (sample_backend.extract 7) sample_validate [] sample_validate-IsItemModel 0
      sample_images fine_images

read_images-Collected_example :
    Collected (sample_backend.extract 7) sample_validate [] 0 sample_images read_three.0
read_images-Collected_example =
    read_images-Collected (sample_backend.extract 7) sample_validate [] sample_validate-IsItemModel
      0 sample_images read_three.0 read_three.1

analyze_images-answers_example :
    (groups : List MemoGroup) × ((analyze_images sample_backend (sample_request known none) idle).0
      ≡ answer groups)
    × IsAnswered sample_backend (sample_request known none) idle groups
analyze_images-answers_example =
    analyze_images-answers sample_backend sample_validate-IsItemModel (sample_request known none)
      idle user_known.0 [] 7 refl grouping_returns user_known.1 no_metadata engine_known fine_images

abbrev google : Str → Str → Option Fields
google token audience = some google_claims

signed_in :
    (response : AuthTokenResponse Token) × (authenticate_with_google configured_backend google
        (codes "t")
        moment
        moment
      ≡ answer response)
unfolding authenticate_with_google
signed_in = (_, refl)

authenticate_with_google-IsSession_example :
    IsSession configured_backend (codes "bearer") moment moment signed_in.0
authenticate_with_google-IsSession_example =
    authenticate_with_google-IsSession configured_backend open_jwt-IsJwt refl (codes "bearer") refl
      google (codes "t") moment moment signed_in.0 signed_in.1
