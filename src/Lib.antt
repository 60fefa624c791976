-- ===== src/Lib.antt =====
-- CaptureMate AI: a model of the backend that turns a day's screenshots into memos, with its
-- correctness theorems.
--
-- A request's images become texts; the batch analyzer masks personal data, groups similar texts,
-- asks a language model about each group, and puts the masked data back into the memos.
-- How the files model the code:
--   * Prelude and its children: library names, lists over native numbers, Python's dict (an
--     association list in insertion order), integers, and floats (a 64-bit pattern; the machine's
--     arithmetic is the parameter FloatOps, whose partial operations are those that raise).
--   * Text, Json: the methods of `str` that the code calls, on lists of code points, and parsed JSON
--     values with the exceptions of reading them. The tables of the Unicode database are the
--     parameter Unicode; texts of values that are no texts are the parameter `format`.
--   * Models: the records of app/models.py, app/config.py and app/analysis/prompt.py.
--   * Grouping: app/analysis/grouping.py. `find` takes fuel, one unit for each round of its loop;
--     with n units, for n items, it always ends. The loops over i, j count down the rounds left.
--   * Regex, Privacy: the regular expressions of the program as a backtracking matcher, and `sub`;
--     app/privacy.py: its patterns, the tokens, `mask_text` and `restore_text`. The NER detector is a
--     parameter.
--   * Preprocess, Fallback: app/analysis/preprocess.py and app/analysis/fallback.py.
--   * Prompts, Categories: the prompts of app/analysis/prompt.py and app/analysis/categories/, and
--     the registry of the second stage. Pydantic's validation is the parameter Validators,
--     which returns the details or raises: ValidationError, which the service catches, or another
--     exception of a validator, which it does not.
--   * Kakao: app/integrations/kakao_local.py; the HTTP request is the parameter `fetch`.
--   * Service, Restore: app/analysis/service.py. The language model is a function of the number of
--     the call and the prompt, so that it can answer each call as it likes, by the contract of
--     LlmClient with a text or LlmError; the state World counts the calls and holds the pauses.
--     Exceptions are values of Result.
--   * Places, Comparison, Split, Batch: app/analysis/batch.py. The embedding client is a parameter.
--   * Auth: app/auth.py. PyJWT is the parameter Jwt, with its documented behaviour as IsJwt; a token
--     is opaque, and a secret that PyJWT refuses as a key is an exception that nothing catches.
--     The time and the identifier that each call reads are arguments.
--   * Engine: the OCR engine of app/main.py, its cache, /health and /health/ready; Engine.Race: the
--     threads in `_get_ocr_engine`, one step for each test, lock and construction. What the n-th
--     construction gives is the parameter `load`.
--   * Images: the loop of /v1/analyze over the uploads. Pydantic's check of an item is the parameter
--     `validate`, with its documented behaviour as IsItemModel.
--   * Endpoints: the handlers of app/main.py, on the state Server, the cache and the World; an answer,
--     an HTTPException and an exception that nothing catches are values of Answer.
--   * Details: the detail models of app/analysis/categories/ that have validators, the validators and
--     the derived flags. int() and isdigit are the parameter Integers.
--   * Ocr: app/ocr/paddle_engine.py, on results that are values of Json.
--   * Clients: app/llm/ and app/embeddings/. The packages are the parameter Sdk, with what they
--     document of embeddings as IsSdk. Their constructors can raise; a generating call fails inside
--     the `try`, responds, or raises outside it. An exception of an embedding call is an
--     EmbeddingError, and the fields of its response are as documented.
--   * Config: app/config.py; the environment is the parameter `getenv`.
--   * Tests: runs at concrete inputs, and the theorems at inputs that meet their hypotheses.
--
-- Not modelled: the NER detector (app/privacy_ner.py), which wraps a package; the rate limiter
-- (app/rate_limit.py), which only delays calls; the script
-- scripts/ocr_run.py. Of the detail models of schedules and study there are only declarations, and
-- which values Pydantic coerces or refuses is the parameter Validators. Of the threads, only those
-- that load the OCR engine are modelled; requests run one after the other. An exception of a
-- provider's client outside its `try` is in Clients, and is not followed through Service and Batch.
-- Loops over collections are structural recursion; only `find` and the printing of numbers take
-- fuel. Logging and timing are not modelled. Memory and integers are unbounded, as in Python.
pub mod Prelude
pub mod Text
pub mod Json
pub mod Models
pub mod Regex
pub mod Privacy
pub mod Preprocess
pub mod Fallback
pub mod Kakao
pub mod Prompts
pub mod Categories
pub mod Service
pub mod Restore
pub mod Places
pub mod Comparison
pub mod Split
pub mod Batch
pub mod Auth
pub mod Engine
pub mod Details
pub mod Ocr
pub mod Config
pub mod Clients
pub mod Images
pub mod Endpoints
pub mod Grouping
mod Tests
