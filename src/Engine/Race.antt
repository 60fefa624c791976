-- ===== src/Engine/Race.antt =====
-- Threads that call `_get_ocr_engine` at once: the double-checked lock of app/main.py, step by step.
pub mod Invariant
pub mod Return
use capturemate_ai.Prelude.{
  ℕ, suc, ◌≡◌, ◌≢◌, ◌≤◌, ◌<◌, refl, sym, ap, ◌∙◌, Bool, true, false, Option, none, some, some_inj,
  none-some, Option-cases, inl, inr, List, [], ◌∷◌, Str, arith, eqb, eqb_iff, Bool-cases,
  if◌then◌else◌,
}
use capturemate_ai.Engine.Ready.{IsCache, store-IsCache, events-IsCache, engine_inj}
use capturemate_ai.Engine.{Cache, Loaded, engine, import_error, load_failure, empty_cache, store}

-- Where a thread stands: before the first test, at the lock, inside it before the second test,
-- constructing, and back with an engine or an exception.
pub data Phase (Engine : Type 0) : Type 0 where
  calling : Phase Engine
  locking : Phase Engine
  testing : Phase Engine
  constructing : Phase Engine
  returned : Engine → Phase Engine
  raised : Phase Engine

pub record System (Engine : Type 0) : Type 0 where
  pub cache : Cache Engine
  -- which thread has the lock
  pub owner : Option ℕ
  pub phase : ℕ → Phase Engine

module _ {Engine : Type 0} (load : ℕ → Loaded Engine) where
  -- The phases after thread i has moved.
  unfoldable pub moved : System Engine → ℕ → Phase Engine → ℕ → Phase Engine
  moved s i p j = if eqb j i then p else s.phase j

  -- One step of one thread.
  pub data Step (s : System Engine) : System Engine → Type 0 where
    -- if _ocr_engine is None, outside the lock
    found :
        (i : ℕ) (e : Engine)
        → s.phase i ≡ calling
        → s.cache.ocr_engine ≡ some e
        → Step s (record s { phase = moved s i (returned e) })
    missed :
        (i : ℕ)
        → s.phase i ≡ calling
        → s.cache.ocr_engine ≡ none
        → Step s (record s { phase = moved s i locking })
    -- with _ocr_engine_lock
    locked :
        (i : ℕ)
        → s.phase i ≡ locking
        → s.owner ≡ none
        → Step s (record s { owner = some i; phase = moved s i testing })
    -- the second test
    found_inside :
        (i : ℕ) (e : Engine)
        → s.phase i ≡ testing
        → s.cache.ocr_engine ≡ some e
        → Step s (record s { owner = none; phase = moved s i (returned e) })
    missed_inside :
        (i : ℕ)
        → s.phase i ≡ testing
        → s.cache.ocr_engine ≡ none
        → Step s (record s { phase = moved s i constructing })
    -- the construction, which gives an engine or raises
    constructed :
        (i : ℕ) (e : Engine)
        → s.phase i ≡ constructing
        → load s.cache.loads ≡ engine e
        → Step s (record s {
          cache = store s.cache (engine e);
          owner = none;
          phase = moved s i (returned e);
        })
    failed :
        (i : ℕ) (l : Loaded Engine)
        → s.phase i ≡ constructing
        → load s.cache.loads ≡ l
        → ((e : Engine) → l ≢ engine e)
        → Step s (record s { cache = store s.cache l; owner = none; phase = moved s i raised })

  pub data Reach (s : System Engine) : System Engine → Type 0 where
    here : Reach s s
    next : {t u : System Engine} → Reach s t → Step t u → Reach s u

  -- No call has begun.
  abbrev pub start : System Engine
  start = record { cache = empty_cache; owner = none; phase = λ i. calling }

  abbrev pub inside : Phase Engine → Bool
  inside testing = true
  inside constructing = true
  inside _ = false

  -- The call of a thread is back.
  abbrev pub finished : Phase Engine → Bool
  finished (returned e) = true
  finished raised = true
  finished _ = false
