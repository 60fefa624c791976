-- ===== src/Engine/Failed.antt =====
-- What a failed construction of the OCR engine leaves in the cache.
use capturemate_ai.Prelude.{ℕ, suc, ◌≡◌, refl, Option, none, some, Str}
use capturemate_ai.Engine.{
  Cache, Loaded, engine, import_error, load_failure, store, engine_or_load, get_ocr_engine,
}

-- There was no engine, one more construction was tried, there is still no engine, and the name of
-- the exception is kept.
pub record Failed {Engine : Type 0} (c c' : Cache Engine) : Type 0 where
  pub none_before : c.ocr_engine ≡ none
  pub none_after : c'.ocr_engine ≡ none
  pub tried : c'.loads ≡ suc c.loads
  pub name : Str
  pub told : c'.ocr_load_error ≡ some name

store-Failed :
    {Engine : Type 0} (c : Cache Engine) (l : Loaded Engine)
    → c.ocr_engine ≡ none
    → ((e : Engine) → ¬ l ≡ engine e)
    → Failed c (store c l)
unfolding store
store-Failed c (engine e) n f = absurd (f e refl)
store-Failed c (import_error s) n f = record {
  none_before = n;
  none_after = n;
  tried = refl;
  name = s;
  told = refl;
}
store-Failed c (load_failure s) n f = record {
  none_before = n;
  none_after = n;
  tried = refl;
  name = s;
  told = refl;
}

load-Failed :
    {Engine : Type 0} (load : ℕ → Loaded Engine) (c : Cache Engine) (o : Option Engine)
    → c.ocr_engine ≡ o
    → ((e : Engine) → ¬ (engine_or_load load c o).0 ≡ engine e)
    → Failed c (engine_or_load load c o).1
load-Failed load c (some e) h f = absurd (f e refl)
load-Failed load c none h f = store-Failed c (load c.loads) h f

pub get_ocr_engine-Failed :
    {Engine : Type 0} (load : ℕ → Loaded Engine) (c : Cache Engine)
    → ((e : Engine) → ¬ (get_ocr_engine load c).0 ≡ engine e)
    → Failed c (get_ocr_engine load c).1
unfolding get_ocr_engine
get_ocr_engine-Failed load c f = load-Failed load c c.ocr_engine refl f
