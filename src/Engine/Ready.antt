-- ===== src/Engine/Ready.antt =====
-- The readiness of the server over its requests.
use capturemate_ai.Prelude.{
  ℕ, suc, ◌≡◌, ◌<◌, refl, sym, ap, ◌∙◌, dec_lt, Option-cases, inl, inr, ◌↔◌, Bool, true, false,
  Option, none, some, some_inj, none-some, List, [], ◌∷◌, Str, arith,
}
use capturemate_ai.Engine.{
  Cache, Loaded, engine, import_error, load_failure, empty_cache, store, engine_or_load,
  get_ocr_engine, ocr_ready, startup, health_ready,
}

pub engine_inj : {Engine : Type 0} {a b : Engine} → engine a ≡ engine b → a ≡ b
engine_inj {Engine = Engine} {a = a} h = ap value_or h
  where
    value_or : Loaded Engine → Engine
    value_or (engine e) = e
    value_or _ = a

module _ {Engine : Type 0} (load : ℕ → Loaded Engine) where
  -- An event that uses the cache: a request that wants the engine, or the startup of the server.
  pub data Event : Type 0 where
    wanted : Event
    started : Bool → Event

  abbrev pub after_event : Event → Cache Engine → Cache Engine
  after_event wanted c = (get_ocr_engine load c).1
  after_event (started warmup) c = startup load warmup c

  -- The cache after some events, the latest first.
  abbrev pub after_events : List Event → Cache Engine
  after_events [] = empty_cache
  after_events (e ∷ es) = after_event e (after_events es)

  -- The only engine ever constructed is the one that is kept, and there is no error beside it.
  pub record IsCache (c : Cache Engine) : Type 0 where
    pub no_error : (e : Engine) → c.ocr_engine ≡ some e → c.ocr_load_error ≡ none
    pub only :
        (k : ℕ) (e : Engine)
        → k < c.loads
        → load k ≡ engine e
        → (c.ocr_engine ≡ some e) × (suc k ≡ c.loads)
    pub source :
        (e : Engine) → c.ocr_engine ≡ some e → (k : ℕ) × (suc k ≡ c.loads) × (load k ≡ engine e)

  abbrev NotYet : Cache Engine → Type 0
  NotYet c = c.ocr_engine ≡ none

  failed-IsCache :
      (c : Cache Engine) (name : Str)
      → NotYet c
      → ((e : Engine) → ¬ load c.loads ≡ engine e)
      → IsCache c
      → IsCache (record c { ocr_load_error = some name; loads = suc c.loads })
  failed-IsCache c name n f v = record {
    no_error = λ e h. absurd (none-some (sym n ∙ h));
    only = λ k e lt h. elim (dec_lt k c.loads) [
      | yes old ↦ absurd (none-some (sym n ∙ (v.only k e old h).0))
      | no new ↦ let same : k ≡ c.loads = omega arith in absurd (f e (rw same at h))
    ];
    source = λ e h. absurd (none-some (sym n ∙ h));
  }

  pub store-IsCache :
      (c : Cache Engine) (l : Loaded Engine)
      → load c.loads ≡ l
      → NotYet c
      → IsCache c
      → IsCache (store c l)
  unfolding store
  store-IsCache c (engine e) h n v = record {
    no_error = λ e' h'. refl;
    only = λ k e' lt h'. elim (dec_lt k c.loads) [
      | yes old ↦ absurd (none-some (sym n ∙ (v.only k e' old h').0))
      | no new ↦
          let same : k ≡ c.loads = omega arith in
          (ap some (engine_inj (sym h ∙ (rw same at h'))), ap suc same)
    ];
    source = λ e' h'. (c.loads, refl, h ∙ ap engine (some_inj h'));
  }
  store-IsCache c (import_error name) h n v =
      failed-IsCache c name n (λ e h'. let clash = sym h ∙ h' in cc) v
  store-IsCache c (load_failure name) h n v =
      failed-IsCache c name n (λ e h'. let clash = sym h ∙ h' in cc) v

  answered-IsCache :
      (c : Cache Engine) (o : Option Engine)
      → c.ocr_engine ≡ o
      → IsCache c
      → IsCache (engine_or_load load c o).1
  answered-IsCache c (some e) h v = v
  answered-IsCache c none h v = store-IsCache c (load c.loads) refl h v

  get_ocr_engine-IsCache : (c : Cache Engine) → IsCache c → IsCache (get_ocr_engine load c).1
  unfolding get_ocr_engine
  get_ocr_engine-IsCache c v = answered-IsCache c c.ocr_engine refl v

  startup-IsCache : (b : Bool) (c : Cache Engine) → IsCache c → IsCache (startup load b c)
  unfolding startup
  startup-IsCache true c v = get_ocr_engine-IsCache c v
  startup-IsCache false c v = v

  pub events-IsCache : (es : List Event) → IsCache (after_events es)
  events-IsCache [] = record {
    no_error = λ e h. refl;
    only = λ k e lt h. absurd (omega arith);
    source = λ e h. absurd (none-some h);
  }
  events-IsCache (wanted ∷ es) = get_ocr_engine-IsCache (after_events es) (events-IsCache es)
  events-IsCache (started b ∷ es) = startup-IsCache b (after_events es) (events-IsCache es)

  ready_lem :
      (c : Cache Engine)
      → IsCache c
      → (llm : Bool) → ((health_ready llm c).0 ≡ 200) ↔ ((e : Engine) × (c.ocr_engine ≡ some e))
  unfolding health_ready ocr_ready
  ready_lem c v llm = elim (Option-cases c.ocr_engine) [
    | inl n ↦ rw n (λ h. absurd (omega arith), λ p. absurd (none-some p.1))
    | inr (e, h) ↦ rw (h, v.no_error e h) (λ p. (e, refl), λ p. refl)
  ]

  -- After any startups and requests for the engine: at most one construction has succeeded, the
  -- last; its engine is the one that is kept, without an error beside it; and /health/ready answers
  -- 200 exactly when there is an engine.
  pub after_events-IsCache :
      (events : List Event) (llm_enabled : Bool)
      → IsCache (after_events events)
        × (((health_ready llm_enabled (after_events events)).0 ≡ 200)
            ↔ ((e : Engine) × ((after_events events).ocr_engine ≡ some e)))
  after_events-IsCache events llm_enabled =
      (events-IsCache events, ready_lem (after_events events) (events-IsCache events) llm_enabled)
