-- ===== src/Tests/EngineTests.antt =====
-- Runs of the engine's cache, alone and by threads.
use capturemate_ai.Prelude.{ℕ, ◌≡◌, refl, ◌↔◌, true, some, [], ◌∷◌, eqb, if◌then◌else◌}
use capturemate_ai.Text.{codes}
use capturemate_ai.Engine.{
  Loaded, engine, load_failure, store, get_ocr_engine, startup, health_ready,
}
use capturemate_ai.Engine.Ready.{wanted, started, IsCache, after_events, after_events-IsCache}
use capturemate_ai.Engine.Race.{
  locking, returned, System, missed, locked, missed_inside, constructed, Reach, here, next, start,
  inside, finished, moved,
}
use capturemate_ai.Engine.Race.Invariant.{Reach-safe}
use capturemate_ai.Engine.Race.Return.{Reach-Back}

-- The first construction fails, every later one gives engine 7.
abbrev second_load : ℕ → Loaded ℕ
second_load n = if eqb n 0 then load_failure (codes "OSError") else engine 7

second_wanted : (after_events second_load (wanted ∷ started true ∷ [])).ocr_engine ≡ some 7
unfolding get_ocr_engine startup
second_wanted = refl

after_events-IsCache_example :
    IsCache second_load (after_events second_load (wanted ∷ started true ∷ []))
    × (((health_ready true (after_events second_load (wanted ∷ started true ∷ []))).0 ≡ 200)
        ↔ ((e : ℕ) × ((after_events second_load (wanted ∷ started true ∷ [])).ocr_engine ≡ some e)))
after_events-IsCache_example = after_events-IsCache second_load (wanted ∷ started true ∷ []) true

abbrev always : ℕ → Loaded ℕ
always n = engine 7

-- Thread 0 constructs the engine while thread 1 waits at the lock.
at_work :
    (s : System ℕ) × Reach always (start always) s
    × (s.phase 0 ≡ returned 7)
    × (s.phase 1 ≡ locking)
unfolding moved store
at_work = (
  _,
  next
      (next (next (next (next here (missed 0 refl refl)) (missed 1 refl refl)) (locked 0 refl refl))
        (missed_inside 0 refl refl))
      (constructed 0 7 refl refl),
  refl,
  refl,
)

Reach-safe_example :
    ((i j : ℕ)
      → inside always (at_work.0.phase i) ≡ true
      → inside always (at_work.0.phase j) ≡ true
      → i ≡ j)
    × ((i j : ℕ) (a b : ℕ)
        → at_work.0.phase i ≡ returned a
        → at_work.0.phase j ≡ returned b
        → a ≡ b)
    × ((i : ℕ) (a : ℕ) → at_work.0.phase i ≡ returned a → at_work.0.cache.ocr_engine ≡ some a)
    × IsCache always at_work.0.cache
Reach-safe_example = Reach-safe always at_work.0 at_work.1

Reach-Back_example :
    (t : System ℕ) × Reach always at_work.0 t × (finished always (t.phase 1) ≡ true)
Reach-Back_example = Reach-Back always at_work.0 1 at_work.1
