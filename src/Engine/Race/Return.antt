-- ===== src/Engine/Race/Return.antt =====
-- That every call of `_get_ocr_engine` can come back, whatever the other threads have done.
use capturemate_ai.Prelude.{
  ℕ, ◌≡◌, ◌≢◌, refl, sym, ap, ◌∙◌, true, none, some, Option-cases, inl, inr,
}
use capturemate_ai.Engine.{Cache, Loaded, engine, import_error, load_failure}
use capturemate_ai.Engine.Race.{
  Phase, System, calling, locking, testing, constructing, returned, raised, moved, Step, found,
  missed, locked, found_inside, missed_inside, constructed, failed, Reach, here, next, start,
  inside, finished,
}
use capturemate_ai.Engine.Race.Invariant.{IsSafe, Reach-IsSafe, Step-IsSafe, moved_ind}

module _ {Engine : Type 0} (load : ℕ → Loaded Engine) where
  Reach-trans : {s t u : System Engine} → Reach load s t → Reach load t u → Reach load s u
  Reach-trans r here = r
  Reach-trans r (next q st) = next (Reach-trans r q) st

  first_step : {s t u : System Engine} → Step load s t → Reach load t u → Reach load s u
  first_step st r = Reach-trans (next here st) r

  moved_self : (s : System Engine) (i : ℕ) (p : Phase Engine) → moved load s i p i ≡ p
  moved_self s i p = moved_ind load (λ q. q ≡ p) s i p i (λ e. refl) (λ n. absurd (n refl))

  moved_other :
      (s : System Engine) (i : ℕ) (p : Phase Engine) (k : ℕ)
      → k ≢ i
      → moved load s i p k ≡ s.phase k
  moved_other s i p k n =
      moved_ind load (λ q. q ≡ s.phase k) s i p k (λ e. absurd (n e)) (λ m. refl)

  -- A thread has left the lock, and no other has moved.
  record HasLeft (s : System Engine) (j : ℕ) : Type 0 where
    after : System Engine
    path : Reach load s after
    back : finished load (after.phase j) ≡ true
    free : after.owner ≡ none
    others : (k : ℕ) → k ≢ j → after.phase k ≡ s.phase k

  left_at :
      (s : System Engine) (j : ℕ) (c : Cache Engine) (p : Phase Engine)
      → finished load p ≡ true
      → Step load s (record { cache = c; owner = none; phase = moved load s j p })
      → HasLeft s j
  left_at s j c p f st = record {
    after = record { cache = c; owner = none; phase = moved load s j p };
    path = next here st;
    back = ap (finished load) (moved_self s j p) ∙ f;
    free = refl;
    others = moved_other s j p;
  }

  constructing-HasLeft :
      (s : System Engine) (j : ℕ) (l : Loaded Engine)
      → load s.cache.loads ≡ l
      → s.phase j ≡ constructing
      → HasLeft s j
  constructing-HasLeft s j (engine e) h q = left_at s j _ (returned e) refl (constructed j e q h)
  constructing-HasLeft s j (import_error n) h q =
      left_at s j _ raised refl (failed j (import_error n) q h (λ e k. cc))
  constructing-HasLeft s j (load_failure n) h q =
      left_at s j _ raised refl (failed j (load_failure n) q h (λ e k. cc))

  testing-HasLeft : (s : System Engine) (j : ℕ) → s.phase j ≡ testing → HasLeft s j
  testing-HasLeft s j q = elim (Option-cases s.cache.ocr_engine) [
    | inr (e, h) ↦ left_at s j s.cache (returned e) refl (found_inside j e q h)
    | inl h ↦
        let s₁ : System Engine = record s { phase = moved load s j constructing } in
        let l = constructing-HasLeft s₁ j _ refl (moved_self s j constructing) in
        record {
          after = l.after;
          path = first_step (missed_inside j q h) l.path;
          back = l.back;
          free = l.free;
          others = λ k n. l.others k n ∙ moved_other s j constructing k n;
        }
  ]

  inside-HasLeft :
      (s : System Engine) (j : ℕ) (p : Phase Engine)
      → s.phase j ≡ p
      → inside load p ≡ true
      → HasLeft s j
  inside-HasLeft s j testing q h = testing-HasLeft s j q
  inside-HasLeft s j constructing q h = constructing-HasLeft s j _ refl q
  inside-HasLeft s j calling q h = cc
  inside-HasLeft s j locking q h = cc
  inside-HasLeft s j (returned e) q h = cc
  inside-HasLeft s j raised q h = cc

  abbrev Back : System Engine → ℕ → Type 0
  Back s i = (t : System Engine) × Reach load s t × (finished load (t.phase i) ≡ true)

  free-Back : (s : System Engine) (i : ℕ) → s.phase i ≡ locking → s.owner ≡ none → Back s i
  free-Back s i q h =
      let l =
        testing-HasLeft (record s { owner = some i; phase = moved load s i testing }) i
          (moved_self s i testing) in
      (l.after, first_step (locked i q h) l.path, l.back)

  locking-Back : (s : System Engine) (i : ℕ) → IsSafe load s → s.phase i ≡ locking → Back s i
  locking-Back s i v q = elim (Option-cases s.owner) [
    | inl h ↦ free-Back s i q h
    | inr (j, h) ↦
        let in_lock = v.held j h in
        let l = inside-HasLeft s j (s.phase j) refl in_lock in
        let apart : i ≢ j = λ e. (let clash = ap (inside load) (sym (ap s.phase e) ∙ q) in cc) in
        let (t, r, b) = free-Back l.after i (l.others i apart ∙ q) l.free in
        (t, Reach-trans l.path r, b)
  ]

  phase-Back :
      (s : System Engine) (i : ℕ) (p : Phase Engine) → IsSafe load s → s.phase i ≡ p → Back s i
  phase-Back s i calling v q = elim (Option-cases s.cache.ocr_engine) [
    | inr (e, h) ↦ (_, next here (found i e q h), ap (finished load) (moved_self s i (returned e)))
    | inl h ↦
        let st = missed i q h in
        let (t, r, b) =
          locking-Back (record s { phase = moved load s i locking }) i (Step-IsSafe load s _ st v)
            (moved_self s i locking) in
        (t, first_step st r, b)
  ]
  phase-Back s i locking v q = locking-Back s i v q
  phase-Back s i testing v q = let l = testing-HasLeft s i q in (l.after, l.path, l.back)
  phase-Back s i constructing v q =
      let l = constructing-HasLeft s i _ refl q in (l.after, l.path, l.back)
  phase-Back s i (returned e) v q = (s, here, ap (finished load) q)
  phase-Back s i raised v q = (s, here, ap (finished load) q)

  -- From every system that the threads can reach, each call can still come back, with an engine or
  -- an exception: no call is ever lost at the lock, also where constructions fail.
  pub Reach-Back :
      (s : System Engine) (i : ℕ)
      → Reach load (start load) s
      → (t : System Engine) × Reach load s t × (finished load (t.phase i) ≡ true)
  Reach-Back s i r = phase-Back s i (s.phase i) (Reach-IsSafe load s r) refl
