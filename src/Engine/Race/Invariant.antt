-- ===== src/Engine/Race/Invariant.antt =====
-- What holds of all threads at the double-checked lock of app/main.py.
use capturemate_ai.Prelude.{
  ℕ, ◌≡◌, ◌≢◌, refl, sym, ap, ◌∙◌, Bool, true, false, Option, none, some, some_inj, none-some, inl,
  inr, [], eqb, eqb_iff, Bool-cases,
}
use capturemate_ai.Engine.Ready.{IsCache, store-IsCache, events-IsCache}
use capturemate_ai.Engine.{Cache, Loaded, engine, store}
use capturemate_ai.Engine.Race.{
  Phase, System, locking, testing, constructing, returned, raised, moved, Step, found, missed,
  locked, found_inside, missed_inside, constructed, failed, Reach, here, next, start, inside,
}

module _ {Engine : Type 0} (load : ℕ → Loaded Engine) where
  pub record IsSafe (s : System Engine) : Type 0 where
    pub owned : (i : ℕ) → inside load (s.phase i) ≡ true → s.owner ≡ some i
    pub held : (i : ℕ) → s.owner ≡ some i → inside load (s.phase i) ≡ true
    pub unset : (i : ℕ) → s.phase i ≡ constructing → s.cache.ocr_engine ≡ none
    pub kept : (i : ℕ) (e : Engine) → s.phase i ≡ returned e → s.cache.ocr_engine ≡ some e
    pub cached : IsCache load s.cache

  pub moved_ind :
      (P : Phase Engine → Type 0) (s : System Engine) (i : ℕ) (p : Phase Engine) (j : ℕ)
      → (j ≡ i → P p)
      → (j ≢ i → P (s.phase j))
      → P (moved load s i p j)
  unfolding moved
  moved_ind P s i p j self other = elim (Bool-cases (eqb j i)) [
    | inl e ↦ rw e (self ((eqb_iff j i).0 e))
    | inr n ↦ rw n (other (λ e. let h = (eqb_iff j i).1 e in cc))
  ]

  -- What a step has to show: of the thread that moves, and of each other one.
  record IsStep (s : System Engine) (i : ℕ) (p : Phase Engine) (c : Cache Engine) (o : Option ℕ)
      : Type 0 where
    owned_self : inside load p ≡ true → o ≡ some i
    owned_other : (j : ℕ) → j ≢ i → inside load (s.phase j) ≡ true → o ≡ some j
    held_self : o ≡ some i → inside load p ≡ true
    held_other : (j : ℕ) → j ≢ i → o ≡ some j → inside load (s.phase j) ≡ true
    unset_self : p ≡ constructing → c.ocr_engine ≡ none
    unset_other : (j : ℕ) → j ≢ i → s.phase j ≡ constructing → c.ocr_engine ≡ none
    kept_self : (e : Engine) → p ≡ returned e → c.ocr_engine ≡ some e
    kept_other : (j : ℕ) (e : Engine) → s.phase j ≡ returned e → c.ocr_engine ≡ some e
    cached_after : IsCache load c

  IsStep-IsSafe :
      (s : System Engine) (i : ℕ) (p : Phase Engine) (c : Cache Engine) (o : Option ℕ)
      → IsStep s i p c o
      → IsSafe (record { cache = c; owner = o; phase = moved load s i p })
  IsStep-IsSafe s i p c o v = record {
    owned = λ j.
        moved_ind (λ q. inside load q ≡ true → o ≡ some j) s i p j (λ e h. rw e (v.owned_self h))
          (v.owned_other j);
    held = λ j.
        moved_ind (λ q. o ≡ some j → inside load q ≡ true) s i p j
          (λ e h. v.held_self (h ∙ ap some e)) (v.held_other j);
    unset = λ j.
        moved_ind (λ q. q ≡ constructing → c.ocr_engine ≡ none) s i p j (λ e. v.unset_self)
          (v.unset_other j);
    kept = λ j e.
        moved_ind (λ q. q ≡ returned e → c.ocr_engine ≡ some e) s i p j (λ e'. v.kept_self e)
          (λ n. v.kept_other j e);
    cached = v.cached_after;
  }

  phase_inj : {a b : Engine} → returned a ≡ returned b → a ≡ b
  phase_inj {a = a} h = ap engine_of h
    where
      engine_of : Phase Engine → Engine
      engine_of (returned e) = e
      engine_of _ = a

  module _ (s : System Engine) (v : IsSafe s) where
    -- While thread i is inside load, no other is.
    alone : (i j : ℕ) → inside load (s.phase i) ≡ true → j ≢ i → ¬ inside load (s.phase j) ≡ true
    alone i j hi n hj = n (some_inj (sym (v.owned j hj) ∙ v.owned i hi))

    -- A step that leaves cache and lock, to a phase outside it.
    outside_step :
        (i : ℕ) (p : Phase Engine)
        → inside load (s.phase i) ≡ false
        → inside load p ≡ false
        → ((e : Engine) → p ≡ returned e → s.cache.ocr_engine ≡ some e)
        → IsSafe (record s { phase = moved load s i p })
    outside_step i p was out k = IsStep-IsSafe s i p s.cache s.owner (record {
      owned_self = λ h. absurd (clash out h);
      owned_other = λ j n h. v.owned j h;
      held_self = λ h. absurd (clash was (v.held i h));
      held_other = λ j n h. v.held j h;
      unset_self = λ h. absurd (clash out (ap (inside load) h));
      unset_other = λ j n h. v.unset j h;
      kept_self = k;
      kept_other = v.kept;
      cached_after = v.cached;
    })
      where
        clash : {b : Bool} → b ≡ false → ¬ b ≡ true
        clash f t = cc

    -- A step out of the lock, with the cache that it leaves.
    leaving_step :
        (i : ℕ) (p : Phase Engine) (c : Cache Engine)
        → inside load (s.phase i) ≡ true
        → inside load p ≡ false
        → ((e : Engine) → p ≡ returned e → c.ocr_engine ≡ some e)
        → ((e : Engine) → s.cache.ocr_engine ≡ some e → c.ocr_engine ≡ some e)
        → IsCache load c
        → IsSafe (record { cache = c; owner = none; phase = moved load s i p })
    leaving_step i p c hi out k more w = IsStep-IsSafe s i p c none (record {
      owned_self = λ h. absurd (clash out h);
      owned_other = λ j n h. absurd (alone i j hi n h);
      held_self = λ h. absurd (none-some h);
      held_other = λ j n h. absurd (none-some h);
      unset_self = λ h. absurd (clash out (ap (inside load) h));
      unset_other = λ j n h. absurd (alone i j hi n (ap (inside load) h));
      kept_self = k;
      kept_other = λ j e h. more e (v.kept j e h);
      cached_after = w;
    })
      where
        clash : {b : Bool} → b ≡ false → ¬ b ≡ true
        clash f t = cc

  pub Step-IsSafe : (s t : System Engine) → Step load s t → IsSafe s → IsSafe t
  unfolding store
  Step-IsSafe s t (found i e h k) v =
      outside_step s v i (returned e) (ap (inside load) h) refl (λ e' q. k ∙ ap some (phase_inj q))
  Step-IsSafe s t (missed i h k) v =
      outside_step s v i locking (ap (inside load) h) refl (λ e q. cc)
  Step-IsSafe s t (locked i h k) v = IsStep-IsSafe s i testing s.cache (some i) (record {
    owned_self = λ q. refl;
    owned_other = λ j n q. absurd (none-some (sym k ∙ v.owned j q));
    held_self = λ q. refl;
    held_other = λ j n q. absurd (n (some_inj (sym q)));
    unset_self = λ q. cc;
    unset_other = λ j n q. v.unset j q;
    kept_self = λ e q. cc;
    kept_other = v.kept;
    cached_after = v.cached;
  })
  Step-IsSafe s t (found_inside i e h k) v =
      leaving_step s v i (returned e) s.cache (ap (inside load) h) refl
        (λ e' q. k ∙ ap some (phase_inj q)) (λ e' q. q) v.cached
  Step-IsSafe s t (missed_inside i h k) v = IsStep-IsSafe s i constructing s.cache s.owner (record {
    owned_self = λ q. v.owned i (ap (inside load) h);
    owned_other = λ j n q. v.owned j q;
    held_self = λ q. refl;
    held_other = λ j n q. v.held j q;
    unset_self = λ q. k;
    unset_other = λ j n q. k;
    kept_self = λ e q. cc;
    kept_other = v.kept;
    cached_after = v.cached;
  })
  Step-IsSafe s t (constructed i e h k) v =
      leaving_step s v i (returned e) (store s.cache (engine e)) (ap (inside load) h) refl
        (λ e' q. ap some (phase_inj q)) (λ e' q. absurd (none-some (sym (v.unset i h) ∙ q)))
        (store-IsCache load s.cache (engine e) k (v.unset i h) v.cached)
  Step-IsSafe s t (failed i l h k f) v =
      leaving_step s v i raised (store s.cache l) (ap (inside load) h) refl (λ e q. cc)
        (λ e q. absurd (none-some (sym (v.unset i h) ∙ q)))
        (store-IsCache load s.cache l k (v.unset i h) v.cached)

  pub Reach-IsSafe : (s : System Engine) → Reach load (start load) s → IsSafe s
  Reach-IsSafe s here = record {
    owned = λ i h. cc;
    held = λ i h. absurd (none-some h);
    unset = λ i h. cc;
    kept = λ i e h. cc;
    cached = events-IsCache load [];
  }
  Reach-IsSafe s (next {t} r st) = Step-IsSafe t s st (Reach-IsSafe t r)

  -- In every system that the threads can reach from the start, at most one thread is inside the
  -- lock, any two threads that have an engine have the same, which is the one that is kept, and at
  -- most one construction has succeeded, the last.
  pub Reach-safe :
      (s : System Engine)
      → Reach load (start load) s
      → ((i j : ℕ) → inside load (s.phase i) ≡ true → inside load (s.phase j) ≡ true → i ≡ j)
        × ((i j : ℕ) (a b : Engine) → s.phase i ≡ returned a → s.phase j ≡ returned b → a ≡ b)
        × ((i : ℕ) (a : Engine) → s.phase i ≡ returned a → s.cache.ocr_engine ≡ some a)
        × IsCache load s.cache
  Reach-safe s r =
      let v = Reach-IsSafe s r in
      (
        λ i j hi hj. some_inj (sym (v.owned i hi) ∙ v.owned j hj),
        λ i j a b ha hb. some_inj (sym (v.kept i a ha) ∙ v.kept j b hb),
        v.kept,
        v.cached,
      )
