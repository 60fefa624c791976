-- ===== src/Service/Retry.antt =====
-- `_generate_json` of app/analysis/service.py: how many calls it makes, and which answer it takes.
use capturemate_ai.Prelude.{
  ℕ, zero, suc, ◌+◌, ◌-◌, ◌*◌, ◌≤◌, ◌<◌, ◌≡◌, refl, ap, ◌∙◌, ◌⊎◌, inl, inr, Option, none, some,
  Option-cases, List, [], ◌∷◌, Str, arith,
}
use capturemate_ai.Json.{Fields}
use capturemate_ai.Models.{Settings}
use capturemate_ai.Service.{
  Runtime, Client, World, parsed, pause, try_calls, attempts, generate_json,
}

module _ (rt : Runtime) (client : Client) (prompt : Str) where
  -- The answer to call number n, read as JSON.
  abbrev pub answer : ℕ → Option Fields
  answer n = parsed rt (client n prompt)

  -- The calls from `start` on: `failed` of them give nothing, and then the result is `result`.
  pub record Tried (left start : ℕ) (result : Option Fields) (calls : ℕ) : Type 0 where
    pub failed : ℕ
    pub failures : (j : ℕ) → j < failed → answer (start + j) ≡ none
    pub ended :
        ((result ≡ none) × (failed ≡ left) × (calls ≡ start + left))
        ⊎ ((failed < left)
            × (calls ≡ start + failed + 1)
            × (answer (start + failed) ≡ result)
            × ((fs : Fields) × (result ≡ some fs)))

  pause-calls : (left attempt : ℕ) (w : World) → (pause rt client left attempt w).calls ≡ w.calls
  pause-calls zero attempt w = refl
  pause-calls (suc left) attempt w = refl

  Tried-suc :
      (left start : ℕ) (result : Option Fields) (calls : ℕ)
      → answer start ≡ none
      → Tried left (suc start) result calls
      → Tried (suc left) start result calls
  Tried-suc left start result calls e t = record {
    failed = suc t.failed;
    failures = at;
    ended = elim t.ended [
      | inl (r, f, c) ↦ inl (r, ap suc f, omega arith)
      | inr (lt, c, a, fs) ↦ inr (
        omega arith,
        omega arith,
        ap answer (let q : start + suc t.failed ≡ suc start + t.failed = omega arith in q) ∙ a,
        fs,
      )
    ];
  }
    where
      at : (j : ℕ) → j < suc t.failed → answer (start + j) ≡ none
      at zero lt = ap answer (let q : start + 0 ≡ start = omega arith in q) ∙ e
      at (suc j) lt =
          ap answer (let q : start + suc j ≡ suc start + j = omega arith in q)
          ∙ t.failures j (omega arith)

  try_calls-Tried :
      (left attempt : ℕ) (w : World)
      → Tried left w.calls
          (try_calls rt client left attempt prompt w).0
          (try_calls rt client left attempt prompt w).1.calls
  unfolding try_calls
  try_calls-Tried zero attempt w = record {
    failed = 0;
    failures = λ j lt. absurd (omega arith);
    ended = inl (refl, refl, omega arith);
  }
  try_calls-Tried (suc left) attempt w = elim (Option-cases (answer w.calls)) [
    | inl e ↦
        let w' = pause rt client left attempt (record w { calls = suc w.calls }) in
        let next = try_calls-Tried left (suc attempt) w' in
        rw (e, try_calls)
          (Tried-suc left w.calls _ _ e
            (rw (pause-calls left attempt (record w { calls = suc w.calls })) at next))
    | inr (fs, e) ↦
        rw (e, try_calls)
          (record {
            failed = 0;
            failures = λ j lt. absurd (omega arith);
            ended = inr (
              omega arith,
              omega arith,
              (ap answer (let q : w.calls + 0 ≡ w.calls = omega arith in q) ∙ e),
              (fs, refl),
            );
          })
  ]

  abbrev pub total : List ℕ → ℕ
  total [] = 0
  total (s ∷ ss) = s + total ss

  pause-total :
      (left attempt : ℕ) (w : World)
      → total (pause rt client left attempt w).slept ≤ total w.slept + 4
  pause-total zero attempt w = omega arith
  pause-total (suc left) attempt w = omega arith

  no_pause : (attempt : ℕ) (w : World) → (pause rt client 0 attempt w).slept ≡ w.slept
  no_pause attempt w = refl

  try_calls-total :
      (left attempt : ℕ) (w : World)
      → total (try_calls rt client left attempt prompt w).1.slept ≤ total w.slept + 4 * (left - 1)
  unfolding try_calls
  try_calls-total zero attempt w = omega arith
  try_calls-total (suc zero) attempt w = elim (Option-cases (answer w.calls)) [
    | inl e ↦ rw (e, try_calls) (omega arith)
    | inr (fs, e) ↦ rw (e, try_calls) (omega arith)
  ]
  try_calls-total (suc (suc left)) attempt w = elim (Option-cases (answer w.calls)) [
    | inl e ↦
        let served : World = record w { calls = suc w.calls } in
        let w' = pause rt client (suc left) attempt served in
        let ih = try_calls-total (suc left) (suc attempt) w' in
        rw (e, try_calls) (omega (arith, ih, pause-total (suc left) attempt served))
    | inr (fs, e) ↦ rw (e, try_calls) (omega arith)
  ]

module _ (rt : Runtime) (cfg : Settings) (client : Client) (prompt : Str) (w : World) where
  -- The loop asks the client until an answer parses: every call before fails, and the result is
  -- that answer's object. Where no answer parses, it makes `attempts` calls, exactly, and the
  -- result is None.
  pub generate_json-Tried :
      Tried rt client prompt
        (attempts rt cfg.llm_max_retries)
        w.calls
        (generate_json rt cfg client prompt w).0
        (generate_json rt cfg client prompt w).1.calls
  unfolding generate_json
  generate_json-Tried = try_calls-Tried rt client prompt (attempts rt cfg.llm_max_retries) 1 w

  -- The pauses between the attempts add up to at most four seconds for each retry.
  pub generate_json-wait :
      total rt client prompt (generate_json rt cfg client prompt w).1.slept
      ≤ total rt client prompt w.slept + 4 * (attempts rt cfg.llm_max_retries - 1)
  unfolding generate_json
  generate_json-wait = try_calls-total rt client prompt (attempts rt cfg.llm_max_retries) 1 w
