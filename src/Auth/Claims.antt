-- ===== src/Auth/Claims.antt =====
-- The steps of auth.py on the claims of a token: what they keep and when they go on.
use capturemate_ai.Prelude.{
  ◌≡◌, refl, ap, false, Option, none, some, Str, some_inj, none-some, [], ◌∷◌, ◌==◌, str_eq,
  str_eqb_iff,
}
use capturemate_ai.Json.{Value, Fields, null, bool, int, float, str, list, dict, end, field, get}
use capturemate_ai.Auth.{Http, success, http_error, exception, ◌>>=◌, optional_string, without_none}
use capturemate_ai.Auth.{found_subject}
use capturemate_ai.Auth.Tokens.{success_inj, error-success, exception-success}

pub bind-accepts {ℓ κ} :
    {A : Type ℓ} {B : Type κ} (r : Http A) (f : A → Http B) {a : A} {b : B}
    → r ≡ success a
    → f a ≡ success b
    → (r >>= f) ≡ success b
bind-accepts (http_error n d) f h k = absurd (error-success h)
bind-accepts (exception e) f h k = absurd (exception-success h)
bind-accepts (success x) f h k = rw (success_inj h) k

-- A key keeps its value where only None is dropped.
pub without_none-hit :
    (k : Str) (v : Value) (fs : Fields)
    → get k (without_none fs) ≡ null
    → get k (without_none (field k v fs)) ≡ v
unfolding without_none get
without_none-hit k null fs h = h
without_none-hit k (bool b) fs h = rw ((str_eqb_iff k k).1 refl) refl
without_none-hit k (int n) fs h = rw ((str_eqb_iff k k).1 refl) refl
without_none-hit k (float x) fs h = rw ((str_eqb_iff k k).1 refl) refl
without_none-hit k (str s) fs h = rw ((str_eqb_iff k k).1 refl) refl
without_none-hit k (list vs) fs h = rw ((str_eqb_iff k k).1 refl) refl
without_none-hit k (dict gs) fs h = rw ((str_eqb_iff k k).1 refl) refl

pub without_none-miss :
    (k j : Str) (v : Value) (fs : Fields)
    → (j == k) ≡ false
    → get k (without_none (field j v fs)) ≡ get k (without_none fs)
unfolding without_none get
without_none-miss k j null fs h = refl
without_none-miss k j (bool b) fs h = rw h refl
without_none-miss k j (int n) fs h = rw h refl
without_none-miss k j (float x) fs h = rw h refl
without_none-miss k j (str s) fs h = rw h refl
without_none-miss k j (list vs) fs h = rw h refl
without_none-miss k j (dict gs) fs h = rw h refl

pub nothing : (k : Str) → get k (without_none end) ≡ null
unfolding without_none get
nothing k = refl

pub optional_string-again :
    (v : Value) (s : Str) → optional_string v ≡ some s → optional_string (str s) ≡ some s
unfolding optional_string
optional_string-again (str (c ∷ t)) s h = rw (← some_inj h) refl
optional_string-again (str []) s h = absurd (none-some h)
optional_string-again null s h = absurd (none-some h)
optional_string-again (bool b) s h = absurd (none-some h)
optional_string-again (int n) s h = absurd (none-some h)
optional_string-again (float x) s h = absurd (none-some h)
optional_string-again (list vs) s h = absurd (none-some h)
optional_string-again (dict gs) s h = absurd (none-some h)

pub found_subject-some :
    (d : Str) (o : Option Str) {s : Str} → found_subject d o ≡ success s → o ≡ some s
found_subject-some d none h = absurd (error-success h)
found_subject-some d (some s) h = ap some (success_inj h)
