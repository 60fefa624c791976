-- ===== src/Json.antt =====
-- The values of parsed JSON, as the program tests and reads them, and the exceptions of doing so.
pub mod Keys
use capturemate_ai.Prelude.{
  zero, suc, ◌≡◌, refl, ap, Bool, true, false, not, Option, none, some, List, [], ◌∷◌, Str, eqb,
  if◌then◌else◌, ◌==◌, str_eq,
}
use capturemate_ai.Prelude.Int.{ℤ, pos, negsuc}
use capturemate_ai.Prelude.Float.{Float, FloatOps, zero_float, one_float}
use capturemate_ai.Text.{nonempty}

mutual
  pub data Value : Type 0 where
    null : Value
    bool : Bool → Value
    int : ℤ → Value
    float : Float → Value
    str : Str → Value
    list : Values → Value
    dict : Fields → Value

  pub data Values : Type 0 where
    nil : Values
    cons : Value → Values → Values

  pub data Fields : Type 0 where
    end : Fields
    field : Str → Value → Fields → Fields

pub data Error : Type 0 where
  type_error value_error attribute_error arithmetic_error validation_error import_error : Error
  other_error : Str → Error

pub data Result {ℓ} (A : Type ℓ) : Type ℓ where
  ok : A → Result A
  raise : Error → Result A

infixl 5 ◌>>=◌
abbrev pub ◌>>=◌ {ℓ κ} : {A : Type ℓ} {B : Type κ} → Result A → (A → Result B) → Result B
ok a >>= f = f a
raise e >>= f = raise e

pub ok_inj {ℓ} : {A : Type ℓ} {a b : A} → ok a ≡ ok b → a ≡ b
ok_inj {A = A} {a = a} h = ap value_or h
  where
    value_or : Result A → A
    value_or (ok x) = x
    value_or (raise e) = a

pub raise-ok {ℓ} : {A : Type ℓ} {e : Error} {a : A} → ¬ raise e ≡ ok a
raise-ok h = cc

-- Both steps of a chain that returns have returned.
pub bind-ok {ℓ κ} :
    {A : Type ℓ} {B : Type κ} (r : Result A) (f : A → Result B) {b : B}
    → (r >>= f) ≡ ok b
    → (a : A) × (r ≡ ok a) × (f a ≡ ok b)
bind-ok (raise e) f h = cc
bind-ok (ok a) f h = (a, refl, h)

-- A step that raises an arithmetic error where `Option` has `none`.
abbrev pub or_arithmetic {ℓ} : {A : Type ℓ} → Option A → Result A
or_arithmetic (some a) = ok a
or_arithmetic none = raise arithmetic_error

pub bind-returns {ℓ κ} :
    {A : Type ℓ} {B : Type κ} (r : Result A) (f : A → Result B) {a : A} {b : B}
    → r ≡ ok a
    → f a ≡ ok b
    → (r >>= f) ≡ ok b
bind-returns (raise e) f h k = absurd (raise-ok h)
bind-returns (ok x) f h k = rw (ok_inj h) k

pub or_arithmetic-ok {ℓ} : {A : Type ℓ} (o : Option A) {a : A} → or_arithmetic o ≡ ok a → o ≡ some a
or_arithmetic-ok none h = cc
or_arithmetic-ok (some a) h = ap some (ok_inj h)

unfoldable pub to_list : Values → List Value
to_list nil = []
to_list (cons v vs) = v ∷ to_list vs

unfoldable pub of_list : List Value → Values
of_list [] = nil
of_list (v ∷ vs) = cons v (of_list vs)

-- d.get(key, None)
unfoldable pub get : Str → Fields → Value
get key end = null
get key (field k v fs) = if k == key then v else get key fs

-- key in d
unfoldable pub has : Str → Fields → Bool
has key end = false
has key (field k v fs) = if k == key then true else has key fs

-- d[key] = v
unfoldable pub put : Str → Value → Fields → Fields
put key v end = field key v end
put key v (field k w fs) = if k == key then field k v fs else field k w (put key v fs)

-- d without its key
unfoldable pub without : Str → Fields → Fields
without key end = end
without key (field k v fs) = let rest = without key fs in if k == key then rest else field k v rest

-- bool(v). A float is false at the two zeros only.
unfoldable pub truthy : Value → Bool
truthy null = false
truthy (bool b) = b
truthy (int (pos zero)) = false
truthy (int (pos (suc n))) = true
truthy (int (negsuc n)) = true
truthy (float x) = if eqb x.bits 0 then false else not (eqb x.bits 0x8000_0000_0000_0000)
truthy (str s) = nonempty s
truthy (list nil) = false
truthy (list (cons v vs)) = true
truthy (dict end) = false
truthy (dict (field k v fs)) = true

-- v or w
unfoldable pub or_else : Value → Value → Value
unfolding truthy
or_else v w = if truthy v then v else w

unfoldable pub char_values : Str → List Value
char_values [] = []
char_values (c ∷ s) = str (c ∷ []) ∷ char_values s

unfoldable pub key_values : Fields → List Value
key_values end = []
key_values (field k v fs) = str k ∷ key_values fs

-- for x in v
unfoldable pub iterate : Value → Result (List Value)
unfolding to_list char_values key_values
iterate (list vs) = ok (to_list vs)
iterate (str s) = ok (char_values s)
iterate (dict fs) = ok (key_values fs)
iterate _ = raise type_error

-- str(v); the text of a value that is no text is the interpreter's.
unfoldable pub to_str : (Value → Str) → Value → Str
to_str format (str s) = s
to_str format v = format v

abbrev pub or_value_error {ℓ} : {A : Type ℓ} → Option A → Result A
or_value_error (some a) = ok a
or_value_error none = raise value_error

-- float(v)
unfoldable pub to_float : FloatOps → Value → Result Float
to_float ops (float x) = ok x
to_float ops (int n) = or_arithmetic (ops.of_int n)
to_float ops (bool b) = ok (if b then one_float else zero_float)
to_float ops (str s) = or_value_error (ops.of_str s)
to_float ops _ = raise type_error

-- A text or None as a value.
unfoldable pub opt_str : Option Str → Value
opt_str none = null
opt_str (some s) = str s

unfoldable pub opt_float : Option Float → Value
opt_float none = null
opt_float (some x) = float x
