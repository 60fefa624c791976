-- ===== src/Restore/Kept.antt =====
-- What the restoration of a response puts back, and what it leaves as it is.
use capturemate_ai.Prelude.{◌≡◌, refl, true, none, some, [], ◌∷◌, Str, Option, All}
use capturemate_ai.Prelude.Dict.{Dict}
use capturemate_ai.Text.{nonempty}
use capturemate_ai.Text.Replaced.{Replaced, replace-Replaced}
use capturemate_ai.Privacy.{restore_text}
use capturemate_ai.Json.{
  Value, Values, Fields, null, bool, int, float, str, list, dict, nil, cons, end, field, ok,
  bind-returns,
}
use capturemate_ai.Models.{AnalyzeResponse}
use capturemate_ai.Service.Responses.{is_text_or_none}
use capturemate_ai.Restore.{
  restore_value, restore_values, restore_fields, restore_action, restore_in_response,
  restore_details,
}

-- The tokens of the mapping, one after the other, are replaced by what they stand for.
pub data Restored : Dict Str Str → Str → Str → Type 0 where
  all_back : {s : Str} → Restored [] s s
  back :
      {token original s t u : Str} {mapping : Dict Str Str}
      → Replaced token original s t
      → Restored mapping t u
      → Restored ((token, original) ∷ mapping) s u

-- Every text in the value is restored; the keys, their order and all other values are the same.
mutual
  pub data RestoredValue (mapping : Dict Str Str) : Value → Value → Type 0 where
    texts : {s t : Str} → Restored mapping s t → RestoredValue mapping (str s) (str t)
    lists :
        {vs ws : Values} → RestoredValues mapping vs ws → RestoredValue mapping (list vs) (list ws)
    dicts :
        {fs gs : Fields} → RestoredFields mapping fs gs → RestoredValue mapping (dict fs) (dict gs)
    nulls : RestoredValue mapping null null
    bools : {b : _} → RestoredValue mapping (bool b) (bool b)
    ints : {n : _} → RestoredValue mapping (int n) (int n)
    floats : {x : _} → RestoredValue mapping (float x) (float x)

  pub data RestoredValues (mapping : Dict Str Str) : Values → Values → Type 0 where
    no_more : RestoredValues mapping nil nil
    next :
        {v w : Value} {vs ws : Values}
        → RestoredValue mapping v w
        → RestoredValues mapping vs ws
        → RestoredValues mapping (cons v vs) (cons w ws)

  pub data RestoredFields (mapping : Dict Str Str) : Fields → Fields → Type 0 where
    no_keys : RestoredFields mapping end end
    key :
        {k : Str} {v w : Value} {fs gs : Fields}
        → RestoredValue mapping v w
        → RestoredFields mapping fs gs
        → RestoredFields mapping (field k v fs) (field k w gs)

pub data RestoredDetails (mapping : Dict Str Str) : Option Fields → Option Fields → Type 0 where
  no_details : RestoredDetails mapping none none
  some_details :
      {fs gs : Fields} → RestoredFields mapping fs gs → RestoredDetails mapping (some fs) (some gs)

pub record IsRestored (mapping : Dict Str Str) (r r' : AnalyzeResponse) : Type 0 where
  pub memo_id : r'.server_memo_id ≡ r.server_memo_id
  pub category : r'.category ≡ r.category
  pub useful : r'.is_useful ≡ r.is_useful
  pub reminder : r'.reminder_at ≡ r.reminder_at
  pub title : Restored mapping r.title r'.title
  pub summary : Restored mapping r.summary r'.summary
  pub action : RestoredValue mapping r.recommended_action r'.recommended_action
  pub details : RestoredDetails mapping r.details r'.details

-- No token is the empty text.
abbrev pub Tokens : Dict Str Str → Type 0
Tokens mapping = All (λ (entry : Str × Str). nonempty entry.0 ≡ true) mapping

restore_text-Restored :
    (mapping : Dict Str Str)
    → Tokens mapping
    → (s : Str) → Restored mapping s (restore_text s mapping)
unfolding restore_text
restore_text-Restored [] h s = all_back
restore_text-Restored (([], original) ∷ mapping) (h, hs) s = cc
restore_text-Restored ((c ∷ token, original) ∷ mapping) (h, hs) s =
    back (replace-Replaced c token original s) (restore_text-Restored mapping hs _)

module _ (mapping : Dict Str Str) (tokens : Tokens mapping) where
  mutual
    unfolding restore_value

    restore_value-RestoredValue : (v : Value) → RestoredValue mapping v (restore_value mapping v)
    restore_value-RestoredValue (str s) = texts (restore_text-Restored mapping tokens s)
    restore_value-RestoredValue (list vs) = lists (restore_values-RestoredValues vs)
    restore_value-RestoredValue (dict fs) = dicts (restore_fields-RestoredFields fs)
    restore_value-RestoredValue null = nulls
    restore_value-RestoredValue (bool b) = bools
    restore_value-RestoredValue (int n) = ints
    restore_value-RestoredValue (float x) = floats

    restore_values-RestoredValues :
        (vs : Values) → RestoredValues mapping vs (restore_values mapping vs)
    restore_values-RestoredValues nil = no_more
    restore_values-RestoredValues (cons v vs) =
        next (restore_value-RestoredValue v) (restore_values-RestoredValues vs)

    restore_fields-RestoredFields :
        (fs : Fields) → RestoredFields mapping fs (restore_fields mapping fs)
    restore_fields-RestoredFields end = no_keys
    restore_fields-RestoredFields (field k v fs) =
        key (restore_value-RestoredValue v) (restore_fields-RestoredFields fs)

  restore_details-RestoredDetails :
      (o : Option Fields) → RestoredDetails mapping o (restore_details mapping o)
  restore_details-RestoredDetails none = no_details
  restore_details-RestoredDetails (some fs) = some_details (restore_fields-RestoredFields fs)

  restore_action-RestoredValue :
      (v : Value)
      → is_text_or_none v ≡ true
      → (a : Value) × (restore_action mapping v ≡ ok a) × RestoredValue mapping v a
  unfolding restore_action
  restore_action-RestoredValue null h = (null, refl, nulls)
  restore_action-RestoredValue (str s) h = (_, refl, texts (restore_text-Restored mapping tokens s))
  restore_action-RestoredValue (bool b) h = cc
  restore_action-RestoredValue (int n) h = cc
  restore_action-RestoredValue (float x) h = cc
  restore_action-RestoredValue (list vs) h = cc
  restore_action-RestoredValue (dict fs) h = cc

-- An empty mapping leaves every value as it is.
mutual
  kept_value : (v : Value) → RestoredValue [] v v
  kept_value (str s) = texts all_back
  kept_value (list vs) = lists (kept_values vs)
  kept_value (dict fs) = dicts (kept_fields fs)
  kept_value null = nulls
  kept_value (bool b) = bools
  kept_value (int n) = ints
  kept_value (float x) = floats

  kept_values : (vs : Values) → RestoredValues [] vs vs
  kept_values nil = no_more
  kept_values (cons v vs) = next (kept_value v) (kept_values vs)

  kept_fields : (fs : Fields) → RestoredFields [] fs fs
  kept_fields end = no_keys
  kept_fields (field k v fs) = key (kept_value v) (kept_fields fs)

kept_details : (o : Option Fields) → RestoredDetails [] o o
kept_details none = no_details
kept_details (some fs) = some_details (kept_fields fs)

-- A response whose action is a text or None is restored, with tokens that are not empty: in its
-- title, summary and action, and in every text of its details, each token of the mapping, one after
-- the other, is replaced by what it stands for, wherever it stands. Its memo id, category,
-- usefulness and reminder stay, and so do the keys of its details, in order, and every value in
-- them that is no text.
pub restore_in_response-IsRestored :
    (r : AnalyzeResponse) (mapping : Dict Str Str)
    → Tokens mapping
    → is_text_or_none r.recommended_action ≡ true
    → (r' : AnalyzeResponse) × (restore_in_response r mapping ≡ ok r') × IsRestored mapping r r'
unfolding restore_in_response
restore_in_response-IsRestored r [] tokens h = (
  r,
  refl,
  record {
    memo_id = refl;
    category = refl;
    useful = refl;
    reminder = refl;
    title = all_back;
    summary = all_back;
    action = kept_value r.recommended_action;
    details = kept_details r.details;
  },
)
restore_in_response-IsRestored r (entry ∷ rest) tokens h =
    let (a, e, t) = restore_action-RestoredValue (entry ∷ rest) tokens r.recommended_action h in
    (
      _,
      bind-returns (restore_action (entry ∷ rest) r.recommended_action) _ e refl,
      record {
        memo_id = refl;
        category = refl;
        useful = refl;
        reminder = refl;
        title = restore_text-Restored (entry ∷ rest) tokens r.title;
        summary = restore_text-Restored (entry ∷ rest) tokens r.summary;
        action = t;
        details = restore_details-RestoredDetails (entry ∷ rest) tokens r.details;
      },
    )
