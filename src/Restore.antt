-- ===== src/Restore.antt =====
-- `restore_in_response` of app/analysis/service.py: soft tokens back to what they stand for.
pub mod Kept
pub mod Returns
use capturemate_ai.Prelude.{Option, none, some, [], ◌∷◌, Str, if◌then◌else◌}
use capturemate_ai.Prelude.Dict.{Dict}
use capturemate_ai.Privacy.{restore_text}
use capturemate_ai.Json.{
  Value, Values, Fields, null, bool, int, float, str, list, dict, nil, cons, end, field, Result, ok,
  raise, attribute_error, ◌>>=◌, truthy,
}
use capturemate_ai.Models.{AnalyzeResponse}

-- `_restore_value`: the texts of a value; keys stay.
unfoldable mutual
  unfolding restore_text

  pub restore_value : Dict Str Str → Value → Value
  restore_value mapping (str s) = str (restore_text s mapping)
  restore_value mapping (list vs) = list (restore_values mapping vs)
  restore_value mapping (dict fs) = dict (restore_fields mapping fs)
  restore_value mapping null = null
  restore_value mapping (bool b) = bool b
  restore_value mapping (int n) = int n
  restore_value mapping (float x) = float x

  pub restore_values : Dict Str Str → Values → Values
  restore_values mapping nil = nil
  restore_values mapping (cons v vs) = cons (restore_value mapping v) (restore_values mapping vs)

  pub restore_fields : Dict Str Str → Fields → Fields
  restore_fields mapping end = end
  restore_fields mapping (field k v fs) =
      field k (restore_value mapping v) (restore_fields mapping fs)

abbrev restore_details : Dict Str Str → Option Fields → Option Fields
restore_details mapping none = none
restore_details mapping (some fs) = some (restore_fields mapping fs)

-- A truthy action that is no text has no `replace`.
unfoldable pub restore_action : Dict Str Str → Value → Result Value
unfolding restore_text truthy
restore_action mapping (str s) = ok (str (restore_text s mapping))
restore_action mapping v = if truthy v then raise attribute_error else ok v

unfoldable pub restore_in_response : AnalyzeResponse → Dict Str Str → Result AnalyzeResponse
unfolding restore_action restore_value
restore_in_response response [] = ok response
restore_in_response response (entry ∷ rest) = do
  let mapping = entry ∷ rest
  action ← restore_action mapping response.recommended_action
  ok (record response {
    title = restore_text response.title mapping;
    summary = restore_text response.summary mapping;
    recommended_action = action;
    details = restore_details mapping response.details;
  })
