-- ===== src/Restore/Returns.antt =====
-- That the restoration of a response returns.
use capturemate_ai.Prelude.{◌≡◌, refl, true, [], ◌∷◌, Str}
use capturemate_ai.Prelude.Dict.{Dict}
use capturemate_ai.Json.{Value, null, bool, int, float, str, list, dict, ok, bind-returns}
use capturemate_ai.Models.{AnalyzeResponse}
use capturemate_ai.Service.Responses.{is_text_or_none}
use capturemate_ai.Restore.{restore_action, restore_in_response}

restored_action :
    (mapping : Dict Str Str) (v : Value)
    → is_text_or_none v ≡ true
    → (a : Value) × (restore_action mapping v ≡ ok a)
unfolding restore_action
restored_action mapping null h = (null, refl)
restored_action mapping (str s) h = (_, refl)
restored_action mapping (bool b) h = cc
restored_action mapping (int n) h = cc
restored_action mapping (float x) h = cc
restored_action mapping (list vs) h = cc
restored_action mapping (dict fs) h = cc

pub restored_response :
    (r : AnalyzeResponse) (mapping : Dict Str Str)
    → is_text_or_none r.recommended_action ≡ true
    → (r' : AnalyzeResponse) × (restore_in_response r mapping ≡ ok r')
unfolding restore_in_response
restored_response r [] h = (r, refl)
restored_response r (entry ∷ rest) h =
    let (a, e) = restored_action (entry ∷ rest) r.recommended_action h in
    (_, bind-returns (restore_action (entry ∷ rest) r.recommended_action) _ e refl)
