-- ===== src/Json/Keys.antt =====
-- Reading a JSON object after a write, and a list after it was made.
use capturemate_ai.Prelude.{
  ◌≡◌, refl, ap, List, [], ◌∷◌, Str, ◌==◌, str_eq, str_eqb_iff, arith, if◌then◌else◌,
}
use capturemate_ai.Json.{Value, Fields, end, field, get, put, to_list, of_list}

pub get-put :
    (j k : Str) (v : Value) (fs : Fields) → get j (put k v fs) ≡ (if k == j then v else get j fs)
unfolding get put
get-put j k v end = refl
get-put j k v (field i w fs) =
    ground (arith, str_eqb_iff k j, str_eqb_iff i k, str_eqb_iff i j, get-put j k v fs)

pub to_list-of_list : (vs : List Value) → to_list (of_list vs) ≡ vs
unfolding to_list of_list
to_list-of_list [] = refl
to_list-of_list (v ∷ vs) = ap (◌∷◌ v) (to_list-of_list vs)
