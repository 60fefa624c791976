-- ===== src/Kakao/Choice.antt =====
-- Which place the search of kakao_local.py takes.
use capturemate_ai.Prelude.{
  ◌≡◌, refl, ap, ◌∙◌, Option, none, some, List, [], ◌∷◌, ◌++◌, Str, some_inj, none-some,
}
use capturemate_ai.Prelude.Float.{FloatOps}
use capturemate_ai.Text.{codes}
use capturemate_ai.Json.{Value, str, ok, bind-ok, ok_inj, opt_str}
use capturemate_ai.Kakao.{
  KakaoPlace, clean_string, only, refine, settle, search_candidates, search_named,
  search_best_place,
}

module _ (ops : FloatOps) (fetch : Str → Option Str → Option Value) where
  only-single :
      (places : List KakaoPlace) {place : KakaoPlace}
      → only ops fetch places ≡ some place
      → places ≡ place ∷ []
  only-single [] h = absurd (none-some h)
  only-single (p ∷ []) h = ap (λ q. q ∷ []) (some_inj h)
  only-single (p ∷ q ∷ ps) h = absurd (none-some h)

  -- The place is the single candidate of the search by name, or, where that search has not a
  -- single candidate, of the search by name and neighborhood.
  pub data Chosen (name : Str) (neighborhood : Option Str) (place : KakaoPlace) : Type 0 where
    by_name : search_candidates ops fetch name ≡ ok (place ∷ []) → Chosen name neighborhood place
    by_neighborhood :
        {n : Str} {others : List KakaoPlace}
        → search_candidates ops fetch name ≡ ok others
        → only ops fetch others ≡ none
        → neighborhood ≡ some n
        → search_candidates ops fetch (name ++ (codes " " ++ n)) ≡ ok (place ∷ [])
        → Chosen name neighborhood place

  refine-single :
      (name : Str) (o : Option Str) {place : KakaoPlace}
      → refine ops fetch name o ≡ ok (some place)
      → (n : Str) × (o ≡ some n)
        × (search_candidates ops fetch (name ++ (codes " " ++ n)) ≡ ok (place ∷ []))
  unfolding refine
  refine-single name none h = absurd (none-some (ok_inj h))
  refine-single name (some n) h =
      let (found, run, h') = bind-ok (search_candidates ops fetch (name ++ (codes " " ++ n))) _ h in
      (n, refl, run ∙ ap ok (only-single found (ok_inj h')))

  settle-Chosen :
      (name : Str) (neighborhood : Option Str) (found : List KakaoPlace) (o : Option KakaoPlace)
      {place : KakaoPlace}
      → search_candidates ops fetch name ≡ ok found
      → only ops fetch found ≡ o
      → settle ops fetch name neighborhood o ≡ ok (some place)
      → Chosen name neighborhood place
  settle-Chosen name neighborhood found (some p) run e h =
      by_name (run ∙ ap ok (only-single found (e ∙ ok_inj h)))
  settle-Chosen name neighborhood found none run e h =
      let (n, en, again) = refine-single name neighborhood h in by_neighborhood run e en again

  search_named-Chosen :
      (cleaned neighborhood : Option Str) {place : KakaoPlace}
      → search_named ops fetch cleaned neighborhood ≡ ok (some place)
      → (name : Str) × (cleaned ≡ some name) × Chosen name neighborhood place
  unfolding search_named
  search_named-Chosen none neighborhood h = absurd (none-some (ok_inj h))
  search_named-Chosen (some name) neighborhood h =
      let (found, run, h') = bind-ok (search_candidates ops fetch name) _ h in
      (name, refl, settle-Chosen name neighborhood found _ run refl h')

  -- If search_best_place finds a place, the name is not blank, and the place is the single
  -- candidate of the search by the stripped name, or, where that search has not a single candidate
  -- and there is a neighborhood, of the search by name and neighborhood.
  pub search_best_place-Chosen :
      (name : Str) (neighborhood : Option Str) {place : KakaoPlace}
      → search_best_place ops fetch name neighborhood ≡ ok (some place)
      → (cleaned : Str) × (clean_string (str name) ≡ some cleaned)
        × Chosen cleaned (clean_string (opt_str neighborhood)) place
  unfolding search_best_place
  search_best_place-Chosen name neighborhood h =
      search_named-Chosen (clean_string (str name)) (clean_string (opt_str neighborhood)) h
