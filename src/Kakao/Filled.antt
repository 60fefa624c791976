-- ===== src/Kakao/Filled.antt =====
-- What the enrichment of kakao_local.py keeps.
use capturemate_ai.Prelude.{
  ◌≡◌, refl, ◌∙◌, inl, inr, true, false, Bool-cases, Str, ◌==◌, str_eq, arith, Option, List, [],
  ◌∷◌,
}
use capturemate_ai.Prelude.Float.{FloatOps}
use capturemate_ai.Text.{codes, contains}
use capturemate_ai.Json.{Value, Fields, str, get, or_else, opt_str, opt_float, truthy}
use capturemate_ai.Json.Keys.{get-put}
use capturemate_ai.Kakao.{
  KakaoPlace, extract_neighborhood, fill_fields, fill_neighborhood, fill_place,
}

miss :
    (k t : Str) (ts : List Str)
    → contains k (t ∷ ts) ≡ false
    → ((t == k) ≡ false) × (contains k ts ≡ false)
unfolding contains
miss k t ts h = ground arith

abbrev pub filled_keys : List Str
filled_keys =
    codes "name"
    ∷ codes "address"
    ∷ codes "roadAddress"
    ∷ codes "latitude"
    ∷ codes "longitude"
    ∷ codes "mapProvider"
    ∷ codes "mapProviderPlaceId"
    ∷ codes "neighborhood"
    ∷ []

module _ (ops : FloatOps) (fetch : Str → Option Str → Option Value) (place : KakaoPlace) where
  get-fill_neighborhood :
      (j : Str) (r : Fields)
      → (codes "neighborhood" == j) ≡ false
      → get j (fill_neighborhood ops fetch place r) ≡ get j r
  unfolding fill_neighborhood
  get-fill_neighborhood j r h = elim (Bool-cases (truthy (get (codes "neighborhood") r))) [
    | inl set ↦ rw set refl
    | inr unset ↦ rw (unset, get-put, h) refl
  ]

  -- The restaurant's fields after the place: a name, an address or a neighborhood that the model has
  -- found stays, and the place gives those that it has not; the neighborhood is that of its address,
  -- or else that of its road address. The place's coordinates, provider and id replace the model's.
  pub record IsFilled (r r' : Fields) : Type 0 where
    pub name : get (codes "name") r' ≡ or_else (get (codes "name") r) (opt_str place.name)
    pub address :
        get (codes "address") r' ≡ or_else (get (codes "address") r) (opt_str place.address)
    pub road_address :
        get (codes "roadAddress") r'
        ≡ or_else (get (codes "roadAddress") r) (opt_str place.road_address)
    pub latitude : get (codes "latitude") r' ≡ opt_float place.latitude
    pub longitude : get (codes "longitude") r' ≡ opt_float place.longitude
    pub provider : get (codes "mapProvider") r' ≡ str (codes "kakao")
    pub place_id : get (codes "mapProviderPlaceId") r' ≡ opt_str place.id
    pub neighborhood :
        truthy (get (codes "neighborhood") r) ≡ true
        → get (codes "neighborhood") r' ≡ get (codes "neighborhood") r
    pub neighborhood_of_place :
        truthy (get (codes "neighborhood") r) ≡ false
        → get (codes "neighborhood") r'
          ≡ or_else
              (opt_str (extract_neighborhood place.address))
              (opt_str (extract_neighborhood place.road_address))
    pub others : (k : Str) → contains k filled_keys ≡ false → get k r' ≡ get k r

  nb_of_fields :
      (r : Fields)
      → get (codes "neighborhood") (fill_fields ops fetch place r) ≡ get (codes "neighborhood") r
  unfolding fill_fields
  nb_of_fields r = simp get-put

  kept_neighborhood :
      (r : Fields)
      → truthy (get (codes "neighborhood") r) ≡ true
      → get (codes "neighborhood") (fill_neighborhood ops fetch place r)
        ≡ get (codes "neighborhood") r
  unfolding fill_neighborhood
  kept_neighborhood r h = rw h refl

  placed_neighborhood :
      (r : Fields)
      → truthy (get (codes "neighborhood") r) ≡ false
      → get (codes "neighborhood") (fill_neighborhood ops fetch place r)
        ≡ or_else
            (opt_str (extract_neighborhood place.address))
            (opt_str (extract_neighborhood place.road_address))
  unfolding fill_neighborhood
  placed_neighborhood r h = rw (h, get-put) refl

  other_of_fields :
      (r : Fields) (k : Str)
      → contains k filled_keys ≡ false
      → get k (fill_place ops fetch place r) ≡ get k r
  unfolding fill_fields fill_place
  other_of_fields r k h =
      let (n, h₁) = miss k (codes "name") _ h in
      let (a, h₂) = miss k (codes "address") _ h₁ in
      let (ra, h₃) = miss k (codes "roadAddress") _ h₂ in
      let (la, h₄) = miss k (codes "latitude") _ h₃ in
      let (lo, h₅) = miss k (codes "longitude") _ h₄ in
      let (pr, h₆) = miss k (codes "mapProvider") _ h₅ in
      let (id, h₇) = miss k (codes "mapProviderPlaceId") _ h₆ in
      let (nb, h₈) = miss k (codes "neighborhood") _ h₇ in
      get-fill_neighborhood k (fill_fields ops fetch place r) nb
      ∙ simp (get-put, n, a, ra, la, lo, pr, id)

  -- Every restaurant's fields are filled so: the name, the two addresses and the neighborhood that
  -- the model has found stay, and where one is missing it is that of the place, the neighborhood read
  -- from the place's address, or else from its road address; latitude, longitude, provider and the
  -- provider's id are overwritten by those of the place; and no other key changes.
  pub fill_place-IsFilled : (r : Fields) → IsFilled r (fill_place ops fetch place r)
  unfolding fill_place fill_fields
  fill_place-IsFilled r = record {
    name = get-fill_neighborhood (codes "name") (fill_fields ops fetch place r) refl ∙ simp get-put;
    address =
        get-fill_neighborhood (codes "address") (fill_fields ops fetch place r) refl ∙ simp get-put;
    road_address =
        get-fill_neighborhood (codes "roadAddress") (fill_fields ops fetch place r) refl
        ∙ simp get-put;
    latitude =
        get-fill_neighborhood (codes "latitude") (fill_fields ops fetch place r) refl
        ∙ simp get-put;
    longitude =
        get-fill_neighborhood (codes "longitude") (fill_fields ops fetch place r) refl
        ∙ simp get-put;
    provider =
        get-fill_neighborhood (codes "mapProvider") (fill_fields ops fetch place r) refl
        ∙ simp get-put;
    place_id =
        get-fill_neighborhood (codes "mapProviderPlaceId") (fill_fields ops fetch place r) refl
        ∙ simp get-put;
    neighborhood = λ h.
        kept_neighborhood (fill_fields ops fetch place r) (rw (nb_of_fields r) h) ∙ nb_of_fields r;
    neighborhood_of_place =
        λ h. placed_neighborhood (fill_fields ops fetch place r) (rw (nb_of_fields r) h);
    others = other_of_fields r;
  }
