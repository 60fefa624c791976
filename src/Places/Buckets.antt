-- ===== src/Places/Buckets.antt =====
-- The buckets of batch.py: which ids they hold after an entry is added.
use capturemate_ai.Prelude.{
  ℕ, refl, ◌⊎◌, inl, inr, List, [], ◌∷◌, Str, In, here, there, In-append_left, In-append_right,
  In-append, Bool-cases, ◌==◌, str_eq,
}
use capturemate_ai.Prelude.Dict.{Dict, values}
use capturemate_ai.Models.{AnalyzeBatchItem, MemoGroup}
use capturemate_ai.Places.{Place, Bucket, add_place}
use capturemate_ai.Places.Refs.{IsSource}

-- The id is a member of one of the memos.
abbrev pub HasMember : List MemoGroup → Str → Type 0
HasMember gs id = (g : MemoGroup) × In g gs × In id g.member_client_ids

-- The members of the memos are the client ids of the items at the indices, all of them.
pub record Covers (items : List AnalyzeBatchItem) (idx_list : List ℕ) (gs : List MemoGroup)
    : Type 0 where
  pub sound : (id : Str) → HasMember gs id → IsSource items idx_list id
  pub complete : (id : Str) → IsSource items idx_list id → HasMember gs id

abbrev pub InBuckets : Dict Str Bucket → Str → Type 0
InBuckets d id = (b : Bucket) × In b (values d) × In id b.member_ids

pub add_place_sound :
    (key : Str) (place : Place) (ids : List Str) (topic source_key : Str) (d : Dict Str Bucket)
    (id : Str)
    → InBuckets (add_place key place ids topic source_key d) id
    → InBuckets d id ⊎ In id ids
unfolding add_place
add_place_sound key place ids topic source_key [] id (b, here e, m) = inr (rw e at m)
add_place_sound key place ids topic source_key [] id (b, there i, m) = elim i [ ]
add_place_sound key place ids topic source_key ((k, old) ∷ d) id (b, i, m) =
    elim (Bool-cases (k == key)) [
      | inl hit ↦ elim (rw hit at i) [
        | here e ↦ elim (In-append old.member_ids (rw e at m)) [
          | inl q ↦ inl (old, here refl, q)
          | inr q ↦ inr q
        ]
        | there i' ↦ inl (b, there i', m)
      ]
      | inr miss ↦ elim (rw miss at i) [
        | here e ↦ inl (old, here refl, rw e at m)
        | there i' ↦ elim (add_place_sound key place ids topic source_key d id (b, i', m)) [
          | inl (c, j, q) ↦ inl (c, there j, q)
          | inr q ↦ inr q
        ]
      ]
    ]

pub add_place_complete :
    (key : Str) (place : Place) (ids : List Str) (topic source_key : Str) (d : Dict Str Bucket)
    (id : Str)
    → InBuckets d id ⊎ In id ids
    → InBuckets (add_place key place ids topic source_key d) id
unfolding add_place
add_place_complete key place ids topic source_key [] id (inl (b, i, m)) = elim i [ ]
add_place_complete key place ids topic source_key [] id (inr m) = (_, here refl, m)
add_place_complete key place ids topic source_key ((k, old) ∷ d) id h =
    elim (Bool-cases (k == key)) [
      | inl hit ↦ rw hit (elim h [
        | inl (b, here e, m) ↦ (_, here refl, In-append_left ids (rw e at m))
        | inl (b, there i, m) ↦ (b, there i, m)
        | inr m ↦ (_, here refl, In-append_right old.member_ids m)
      ])
      | inr miss ↦ rw miss (elim h [
        | inl (b, here e, m) ↦ (old, here refl, rw e at m)
        | inl (b, there i, m) ↦
            let (c, j, q) =
              add_place_complete key place ids topic source_key d id (inl (b, i, m)) in
            (c, there j, q)
        | inr m ↦
            let (c, j, q) = add_place_complete key place ids topic source_key d id (inr m) in
            (c, there j, q)
      ])
    ]
