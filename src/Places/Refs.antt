-- ===== src/Places/Refs.antt =====
-- The source references of batch.py: which items they name.
use capturemate_ai.Prelude.{
  ℕ, zero, suc, ◌+◌, ◌/◌, ◌%◌, ◌<◌, ◌≡◌, refl, sym, ap, ◌∙◌, ◌⊎◌, inl, inr, true, some, List, [],
  ◌∷◌, ◌++◌, Str, In, here, there, some_inj, ltb, length, get_elem?, get_elem?-lt, get_elem?-In,
  In-get_elem?, ◌↔◌, arith, Bool-cases, &&-left, &&-right, str_eq,
}
use capturemate_ai.Prelude.Options.{bind-some}
use capturemate_ai.Text.{codes, decimal, decimal_from, contains, fromkeys, fromkeys_from}
use capturemate_ai.Text.Search.{contains_sound}
use capturemate_ai.Models.{AnalyzeBatchItem}
use capturemate_ai.Places.{
  source_refs, digits_value, ref_index, ref_client_id, ref_client_ids, all_in,
}

digits_value-decimal_from :
    (fuel n : ℕ) (acc : Str)
    → n < fuel
    → digits_value 0 (decimal_from fuel n acc) ≡ digits_value n acc
unfolding decimal_from digits_value
digits_value-decimal_from zero n acc lt = elim lt [ ]
digits_value-decimal_from (suc fuel) n acc lt = elim (Bool-cases (ltb n 10)) [
  | inl small ↦ rw small (ap (λ m. digits_value m acc) (ground arith))
  | inr large ↦ rw large (
      digits_value-decimal_from fuel (n / 10) ((48 + n % 10) ∷ acc) (ground arith)
      ∙ ap (λ m. digits_value m acc) (ground arith))
]

-- int(str(n)) is n.
pub digits_value-decimal : (n : ℕ) → digits_value 0 (decimal n) ≡ n
unfolding decimal digits_value
digits_value-decimal n = digits_value-decimal_from (suc n) n [] (omega arith)

abbrev pub ref_of : ℕ → Str
ref_of k = codes "S" ++ decimal k

source_refs_sound :
    (s n : ℕ) (ref : Str) → In ref (source_refs s n) → (k : ℕ) × (k < s + n) × (ref ≡ ref_of k)
unfolding source_refs
source_refs_sound s zero ref m = elim m [ ]
source_refs_sound s (suc n) ref (here e) = (s, omega arith, e)
source_refs_sound s (suc n) ref (there m) =
    let (k, lt, e) = source_refs_sound (suc s) n ref m in (k, omega arith, e)

pub source_refs_complete : (s n k : ℕ) → k < n → In (ref_of (s + k)) (source_refs s n)
unfolding source_refs
source_refs_complete s zero k lt = elim lt [ ]
source_refs_complete s (suc n) zero lt = let same : s + 0 ≡ s = omega arith in here (ap ref_of same)
source_refs_complete s (suc n) (suc k) lt =
    let same : s + suc k ≡ suc s + k = omega arith in
    there (rw same (source_refs_complete (suc s) n k (omega arith)))

-- The items at the given indices have the client id.
pub record IsSource (items : List AnalyzeBatchItem) (idx_list : List ℕ) (id : Str) : Type 0 where
  pub index : ℕ
  pub item : AnalyzeBatchItem
  pub listed : In index idx_list
  pub at_index : get_elem? items index ≡ some item
  pub same_id : id ≡ item.client_id

pub relisted :
    {items : List AnalyzeBatchItem} {xs : List ℕ} {id : Str} (ys : List ℕ)
    (s : IsSource items xs id)
    → In s.index ys
    → IsSource items ys id
relisted ys s i = record {
  index = s.index;
  item = s.item;
  listed = i;
  at_index = s.at_index;
  same_id = s.same_id;
}

abbrev pub Origins : List ℕ → List AnalyzeBatchItem → List Str → Str → Type 0
Origins idx_list items refs id =
    (ref : Str) × In ref refs × (ref_client_id idx_list items ref ≡ some id)

pub ref_client_ids_sound :
    (idx_list : List ℕ) (items : List AnalyzeBatchItem) (refs ids : List Str)
    → ref_client_ids idx_list items refs ≡ some ids
    → (id : Str) → In id ids
    → Origins idx_list items refs id
unfolding ref_client_ids
ref_client_ids_sound idx_list items [] ids h id m = elim (rw (← some_inj h) at m) [ ]
ref_client_ids_sound idx_list items (ref ∷ refs) ids h id m =
    let (a, ea, h') = bind-some (ref_client_id idx_list items ref) _ h in
    let (rest, eas, h'') = bind-some (ref_client_ids idx_list items refs) _ h' in
    elim (rw (← some_inj h'') at m) [
      | here e ↦ (ref, here refl, rw e ea)
      | there m' ↦
          let (r, i, e) = ref_client_ids_sound idx_list items refs rest eas id m' in (r, there i, e)
    ]

pub ref_client_ids_complete :
    (idx_list : List ℕ) (items : List AnalyzeBatchItem) (refs ids : List Str)
    → ref_client_ids idx_list items refs ≡ some ids
    → (id : Str) → Origins idx_list items refs id
    → In id ids
unfolding ref_client_ids
ref_client_ids_complete idx_list items [] ids h id (ref, i, e) = elim i [ ]
ref_client_ids_complete idx_list items (r ∷ refs) ids h id (ref, i, e) =
    let (a, ea, h') = bind-some (ref_client_id idx_list items r) _ h in
    let (rest, eas, h'') = bind-some (ref_client_ids idx_list items refs) _ h' in
    rw (← some_inj h'') (elim i [
      | here er ↦ here (some_inj (sym e ∙ ap (ref_client_id idx_list items) er ∙ ea))
      | there i' ↦ there (ref_client_ids_complete idx_list items refs rest eas id (ref, i', e))
    ])

pub all_in_sound :
    (refs valid : List Str) → all_in refs valid ≡ true → (r : Str) → In r refs → In r valid
unfolding all_in
all_in_sound [] valid h r i = elim i [ ]
all_in_sound (ref ∷ refs) valid h r (here e) =
    rw e (contains_sound ref valid (&&-left _ (all_in refs valid) h))
all_in_sound (ref ∷ refs) valid h r (there i) =
    all_in_sound refs valid (&&-right (contains ref valid) _ h) r i

fromkeys_from_sound : (seen ss : List Str) (s : Str) → In s (fromkeys_from seen ss) → In s ss
unfolding fromkeys_from
fromkeys_from_sound seen [] s i = i
fromkeys_from_sound seen (t ∷ ss) s i = elim (Bool-cases (contains t seen)) [
  | inl old ↦ there (fromkeys_from_sound seen ss s (rw old at i))
  | inr new ↦ elim (rw new at i) [
    | here e ↦ here e
    | there i' ↦ there (fromkeys_from_sound (t ∷ seen) ss s i')
  ]
]

-- A text that is not seen before is in the result.
fromkeys_from_complete :
    (seen ss : List Str) (s : Str) → In s ss → In s seen ⊎ In s (fromkeys_from seen ss)
unfolding fromkeys_from
fromkeys_from_complete seen [] s i = elim i [ ]
fromkeys_from_complete seen (t ∷ ss) s (here e) = elim (Bool-cases (contains t seen)) [
  | inl old ↦ inl (rw e (contains_sound t seen old))
  | inr new ↦ rw new (inr (here e))
]
fromkeys_from_complete seen (t ∷ ss) s (there i) = elim (Bool-cases (contains t seen)) [
  | inl old ↦ rw old (fromkeys_from_complete seen ss s i)
  | inr new ↦ rw new (elim (fromkeys_from_complete (t ∷ seen) ss s i) [
    | inl (here e) ↦ inr (here e)
    | inl (there j) ↦ inl j
    | inr j ↦ inr (there j)
  ])
]

pub fromkeys_lem : (ss : List Str) (s : Str) → In s (fromkeys ss) ↔ In s ss
unfolding fromkeys
fromkeys_lem ss s = (
  fromkeys_from_sound [] ss s,
  λ i. elim (fromkeys_from_complete [] ss s i) [ inl j ↦ elim j [ ] | inr j ↦ j ],
)

-- A valid reference names the item at its place in the group.
pub Origins-IsSource :
    (idx_list : List ℕ) (items : List AnalyzeBatchItem) (refs : List Str)
    → ((r : Str) → In r refs → In r (source_refs 0 (length idx_list)))
    → (id : Str) → Origins idx_list items refs id
    → IsSource items idx_list id
unfolding ref_client_id
Origins-IsSource idx_list items refs valid id (ref, i, e) =
    let (index, at_k, e') = bind-some (get_elem? idx_list (ref_index ref)) _ e in
    let (item, at_index, e'') = bind-some (get_elem? items index) _ e' in
    record {
      index = index;
      item = item;
      listed = get_elem?-In idx_list (ref_index ref) at_k;
      at_index = at_index;
      same_id = sym (some_inj e'');
    }

pub IsSource-Origins :
    (idx_list : List ℕ) (items : List AnalyzeBatchItem) (refs : List Str)
    → ((r : Str) → In r (source_refs 0 (length idx_list)) → In r refs)
    → (id : Str) → IsSource items idx_list id
    → Origins idx_list items refs id
unfolding ref_client_id
IsSource-Origins idx_list items refs all id s =
    let (k, at_k) = In-get_elem? idx_list s.listed in
    let lt = get_elem?-lt idx_list k at_k in
    let same : 0 + k ≡ k = omega arith in
    (
      ref_of k,
      all (ref_of k) (rw same at (source_refs_complete 0 (length idx_list) k lt)),
      rw (digits_value-decimal k, at_k, s.at_index) (ap some (sym s.same_id)),
    )
