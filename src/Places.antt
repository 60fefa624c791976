-- ===== src/Places.antt =====
-- `_split_restaurant_analysis` of app/analysis/batch.py: one analysis, split by places.
pub mod Refs
pub mod Buckets
use capturemate_ai.Prelude.{
  ℕ, zero, suc, ◌+◌, ◌*◌, ◌-◌, Bool, true, false, ◌||◌, ◌&&◌, not, Option, none, some, List, [],
  ◌∷◌, ◌++◌, Str, if◌then◌else◌, length, get_elem?, take, ◌==◌, str_eq,
}
use capturemate_ai.Prelude.Dict.{Dict}
use capturemate_ai.Prelude.Options
use capturemate_ai.Text.{
  Unicode, codes, decimal, join, strip, split, sorted, contains, fromkeys, nonempty,
}
use capturemate_ai.Json.{
  Value, Fields, null, str, list, dict, Result, ok, or_arithmetic, ◌>>=◌, get, without, or_else,
  to_str, to_list,
}
use capturemate_ai.Models.{AnalyzeResponse, AnalyzeBatchItem}

module _ (unicode : Unicode) where
  -- `_normalize_topic_key`
  unfoldable pub normalize_topic_key : Str → Str
  unfolding strip split join
  normalize_topic_key value = strip (join (codes " ") (split (unicode.casefold value)))

  abbrev normalized : Value → Str
  normalized (str s) = normalize_topic_key s
  normalized _ = []

  -- The test of the place id: a text that is not blank.
  abbrev place_memo_id : Value → Option Str
  place_memo_id (str s) = if nonempty (strip s) then some (codes "kakao:" ++ strip s) else none
  place_memo_id _ = none

  abbrev named_memo_id : Str → Str → Option Str
  named_memo_id [] address = none
  named_memo_id (c ∷ name) [] = none
  named_memo_id (c ∷ name) (d ∷ address) =
      some (codes "restaurant:" ++ ((c ∷ name) ++ (codes ":" ++ (d ∷ address))))

  abbrev or_some : Option Str → Option Str → Option Str
  or_some none o = o
  or_some (some s) o = some s

  abbrev restaurant_memo_id : Value → Str → Option Str
  restaurant_memo_id (dict r) title = or_some (place_memo_id (get (codes "mapProviderPlaceId") r)) (
      named_memo_id (normalized (or_else (get (codes "name") r) (str title)))
        (normalized (or_else (get (codes "address") r) (get (codes "roadAddress") r))))
  restaurant_memo_id _ title = none

  -- `_build_restaurant_server_memo_id`
  unfoldable pub build_restaurant_server_memo_id : Fields → Str → Option Str
  unfolding get or_else normalize_topic_key strip
  build_restaurant_server_memo_id details title =
      restaurant_memo_id (get (codes "restaurant") details) title

  -- `_build_comparison_server_memo_id`
  unfoldable pub build_comparison_server_memo_id : Option Str → List Str → Option Str
  unfolding normalize_topic_key
  build_comparison_server_memo_id (some (c ∷ topic)) source_keys =
      some (codes "comparison:" ++ (c ∷ topic))
  build_comparison_server_memo_id _ [] = none
  build_comparison_server_memo_id _ (key ∷ keys) =
      some (codes "comparison:" ++ normalize_topic_key key)

-- An entry of a bucket.
pub record Place : Type 0 where
  pub title : Str
  pub summary : Str
  pub recommended_action : Value
  pub details : Fields

pub record Bucket : Type 0 where
  pub entries : List Place
  pub member_ids : List Str
  pub topic_keys : List Str
  pub source_keys : List Str

-- {f"S{i}" for i in range(start, start + n)}
unfoldable pub source_refs : ℕ → ℕ → List Str
unfolding decimal
source_refs start zero = []
source_refs start (suc n) = (codes "S" ++ decimal start) ∷ source_refs (suc start) n

abbrev text_values : List Value → List Str
text_values [] = []
text_values (str s ∷ vs) = s ∷ text_values vs
text_values (v ∷ vs) = text_values vs

-- items[idx_list[int(ref[1:])]].clientId; `int` reads the decimal digits that a valid ref has.
unfoldable pub digits_value : ℕ → Str → ℕ
digits_value n [] = n
digits_value n (c ∷ s) = digits_value (n * 10 + (c - 48)) s

abbrev ref_index : Str → ℕ
ref_index [] = 0
ref_index (c ∷ s) = digits_value 0 s

unfoldable pub ref_client_id : List ℕ → List AnalyzeBatchItem → Str → Option Str
unfolding digits_value
ref_client_id idx_list items ref =
    Options.◌>>=◌ (get_elem? idx_list (ref_index ref))
      (λ i. Options.◌>>=◌ (get_elem? items i) (λ item. some item.client_id))

unfoldable pub ref_client_ids : List ℕ → List AnalyzeBatchItem → List Str → Option (List Str)
unfolding ref_client_id
ref_client_ids idx_list items [] = some []
ref_client_ids idx_list items (ref ∷ refs) =
    Options.◌>>=◌ (ref_client_id idx_list items ref)
      (λ id. Options.◌>>=◌ (ref_client_ids idx_list items refs) (λ ids. some (id ∷ ids)))

unfoldable pub all_in : List Str → List Str → Bool
unfolding contains
all_in [] valid = true
all_in (ref ∷ refs) valid = contains ref valid && all_in refs valid

abbrev is_empty {ℓ} : {A : Type ℓ} → List A → Bool
is_empty [] = true
is_empty (a ∷ rest) = false

-- The distinct references of an entry, if there are some and all are valid.
unfoldable pub entry_refs : List Str → Value → Option (List Str)
unfolding fromkeys all_in to_list
entry_refs valid (list vs) =
    let refs = fromkeys (text_values (to_list vs)) in
    if is_empty refs || not (all_in refs valid) then none else some refs
entry_refs valid _ = none

abbrev field_of : Value → Str → Value
field_of (dict fs) key = get key fs
field_of _ key = null

-- entry without the five keys that are no details of the place
unfoldable pub place_details_of : Fields → Fields
unfolding without
place_details_of entry = without (codes "sourceRefs") (
    without (codes "title") (
      without (codes "topicKey")
        (without (codes "summary") (without (codes "recommendedAction") entry))))

unfoldable pub topic_of : Unicode → Value → Str
unfolding normalize_topic_key strip
topic_of unicode (str s) = if nonempty (strip s) then normalize_topic_key unicode s else []
topic_of unicode _ = []

-- f"topic:{normalized_topic}" if normalized_topic else f"sources:{source_key}"
abbrev pub bucket_key : Str → Str → Str
bucket_key [] source_key = codes "sources:" ++ source_key
bucket_key (c ∷ topic) source_key = codes "topic:" ++ (c ∷ topic)

abbrev add_to : Place → List Str → Str → Str → Bucket → Bucket
add_to place member_ids topic source_key b = record {
  entries = b.entries ++ (place ∷ []);
  member_ids = b.member_ids ++ member_ids;
  topic_keys = if nonempty topic then b.topic_keys ++ (topic ∷ []) else b.topic_keys;
  source_keys = b.source_keys ++ (source_key ∷ []);
}

abbrev pub empty_bucket : Bucket
empty_bucket = record { entries = []; member_ids = []; topic_keys = []; source_keys = [] }

-- buckets.setdefault(key, ...) and the appends to that bucket.
unfoldable pub add_place : Str → Place → List Str → Str → Str → Dict Str Bucket → Dict Str Bucket
add_place key place member_ids topic source_key [] =
    (key, add_to place member_ids topic source_key empty_bucket) ∷ []
add_place key place member_ids topic source_key ((k, b) ∷ buckets) =
    if k == key
    then (k, add_to place member_ids topic source_key b) ∷ buckets
    else (k, b) ∷ add_place key place member_ids topic source_key buckets

-- What the loop over the entries carries: `covered_refs` and `buckets`.
pub record Scan : Type 0 where
  pub covered : List Str
  pub buckets : Dict Str Bucket

module _ (unicode : Unicode) (format : Value → Str) where
  module _ (analysis : AnalyzeResponse) (idx_list : List ℕ) (items : List AnalyzeBatchItem) where
    abbrev place_of : Fields → Place
    place_of entry =
        let details = place_details_of entry in
        let name = field_of (get (codes "restaurant") details) (codes "name") in
        let title = or_else (or_else (get (codes "title") entry) name) (str analysis.title) in
        record {
          title = take 40 (to_str format title);
          summary = to_str format (or_else (get (codes "summary") entry) (str analysis.summary));
          recommended_action =
              or_else (get (codes "recommendedAction") entry) analysis.recommended_action;
          details = details;
        }

    abbrev file_entry : Fields → List Str → List Str → Scan → Scan
    file_entry entry refs member_ids scan =
        let topic = topic_of unicode (get (codes "topicKey") entry) in
        let source_key = join (codes ",") (sorted refs) in
        record {
          covered = scan.covered ++ refs;
          buckets =
              add_place (bucket_key topic source_key) (place_of entry) member_ids topic source_key
                scan.buckets;
        }

    -- The rest of the round, once the references are known.
    unfoldable pub file_refs : Scan → Fields → Option (List Str) → Result (Option Scan)
    unfolding ref_client_ids place_details_of topic_of add_place get or_else to_str join sorted
    file_refs scan entry none = ok none
    file_refs scan entry (some refs) = do
      member_ids ← or_arithmetic (ref_client_ids idx_list items refs)
      ok (some (file_entry entry refs member_ids scan))

    -- One round of the loop; `none` is `return None`. An index out of range raises.
    unfoldable pub scan_entry : Scan → Value → Result (Option Scan)
    unfolding entry_refs get file_refs
    scan_entry scan (dict entry) =
        file_refs scan entry
          (entry_refs (source_refs 0 (length idx_list)) (get (codes "sourceRefs") entry))
    scan_entry scan _ = ok none

    unfoldable pub scan_entries : Scan → List Value → Result (Option Scan)
    unfolding scan_entry
    scan_entries scan [] = ok (some scan)
    scan_entries scan (v ∷ vs) = do
      next ← scan_entry scan v
      elim next [ none ↦ ok none | some scan' ↦ scan_entries scan' vs ]
