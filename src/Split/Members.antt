-- ===== src/Split/Members.antt =====
-- The members of the memos that the split of a restaurant analysis makes.
use capturemate_ai.Prelude.{
  ℕ, ◌≡◌, refl, sym, ap, ◌∙◌, inl, inr, ◌↔◌, Option, none, some, List, [], ◌∷◌, ◌++◌, Str, In, here,
  there, In-append_left, In-append_right, In-append, length, Bool-cases, Option-cases, &&-left,
  &&-right, ◌&&◌, str_eq, some_inj, none-some,
}
use capturemate_ai.Prelude.Float.{FloatOps}
use capturemate_ai.Prelude.Dict.{values}
use capturemate_ai.Text.{Unicode, codes, fromkeys}
use capturemate_ai.Json.{
  Value, Fields, list, dict, ok, bind-ok, ok_inj, or_arithmetic, or_arithmetic-ok, get, to_list,
}
use capturemate_ai.Models.{AnalyzeResponse, AnalyzeBatchItem, MemoGroup}
use capturemate_ai.Places.{
  Place, Bucket, Scan, source_refs, all_in, file_refs, scan_entry, scan_entries, add_place,
  ref_client_ids,
}
use capturemate_ai.Places.Refs.{
  Origins, ref_client_ids_sound, ref_client_ids_complete, all_in_sound, fromkeys_lem,
  Origins-IsSource, IsSource-Origins,
}
use capturemate_ai.Split.{
  bucket_memo, details_or_empty, finish, split_list, split_value, bucket_group, bucket_groups,
  split_restaurant_analysis,
}
use capturemate_ai.Places.Buckets.{
  HasMember, Covers, InBuckets, add_place_sound, add_place_complete,
}

module _ (unicode : Unicode) (ops : FloatOps) (format : Value → Str) (analysis : AnalyzeResponse)
    (idx_list : List ℕ) (items : List AnalyzeBatchItem) where
  -- What an entry adds to the scan.
  record Filed (scan scan' : Scan) : Type 0 where
    refs : List Str
    ids : List Str
    named : ref_client_ids idx_list items refs ≡ some ids
    covered : scan'.covered ≡ scan.covered ++ refs
    key : Str
    place : Place
    topic : Str
    source_key : Str
    buckets : scan'.buckets ≡ add_place key place ids topic source_key scan.buckets

  file_refs-Filed :
      (scan scan' : Scan) (entry : Fields) (o : Option (List Str))
      → file_refs unicode format analysis idx_list items scan entry o ≡ ok (some scan')
      → Filed scan scan'
  unfolding file_refs
  file_refs-Filed scan scan' entry none h = absurd (none-some (ok_inj h))
  file_refs-Filed scan scan' entry (some refs) h =
      let (ids, named, h') = bind-ok (or_arithmetic (ref_client_ids idx_list items refs)) _ h in
      let same = some_inj (ok_inj h') in
      record {
        refs = refs;
        ids = ids;
        named = or_arithmetic-ok _ named;
        covered = sym (ap (λ (s : Scan). s.covered) same);
        key = _;
        place = _;
        topic = _;
        source_key = _;
        buckets = sym (ap (λ (s : Scan). s.buckets) same);
      }

  scan_entry-Filed :
      (scan scan' : Scan) (v : Value)
      → scan_entry unicode format analysis idx_list items scan v ≡ ok (some scan')
      → Filed scan scan'
  unfolding scan_entry
  scan_entry-Filed scan scan' (dict entry) h = file_refs-Filed scan scan' entry _ h
  scan_entry-Filed scan scan' _ h = absurd (none-some (ok_inj h))

  -- The buckets hold the client ids of the references covered so far.
  record Scanned (scan : Scan) : Type 0 where
    sound : (id : Str) → InBuckets scan.buckets id → Origins idx_list items scan.covered id
    complete : (id : Str) → Origins idx_list items scan.covered id → InBuckets scan.buckets id

  Filed-Scanned : (scan scan' : Scan) → Filed scan scan' → Scanned scan → Scanned scan'
  Filed-Scanned scan scan' f s = record {
    sound = λ id i.
        elim (add_place_sound f.key f.place f.ids f.topic f.source_key scan.buckets id
          (rw f.buckets at i)) [
            | inl old ↦
                let (r, j, e) = s.sound id old in rw f.covered (r, In-append_left f.refs j, e)
            | inr new ↦
                let (r, j, e) = ref_client_ids_sound idx_list items f.refs f.ids f.named id new in
                rw f.covered (r, In-append_right scan.covered j, e)
          ];
    complete = λ id (r, i, e). rw f.buckets (
        add_place_complete f.key f.place f.ids f.topic f.source_key scan.buckets id
          (elim (In-append scan.covered (rw f.covered at i)) [
            | inl old ↦ inl (s.complete id (r, old, e))
            | inr new ↦
                inr (ref_client_ids_complete idx_list items f.refs f.ids f.named id (r, new, e))
          ]));
  }

  scan_entries-Scanned :
      (vs : List Value) (scan scan' : Scan)
      → scan_entries unicode format analysis idx_list items scan vs ≡ ok (some scan')
      → Scanned scan
      → Scanned scan'
  unfolding scan_entries
  scan_entries-Scanned [] scan scan' h s = rw (some_inj (ok_inj h)) at s
  scan_entries-Scanned (v ∷ vs) scan scan' h s =
      let (next, one, h') =
        bind-ok (scan_entry unicode format analysis idx_list items scan v) _ h in
      elim (Option-cases next) [
        | inl e ↦ absurd (none-some (ok_inj (rw e at h')))
        | inr (mid, e) ↦
            scan_entries-Scanned vs mid scan' (rw e at h')
              (Filed-Scanned scan mid (scan_entry-Filed scan mid v (one ∙ ap ok e)) s)
      ]

  bucket_group-members :
      (b : Bucket) (g : MemoGroup)
      → bucket_group unicode ops format analysis b ≡ ok g
      → g.member_client_ids ≡ fromkeys b.member_ids
  unfolding bucket_group
  bucket_group-members b g h =
      let (a, ea, h') = bind-ok (bucket_memo unicode ops format analysis b b.entries) _ h in
      sym (ap (λ (m : MemoGroup). m.member_client_ids) (ok_inj h'))

  abbrev InSome : List Bucket → Str → Type 0
  InSome bs id = (b : Bucket) × In b bs × In id b.member_ids

  bucket_groups-members :
      (bs : List Bucket) (gs : List MemoGroup)
      → bucket_groups unicode ops format analysis bs ≡ ok gs
      → (id : Str) → HasMember gs id ↔ InSome bs id
  unfolding bucket_groups
  bucket_groups-members [] gs h id =
      (λ (g, i, m). elim (rw (← ok_inj h) at i) [ ], λ (b, i, m). elim i [ ])
  bucket_groups-members (b ∷ bs) gs h id =
      let (g, eg, h') = bind-ok (bucket_group unicode ops format analysis b) _ h in
      let (rest, er, h'') = bind-ok (bucket_groups unicode ops format analysis bs) _ h' in
      let same = bucket_group-members b g eg in
      let (to, back) = bucket_groups-members bs rest er id in
      rw (← ok_inj h'') (
        λ (k, i, m). elim i [
          | here e ↦ (b, here refl, (fromkeys_lem b.member_ids id).0 (rw (e, same) at m))
          | there j ↦ let (c, q, n) = to (k, j, m) in (c, there q, n)
        ],
        λ (c, i, m). elim i [
          | here e ↦ (g, here refl, rw same ((fromkeys_lem b.member_ids id).1 (rw e at m)))
          | there j ↦ let (k, q, n) = back (c, j, m) in (k, there q, n)
        ],
      )

  finish-Covers :
      (o : Option Scan) (gs : List MemoGroup)
      → ((scan : Scan) → o ≡ some scan → Scanned scan)
      → finish unicode ops format analysis idx_list items o ≡ ok (some gs)
      → Covers items idx_list gs
  finish-Covers none gs s h = absurd (none-some (ok_inj h))
  finish-Covers (some scan) gs s h =
      elim (Bool-cases (
        all_in (source_refs 0 (length idx_list)) scan.covered
        && all_in scan.covered (source_refs 0 (length idx_list)))) [
          | inr part ↦ absurd (none-some (ok_inj (rw part at h)))
          | inl full ↦
              let (found, run, h') =
                bind-ok (bucket_groups unicode ops format analysis (values scan.buckets)) _
                  (rw full at h) in
              let members =
                bucket_groups-members (values scan.buckets) gs
                  (run ∙ ap ok (some_inj (ok_inj h'))) in
              let inv = s scan refl in
              record {
                sound = λ id m.
                    Origins-IsSource idx_list items scan.covered
                      (all_in_sound scan.covered _
                        (&&-right (all_in (source_refs 0 (length idx_list)) scan.covered) _ full))
                      id (inv.sound id ((members id).0 m));
                complete = λ id q. (members id).1 (
                    inv.complete id (
                      IsSource-Origins idx_list items scan.covered
                        (all_in_sound _ scan.covered
                          (&&-left _ (all_in scan.covered (source_refs 0 (length idx_list))) full))
                        id q));
              }
        ]

  Scanned-nil : Scanned (record { covered = []; buckets = [] })
  Scanned-nil = record { sound = λ id (b, i, m). elim i [ ]; complete = λ id (r, i, e). elim i [ ] }

  split_list-Covers :
      (vs : List Value) (gs : List MemoGroup)
      → split_list unicode ops format analysis idx_list items vs ≡ ok (some gs)
      → Covers items idx_list gs
  split_list-Covers [] gs h = absurd (none-some (ok_inj h))
  split_list-Covers (v ∷ vs) gs h =
      let (o, run, h') =
        bind-ok
          (scan_entries unicode format analysis idx_list items
            (record { covered = []; buckets = [] }) (v ∷ vs))
          _ h in
      finish-Covers o gs
        (λ scan e. scan_entries-Scanned (v ∷ vs) _ scan (run ∙ ap ok e) Scanned-nil) h'

  split_value-Covers :
      (v : Value) (gs : List MemoGroup)
      → split_value unicode ops format analysis idx_list items v ≡ ok (some gs)
      → Covers items idx_list gs
  split_value-Covers (list vs) gs h = split_list-Covers (to_list vs) gs h
  split_value-Covers _ gs h = absurd (none-some (ok_inj h))

  -- Where the split of an analysis returns memos, their members are the client ids of the items of
  -- the group, all of them and no others.
  pub split_restaurant_analysis-Covers :
      (gs : List MemoGroup)
      → split_restaurant_analysis unicode ops format analysis idx_list items ≡ ok (some gs)
      → Covers items idx_list gs
  unfolding split_restaurant_analysis
  split_restaurant_analysis-Covers gs h =
      split_value-Covers
        (get (codes "restaurants")
          (details_or_empty unicode ops format analysis idx_list items analysis.details))
        gs h
