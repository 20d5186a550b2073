-- ===== src/Hashmap/Direct.antt =====
-- The promised behaviour of the hash table is met by a table of tag entries that is addressed by
-- the key itself: an instance for the tests. It runs out of memory when a new entry needs room and
-- none is given.
use tag_aos.Base.{
  ℕ, zero, suc, ◌+◌, ◌≡◌, refl, ap, ◌==◌, arith, Bool, true, false, ◌||◌, Option, none, some, List,
  [], ◌∷◌, if◌then◌else◌, get_or,
}
use tag_aos.Hashmap.{Hashmap, is_some, same}
use tag_aos.Tag.{TagTableEntry, tag_compare}

pub record Direct : Type 0 where
  pub cells : List (Option ℕ)  -- the descriptor of each key
  pub oom : Bool

abbrev cell : List (Option ℕ) → ℕ → Option ℕ
cell cs k = get_or cs k none

abbrev put : List (Option ℕ) → ℕ → Option ℕ → List (Option ℕ)
put [] zero v = v ∷ []
put [] (suc k) v = none ∷ put [] k v
put (c ∷ cs) zero v = v ∷ cs
put (c ∷ cs) (suc k) v = c ∷ put cs k v

abbrev occupied : Option ℕ → ℕ
occupied none = 0
occupied (some d) = 1

abbrev total : List (Option ℕ) → ℕ
total [] = 0
total (c ∷ cs) = occupied c + total cs

cell-put :
    (cs : List (Option ℕ)) (k j : ℕ) (v : Option ℕ)
    → cell (put cs k v) j ≡ (if k == j then v else cell cs j)
cell-put [] zero zero v = ground arith
cell-put [] zero (suc j) v = ground arith
cell-put [] (suc k) zero v = ground arith
cell-put [] (suc k) (suc j) v = ground (arith, cell-put [] k j v)
cell-put (c ∷ cs) zero zero v = ground arith
cell-put (c ∷ cs) zero (suc j) v = ground arith
cell-put (c ∷ cs) (suc k) zero v = ground arith
cell-put (c ∷ cs) (suc k) (suc j) v = ground (arith, cell-put cs k j v)

total-put :
    (cs : List (Option ℕ)) (k : ℕ) (v : Option ℕ)
    → total (put cs k v) + occupied (cell cs k) ≡ total cs + occupied v
total-put [] zero v = omega arith
total-put [] (suc k) v = omega (arith, total-put [] k v)
total-put (c ∷ cs) zero v = omega arith
total-put (c ∷ cs) (suc k) v = omega (arith, total-put cs k v)

abbrev to_entry : ℕ → Option ℕ → Option TagTableEntry
to_entry k none = none
to_entry k (some d) = some (record { key = k; tag_key = d })

abbrev get : Direct → TagTableEntry → Option TagTableEntry
get t x = to_entry x.key (cell t.cells x.key)

abbrev insert : Bool → Direct → TagTableEntry → Direct × Option TagTableEntry
insert grow_ok t x =
    if grow_ok || is_some (get t x)
    then (record { cells = put t.cells x.key (some x.tag_key); oom = false }, get t x)
    else (record t { oom = true }, none)

abbrev delete : Direct → TagTableEntry → Direct × Option TagTableEntry
delete t x = (record { cells = put t.cells x.key none; oom = false }, get t x)

pub get-insert :
    (grow_ok : Bool) (t : Direct) (x y : TagTableEntry)
    → (insert grow_ok t x).0.oom ≡ false
    → get (insert grow_ok t x).0 y ≡ (if same tag_compare x y then some x else get t y)
get-insert grow_ok t x y h = ground (arith, cell-put t.cells x.key y.key (some x.tag_key))

pub count-insert :
    (grow_ok : Bool) (t : Direct) (x : TagTableEntry)
    → (insert grow_ok t x).0.oom ≡ false
    → total (insert grow_ok t x).0.cells
      ≡ (if is_some (get t x) then total t.cells else total t.cells + 1)
count-insert grow_ok t x h = ground (arith, total-put t.cells x.key (some x.tag_key))

pub get-same_lem :
    (t : Direct) (x y : TagTableEntry) → same tag_compare x y ≡ true → get t x ≡ get t y
get-same_lem t x y h =
    let e : x.key ≡ y.key = ground arith in ap (λ k. to_entry k (cell t.cells k)) e

pub get-delete_lem :
    (t : Direct) (x y : TagTableEntry)
    → get (delete t x).0 y ≡ (if same tag_compare x y then none else get t y)
get-delete_lem t x y = ground (arith, cell-put t.cells x.key y.key none)

pub count-delete_lem :
    (t : Direct) (x : TagTableEntry)
    → (if is_some (get t x) then total (delete t x).0.cells + 1 else total (delete t x).0.cells)
      ≡ total t.cells
count-delete_lem t x = ground (arith, total-put t.cells x.key none)

pub insert_result :
    (grow_ok : Bool) (t : Direct) (x : TagTableEntry)
    → (insert grow_ok t x).0.oom ≡ false
    → (insert grow_ok t x).1 ≡ get t x
insert_result grow_ok t x h = ground arith

pub get-insert_oom :
    (grow_ok : Bool) (t : Direct) (x y : TagTableEntry)
    → (insert grow_ok t x).0.oom ≡ true
    → get (insert grow_ok t x).0 y ≡ get t y
get-insert_oom grow_ok t x y h = ground arith

pub count-insert_oom :
    (grow_ok : Bool) (t : Direct) (x : TagTableEntry)
    → (insert grow_ok t x).0.oom ≡ true
    → total (insert grow_ok t x).0.cells ≡ total t.cells
count-insert_oom grow_ok t x h = ground arith

pub insert_oom_result :
    (grow_ok : Bool) (t : Direct) (x : TagTableEntry)
    → (insert grow_ok t x).0.oom ≡ true
    → (insert grow_ok t x).1 ≡ none
insert_oom_result grow_ok t x h = ground arith

abbrev pub direct : Hashmap tag_compare
direct = record {
  Table = Direct;
  hashmap_new = record { cells = []; oom = false };
  hashmap_count = λ t. total t.cells;
  hashmap_oom = λ t. t.oom;
  hashmap_get = get;
  hashmap_set = insert;
  hashmap_delete = delete;
  get-new = λ y. refl;
  count-new = refl;
  get-same = get-same_lem;
  get-set = get-insert;
  count-set = count-insert;
  set-result = insert_result;
  get-set_oom = get-insert_oom;
  count-set_oom = count-insert_oom;
  set_oom-result = insert_oom_result;
  get-delete = get-delete_lem;
  count-delete = count-delete_lem;
}
