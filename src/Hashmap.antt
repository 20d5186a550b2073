-- ===== src/Hashmap.antt =====
-- What the module uses of utils/hash-struct/hashmap.c, a copy of another project's library: an
-- interface of operations and of the behaviour that utils/include/hashmap.h's comments promise.
-- `hashmap_set` may have to grow the table; whether that allocation succeeds is an argument.
pub mod Direct
use tag_aos.Base.{
  ℕ, ◌+◌, ◌≡◌, ◌==◌, Bool, true, false, Option, none, some, ℤ, pos, ◌==ℤ◌, if◌then◌else◌,
}

abbrev pub is_some {ℓ} : {A : Type ℓ} → Option A → Bool
is_some none = false
is_some (some a) = true

-- `compare(a, b) == 0`
abbrev pub same {ℓ} : {A : Type ℓ} → (A → A → ℤ) → A → A → Bool
same compare x y = compare x y ==ℤ pos 0

pub record Hashmap {Item : Type 0} (compare : Item → Item → ℤ) : Type 1 where
  pub Table : Type 0
  pub hashmap_new : Table
  pub hashmap_count : Table → ℕ
  pub hashmap_oom : Table → Bool
  pub hashmap_get : Table → Item → Option Item
  pub hashmap_set : (grow_ok : Bool) → Table → Item → Table × Option Item
  pub hashmap_delete : Table → Item → Table × Option Item
  -- a new table is empty
  pub get-new : (y : Item) → hashmap_get hashmap_new y ≡ none
  pub count-new : hashmap_count hashmap_new ≡ 0
  -- the lookup goes by the key alone
  pub get-same :
      (t : Table) (x y : Item) → same compare x y ≡ true → hashmap_get t x ≡ hashmap_get t y
  -- an insertion that does not run out of memory returns the replaced item
  pub get-set :
      (grow_ok : Bool) (t : Table) (x y : Item)
      → hashmap_oom (hashmap_set grow_ok t x).0 ≡ false
      → hashmap_get (hashmap_set grow_ok t x).0 y
        ≡ (if same compare x y then some x else hashmap_get t y)
  pub count-set :
      (grow_ok : Bool) (t : Table) (x : Item)
      → hashmap_oom (hashmap_set grow_ok t x).0 ≡ false
      → hashmap_count (hashmap_set grow_ok t x).0
        ≡ (if is_some (hashmap_get t x) then hashmap_count t else hashmap_count t + 1)
  pub set-result :
      (grow_ok : Bool) (t : Table) (x : Item)
      → hashmap_oom (hashmap_set grow_ok t x).0 ≡ false
      → (hashmap_set grow_ok t x).1 ≡ hashmap_get t x
  -- one that does leaves the items alone and returns nothing
  pub get-set_oom :
      (grow_ok : Bool) (t : Table) (x y : Item)
      → hashmap_oom (hashmap_set grow_ok t x).0 ≡ true
      → hashmap_get (hashmap_set grow_ok t x).0 y ≡ hashmap_get t y
  pub count-set_oom :
      (grow_ok : Bool) (t : Table) (x : Item)
      → hashmap_oom (hashmap_set grow_ok t x).0 ≡ true
      → hashmap_count (hashmap_set grow_ok t x).0 ≡ hashmap_count t
  pub set_oom-result :
      (grow_ok : Bool) (t : Table) (x : Item)
      → hashmap_oom (hashmap_set grow_ok t x).0 ≡ true
      → (hashmap_set grow_ok t x).1 ≡ none
  -- a deletion removes the item with that key
  pub get-delete :
      (t : Table) (x y : Item)
      → hashmap_get (hashmap_delete t x).0 y ≡ (if same compare x y then none else hashmap_get t y)
  pub count-delete :
      (t : Table) (x : Item)
      → (if is_some (hashmap_get t x)
          then hashmap_count (hashmap_delete t x).0 + 1
          else hashmap_count (hashmap_delete t x).0)
        ≡ hashmap_count t
