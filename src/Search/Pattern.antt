-- ===== src/Search/Pattern.antt =====
-- What the tests of `syscall_table_pattern` say of the memory at an address.
use tag_aos.Base.{
  ℕ, zero, suc, ◌+◌, ◌%◌, ◌≤◌, ◌<◌, ◌==◌, ◌≡◌, ◌≢◌, refl, ap, inl, inr, Bool, true, false, not,
  ◌&&◌, List, [], ◌∷◌, ltb, ltb→lt, lt→ltb, ==_iff, Bool-cases, arith,
}
use tag_aos.Search.{start_addr, Kernel, slot, all_ni, none_ni, later_ni, fits}

-- A table that the module can use: the seven entries hold one address of the kernel, a multiple of
-- four, which none of the entries 1 to 133 holds.
pub record IsTable (k : Kernel) (table : ℕ) : Type 0 where
  pub aligned : slot k table 134 % 4 ≡ 0
  pub kernel : start_addr < slot k table 134
  pub e174 : slot k table 174 ≡ slot k table 134
  pub e182 : slot k table 182 ≡ slot k table 134
  pub e183 : slot k table 183 ≡ slot k table 134
  pub e214 : slot k table 214 ≡ slot k table 134
  pub e215 : slot k table 215 ≡ slot k table 134
  pub e236 : slot k table 236 ≡ slot k table 134
  pub used : (j : ℕ) → 1 ≤ j → j ≤ 133 → slot k table j ≢ slot k table 134

none_ni_sound :
    (k : Kernel) (table ni left j : ℕ)
    → none_ni k table ni left j ≡ true
    → (i : ℕ) → j ≤ i
    → i < j + left
    → slot k table i ≢ ni
unfolding none_ni
none_ni_sound k table ni zero j e i lo hi = absurd (omega arith)
none_ni_sound k table ni (suc left) j e i lo hi = elim (Bool-cases (j == i)) [
  | inl here ↦
      let ji : j ≡ i = ground arith in λ same. absurd (ground (arith, ap (slot k table) ji, e))
  | inr other ↦ none_ni_sound k table ni left (j + 1) (ground arith) i (ground arith) (omega arith)
]

none_ni_complete :
    (k : Kernel) (table ni left j : ℕ)
    → ((i : ℕ) → j ≤ i → i < j + left → slot k table i ≢ ni)
    → none_ni k table ni left j ≡ true
unfolding none_ni
none_ni_complete k table ni zero j h = refl
none_ni_complete k table ni (suc left) j h = ground (
  arith,
  h j (omega arith) (omega arith),
  none_ni_complete k table ni left (j + 1) (λ i lo hi. h i (omega arith) (omega arith)),
)

and-true : (a b : Bool) → (a && b) ≡ true → (a ≡ true) × (b ≡ true)
and-true true b e = (refl, e)
and-true false b e = absurd (cc e)

all_ni-cons :
    (k : Kernel) (table ni n : ℕ) (ns : List ℕ)
    → all_ni k table ni (n ∷ ns) ≡ true
    → (slot k table n ≡ ni) × (all_ni k table ni ns ≡ true)
unfolding all_ni
all_ni-cons k table ni n ns e = elim (Bool-cases (slot k table n == ni)) [
  | inl same ↦ ((==_iff (slot k table n) ni).0 same, ground (arith, same))
  | inr other ↦ absurd (ground (arith, other))
]

-- The tests hold exactly for such a table.
pub fits-IsTable : (k : Kernel) (table : ℕ) → fits k table ≡ true → IsTable k table
unfolding fits
fits-IsTable k table e =
    let ni = slot k table 134 in
    let (aligned, e1) = and-true (ni % 4 == 0) _ e in
    let (nonzero, e2) = and-true (not (ni == 0)) _ e1 in
    let (kernel, e3) = and-true (ltb start_addr ni) _ e2 in
    let (all, none_before) = and-true (all_ni k table ni later_ni) _ e3 in
    let (e174, a1) = all_ni-cons k table ni 174 (182 ∷ 183 ∷ 214 ∷ 215 ∷ 236 ∷ []) all in
    let (e182, a2) = all_ni-cons k table ni 182 (183 ∷ 214 ∷ 215 ∷ 236 ∷ []) a1 in
    let (e183, a3) = all_ni-cons k table ni 183 (214 ∷ 215 ∷ 236 ∷ []) a2 in
    let (e214, a4) = all_ni-cons k table ni 214 (215 ∷ 236 ∷ []) a3 in
    let (e215, a5) = all_ni-cons k table ni 215 (236 ∷ []) a4 in
    let (e236, a6) = all_ni-cons k table ni 236 [] a5 in
    record {
      aligned = (==_iff (ni % 4) 0).0 aligned;
      kernel = ltb→lt start_addr ni kernel;
      e174 = e174;
      e182 = e182;
      e183 = e183;
      e214 = e214;
      e215 = e215;
      e236 = e236;
      used = λ j lo hi. none_ni_sound k table ni 133 1 none_before j lo (omega arith);
    }

both : {a b : Bool} → a ≡ true → b ≡ true → (a && b) ≡ true
both p q = rw (p, q) refl

all_ni_more :
    (k : Kernel) (table ni n : ℕ) (ns : List ℕ)
    → slot k table n ≡ ni
    → all_ni k table ni ns ≡ true
    → all_ni k table ni (n ∷ ns) ≡ true
unfolding all_ni
all_ni_more k table ni n ns same rest = rw ((==_iff (slot k table n) ni).1 same) rest

pub IsTable-fits : (k : Kernel) (table : ℕ) → IsTable k table → fits k table ≡ true
unfolding fits all_ni
IsTable-fits k table t = both ((==_iff (ni % 4) 0).1 t.aligned) (
    both nonzero (
      both (lt→ltb start_addr ni t.kernel) (
        both
          (all_ni_more k table ni 174 (182 ∷ 183 ∷ 214 ∷ 215 ∷ 236 ∷ []) t.e174 (
            all_ni_more k table ni 182 (183 ∷ 214 ∷ 215 ∷ 236 ∷ []) t.e182 (
              all_ni_more k table ni 183 (214 ∷ 215 ∷ 236 ∷ []) t.e183 (
                all_ni_more k table ni 214 (215 ∷ 236 ∷ []) t.e214 (
                  all_ni_more k table ni 215 (236 ∷ []) t.e215
                    (all_ni_more k table ni 236 [] t.e236 refl))))))
          (none_ni_complete k table ni 133 1 (λ i lo hi. t.used i lo (omega arith))))))
  where
    ni : ℕ
    ni = slot k table 134

    nonzero : not (slot k table 134 == 0) ≡ true
    nonzero = elim (Bool-cases (slot k table 134 == 0)) [
      | inr other ↦ rw other refl
      | inl zero_entry ↦
          let z = (==_iff (slot k table 134) 0).0 zero_entry in absurd (omega (arith, z, t.kernel))
    ]
