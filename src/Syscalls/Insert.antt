-- ===== src/Syscalls/Insert.antt =====
-- `syscall_insert` and `syscall_clean` of syscall-table-disc/scth_discovery.c.
use mathlib.Core.Path.{subst}
use tag_aos.Base.{
  ℕ, ◌≤◌, ◌<◌, ◌≡◌, ◌≢◌, refl, sym, ap, ◌∙◌, ◌⊎◌, inl, inr, ◌==◌, arith, Option, none, some, List,
  [], ◌∷◌, if◌then◌else◌, if-elim, Bool-cases, Option-cases, length, get_or, set, get_or-set,
  length-set,
}
use tag_aos.Syscalls.{ni_syscall, Discovery, free_entry, syscall_insert, restore}

abbrev pub All : (ℕ → Type 0) → List ℕ → Type 0
All P [] = Unit
All P (n ∷ ns) = P n × All P ns

abbrev pub Among : ℕ → List ℕ → Type 0
Among j [] = ⊥
Among j (n ∷ ns) = (j ≡ n) ⊎ Among j ns

-- The numbers of the entries that may be used.
pub record Usable (n : ℕ) : Type 0 where
  pub low : 134 ≤ n
  pub high : n ≤ 236
  pub among : Among n ni_syscall

ni_syscall-Usable : All Usable ni_syscall
ni_syscall-Usable = (
  record { low = omega arith; high = omega arith; among = inl refl },
  (
    record { low = omega arith; high = omega arith; among = inr (inl refl) },
    (
      record { low = omega arith; high = omega arith; among = inr (inr (inl refl)) },
      (
        record { low = omega arith; high = omega arith; among = inr (inr (inr (inl refl))) },
        (
          record {
            low = omega arith;
            high = omega arith;
            among = inr (inr (inr (inr (inl refl))));
          },
          (
            record {
              low = omega arith;
              high = omega arith;
              among = inr (inr (inr (inr (inr (inl refl)))));
            },
            (
              record {
                low = omega arith;
                high = omega arith;
                among = inr (inr (inr (inr (inr (inr (inl refl))))));
              },
              tt,
            ),
          ),
        ),
      ),
    ),
  ),
)

free_entry-found :
    (P : ℕ → Type 0) (ns table : List ℕ) (sys_ni n : ℕ)
    → All P ns
    → free_entry ns table sys_ni ≡ some n
    → P n × (get_or table n 0 ≡ sys_ni)
unfolding free_entry
free_entry-found P [] table sys_ni n all e = absurd (cc e)
free_entry-found P (m ∷ ns) table sys_ni n (here, all) e =
    elim (Bool-cases (get_or table m 0 == sys_ni)) [
      | inl free ↦
          subst (λ n. P n × (get_or table n 0 ≡ sys_ni)) (ground (arith, e, free))
            (here, ground (arith, free))
      | inr used ↦ free_entry-found P ns table sys_ni n all (ground (arith, e, used))
    ]

-- The function `f` has been put at entry `n`, which was free.
pub record Inserted (d d' : Discovery) (f n : ℕ) : Type 0 where
  pub table : List ℕ
  pub there : d.table ≡ some table
  pub known : d.sys_ni ≢ 0
  pub usable : Usable n
  pub free : get_or table n 0 ≡ d.sys_ni
  pub result : d' ≡ record d { table = some (set table n f) }

abbrev pub Outcome : (d : Discovery) (f : ℕ) → Discovery × ℕ → Type 0
Outcome d f (d', n) = ((n ≡ 0) × (d' ≡ d)) ⊎ Inserted d d' f n

pub syscall_insert-Outcome : (d : Discovery) (f : ℕ) → Outcome d f (syscall_insert d f)
unfolding syscall_insert
syscall_insert-Outcome d f = elim (Option-cases d.table) [
  | inl none_found ↦ subst (λ o. Outcome d f (by_table o)) (sym none_found) (inl (refl, refl))
  | inr (table, there) ↦
      subst (λ o. Outcome d f (by_table o)) (sym there)
        (if-elim (Outcome d f) (d.sys_ni == 0) (λ _. inl (refl, refl))
          (λ known. elim (Option-cases (free_entry ni_syscall table d.sys_ni)) [
            | inl full ↦ subst (λ o. Outcome d f (by_entry table o)) (sym full) (inl (refl, refl))
            | inr (n, e) ↦
                let (usable, free) =
                  free_entry-found Usable ni_syscall table d.sys_ni n ni_syscall-Usable e in
                subst (λ o. Outcome d f (by_entry table o)) (sym e)
                  (inr (record {
                    table = table;
                    there = there;
                    known = λ z. absurd (ground (arith, known, z));
                    usable = usable;
                    free = free;
                    result = refl;
                  }))
          ]))
]
  where
    by_entry : List ℕ → Option ℕ → Discovery × ℕ
    by_entry table none = (d, 0)
    by_entry table (some n) = (record d { table = some (set table n f) }, n)

    by_table : Option (List ℕ) → Discovery × ℕ
    by_table none = (d, 0)
    by_table (some table) =
        if d.sys_ni == 0 then (d, 0) else by_entry table (free_entry ni_syscall table d.sys_ni)

-- The table `t` is `t0` but for the entries of `ns`.
pub record Agree (ns t0 t : List ℕ) : Type 0 where
  pub length : length t ≡ length t0
  pub cells : (j : ℕ) → (get_or t j 0 ≡ get_or t0 j 0) ⊎ Among j ns

pub restore-Agree :
    (ns t0 t : List ℕ) (sys_ni : ℕ)
    → All (λ n. (n < length t0) × (get_or t0 n 0 ≡ sys_ni)) ns
    → Agree ns t0 t
    → (j : ℕ) → get_or (restore ns t sys_ni) j 0 ≡ get_or t0 j 0
unfolding restore
restore-Agree [] t0 t sys_ni all g j = only (g.cells j)
  where
    only : (get_or t j 0 ≡ get_or t0 j 0) ⊎ ⊥ → get_or t j 0 ≡ get_or t0 j 0
    only (inl same) = same
    only (inr e) = absurd e
restore-Agree (n ∷ ns) t0 t sys_ni ((lt, free), all) g j =
    restore-Agree ns t0 (set t n sys_ni) sys_ni all
      (record { length = length-set t n sys_ni ∙ g.length; cells = λ k. put k (g.cells k) }) j
  where
    read : (k : ℕ) → get_or (set t n sys_ni) k 0 ≡ (if n == k then sys_ni else get_or t k 0)
    read k = get_or-set t n k sys_ni 0 (omega (arith, lt, g.length))

    here : (k : ℕ) → k ≡ n → get_or (set t n sys_ni) k 0 ≡ get_or t0 k 0
    here k e = ground (arith, read k, e, free, ap (λ x. get_or t0 x 0) e)

    put :
        (k : ℕ)
        → (get_or t k 0 ≡ get_or t0 k 0) ⊎ Among k (n ∷ ns)
        → (get_or (set t n sys_ni) k 0 ≡ get_or t0 k 0) ⊎ Among k ns
    put k (inr (inl e)) = inl (here k e)
    put k (inr (inr later)) = inr later
    put k (inl same) = elim (Bool-cases (n == k)) [
      | inl e ↦ inl (here k (ground (arith, e)))
      | inr other ↦ inl (ground (arith, read k, same, other))
    ]

-- A system call that `syscall_insert` installs gets one of the seven numbers, at an entry that was
-- free, and its function stands there afterwards. With the answer 0 nothing has changed.
pub syscall_insert_result :
    (d d' : Discovery) (f n : ℕ)
    → syscall_insert d f ≡ (d', n)
    → ((n ≡ 0) × (d' ≡ d)) ⊎ Inserted d d' f n
syscall_insert_result d d' f n e = subst (Outcome d f) e (syscall_insert-Outcome d f)
