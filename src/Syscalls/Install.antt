-- ===== src/Syscalls/Install.antt =====
-- `install_syscalls` of tag-module/tag-syscall.c, and `syscall_clean` after it.
use mathlib.Core.Path.{subst}
use native.Mathlib.Nat.{mul-le-mul, one-le-mul, mod-eq_of_lt, zero-mul, mul-zero}
use tag_aos.Base.{
  ℕ, ◌*◌, ◌%◌, ◌^◌, ◌≤◌, ◌<◌, ◌≡◌, ◌≢◌, ◌↔◌, refl, sym, ◌∙◌, ◌⊎◌, inl, inr, ◌==◌, arith, false,
  some, List, [], ◌∷◌, Bool-cases, length, get_or, set, get_or-set, length-set,
}
use tag_aos.Syscalls.{
  ni_syscall, Discovery, syscall_insert, install_syscalls, restore, syscall_clean,
}
use tag_aos.Syscalls.Insert.{
  All, Among, Usable, Outcome, syscall_insert-Outcome, Agree, restore-Agree,
}

abbrev Number : ℕ → Type 0
Number n = (n ≡ 0) ⊎ Usable n

insert-Number : (d : Discovery) (f : ℕ) → Number (syscall_insert d f).1
insert-Number d f = by_outcome (syscall_insert-Outcome d f)
  where
    by_outcome : Outcome d f (syscall_insert d f) → Number (syscall_insert d f).1
    by_outcome (inl (zero_nr, same)) = inl zero_nr
    by_outcome (inr i) = inr i.usable

abbrev Missing : (a b c e : ℕ) → Type 0
Missing a b c e = (a ≡ 0) ⊎ ((b ≡ 0) ⊎ ((c ≡ 0) ⊎ (e ≡ 0)))

product-range :
    (a b c e : ℕ)
    → Usable a
    → Usable b
    → Usable c
    → Usable e
    → (1 ≤ a * b * c * e) × (a * b * c * e < 2 ^ 32)
product-range a b c e ua ub uc ue = (
  one-le-mul
      (one-le-mul (one-le-mul (omega (arith, ua.low)) (omega (arith, ub.low)))
        (omega (arith, uc.low)))
      (omega (arith, ue.low)),
  small (mul-le-mul (mul-le-mul (mul-le-mul ua.high ub.high) uc.high) ue.high),
)
  where
    small : a * b * c * e ≤ 236 * 236 * 236 * 236 → a * b * c * e < 2 ^ 32
    small h = omega (arith, h)

product-Missing :
    (a b c e : ℕ)
    → Number a
    → Number b
    → Number c
    → Number e
    → a * b * c * e % 2 ^ 32 ≡ 0
    → Missing a b c e
product-Missing a b c e (inl z) nb nc ne h = inl z
product-Missing a b c e (inr ua) (inl z) nc ne h = inr (inl z)
product-Missing a b c e (inr ua) (inr ub) (inl z) ne h = inr (inr (inl z))
product-Missing a b c e (inr ua) (inr ub) (inr uc) (inl z) h = inr (inr (inr z))
product-Missing a b c e (inr ua) (inr ub) (inr uc) (inr ue) h =
    let (low, high) = product-range a b c e ua ub uc ue in
    absurd (omega (arith, low, sym (mod-eq_of_lt high) ∙ h))

Missing-product : (a b c e : ℕ) → Missing a b c e → a * b * c * e % 2 ^ 32 ≡ 0
Missing-product a b c e m = vanishes (product_zero m)
  where
    vanishes : a * b * c * e ≡ 0 → a * b * c * e % 2 ^ 32 ≡ 0
    vanishes z = rw z refl

    product_zero : Missing a b c e → a * b * c * e ≡ 0
    product_zero (inl z) = rw z (rw zero-mul (rw zero-mul (zero-mul e)))
    product_zero (inr (inl z)) = rw z (rw mul-zero (rw zero-mul (zero-mul e)))
    product_zero (inr (inr (inl z))) = rw z (rw mul-zero (zero-mul e))
    product_zero (inr (inr (inr z))) = rw z (mul-zero (a * b * c))

-- The product of the four numbers, cut to 32 bits, is 0 exactly when one of the four system calls
-- could not be installed: the numbers are small enough that it never wraps round to 0.
pub install_syscalls_result :
    (d : Discovery) (get send receive ctl : ℕ)
    → ((install_syscalls d get send receive ctl).result ≡ 0) ↔ (
        ((install_syscalls d get send receive ctl).get_nr ≡ 0)
        ⊎ (((install_syscalls d get send receive ctl).send_nr ≡ 0)
            ⊎ (((install_syscalls d get send receive ctl).receive_nr ≡ 0)
                ⊎ ((install_syscalls d get send receive ctl).ctl_nr ≡ 0))))
unfolding install_syscalls
install_syscalls_result d get send receive ctl = (
  product-Missing _ _ _ _ (insert-Number d get) (insert-Number d1 send) (insert-Number d2 receive)
      (insert-Number d3 ctl),
  Missing-product _ _ _ _,
)
  where
    d1 : Discovery
    d1 = (syscall_insert d get).0

    d2 : Discovery
    d2 = (syscall_insert d1 send).0

    d3 : Discovery
    d3 = (syscall_insert d2 receive).0

All-at : (P : ℕ → Type 0) (ns : List ℕ) (n : ℕ) → All P ns → Among n ns → P n
All-at P [] n all e = absurd e
All-at P (m ∷ ns) n (here, all) (inl e) = subst P (sym e) here
All-at P (m ∷ ns) n (here, all) (inr later) = All-at P ns n all later

module _ (d0 : Discovery) (t0 : List ℕ) where
  abbrev pub Free : Type 0
  Free = All (λ n. (n < length t0) × (get_or t0 n 0 ≡ d0.sys_ni)) ni_syscall

  -- The discovery `d` differs from `d0` in the free entries only.
  record Altered (d : Discovery) : Type 0 where
    table : List ℕ
    there : d.table ≡ some table
    agree : Agree ni_syscall t0 table
    same : d.sys_ni ≡ d0.sys_ni

  insert-Altered : (d : Discovery) (f : ℕ) → Free → Altered d → Altered (syscall_insert d f).0
  insert-Altered d f free a = by_outcome (syscall_insert-Outcome d f)
    where
      put :
          (n : ℕ)
          → Among n ni_syscall
          → (j : ℕ) → (get_or (set a.table n f) j 0 ≡ get_or t0 j 0) ⊎ Among j ni_syscall
      put n usable j = elim (Bool-cases (n == j)) [
        | inl here ↦ inr (subst (λ k. Among k ni_syscall) (ground (arith, here)) usable)
        | inr other ↦ kept n usable j other (a.agree.cells j)
      ]
        where
          kept :
              (n : ℕ)
              → Among n ni_syscall
              → (j : ℕ) → (n == j) ≡ false
              → (get_or a.table j 0 ≡ get_or t0 j 0) ⊎ Among j ni_syscall
              → (get_or (set a.table n f) j 0 ≡ get_or t0 j 0) ⊎ Among j ni_syscall
          kept n usable j other (inr among) = inr among
          kept n usable j other (inl same) =
              let lt =
                (All-at (λ n. (n < length t0) × (get_or t0 n 0 ≡ d0.sys_ni)) ni_syscall n free
                  usable).0 in
              inl (get_or-set a.table n j f 0 (omega (arith, lt, a.agree.length)) ∙ rw other same)

      by_outcome : Outcome d f (syscall_insert d f) → Altered (syscall_insert d f).0
      by_outcome (inl (z, same)) = subst Altered (sym same) a
      by_outcome (inr i) = subst Altered (sym i.result) (record {
        table = set i.table _ f;
        there = refl;
        agree =
            subst (λ t. Agree ni_syscall t0 (set t _ f)) (one_table i.table i.there)
              (record {
                length = length-set a.table _ f ∙ a.agree.length;
                cells = put _ i.usable.among;
              });
        same = a.same;
      })
        where
          one_table : (t : List ℕ) → d.table ≡ some t → a.table ≡ t
          one_table t e = cc (e, a.there)

  clean-Altered :
      (d : Discovery)
      → Free
      → d0.sys_ni ≢ 0
      → Altered d
      → (t : List ℕ) × ((syscall_clean d).table ≡ some t) × ((j : ℕ) → get_or t j 0 ≡ get_or t0 j 0)
  unfolding syscall_clean
  clean-Altered d free known a = (
    restore ni_syscall a.table d.sys_ni,
    rw (a.there, not_zero) refl,
    restore-Agree ni_syscall t0 a.table d.sys_ni (rw a.same free) a.agree,
  )
    where
      not_zero : (d.sys_ni == 0) ≡ false
      not_zero = ground (arith, a.same, known)

-- Whatever part of the four system calls was installed on a table whose seven entries were free,
-- `syscall_clean` gives back the table that was there before.
pub clean-install_syscalls :
    (d : Discovery) (t0 : List ℕ) (get send receive ctl : ℕ)
    → d.table ≡ some t0
    → d.sys_ni ≢ 0
    → Free d t0
    → (t : List ℕ) × ((syscall_clean (install_syscalls d get send receive ctl).discovery).table
        ≡ some t)
      × ((j : ℕ) → get_or t j 0 ≡ get_or t0 j 0)
unfolding install_syscalls
clean-install_syscalls d t0 get send receive ctl there known free =
    clean-Altered d t0 _ free known (
      insert-Altered d t0 _ ctl free (
        insert-Altered d t0 _ receive free (
          insert-Altered d t0 _ send free (
            insert-Altered d t0 d get free (record {
              table = t0;
              there = there;
              agree = record { length = refl; cells = λ j. inl refl };
              same = refl;
            })))))
