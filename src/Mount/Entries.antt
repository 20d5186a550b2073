-- ===== src/Mount/Entries.antt =====
-- The entries of a table, and four insertions of syscall-table-disc/scth_discovery.c into them.
use tag_aos.Base.{
  ℕ, zero, suc, ◌+◌, ◌*◌, ◌%◌, ◌^◌, ◌<◌, ◌==◌, ◌≡◌, ◌≢◌, refl, ap, ◌∙◌, false, some, List, ◌∷◌,
  ==_iff, Bool-cases, inl, inr, get_or, set, length, arith,
}
use tag_aos.Search.{Kernel, slot}
use tag_aos.Syscalls.{ni_syscall, Discovery, free_entry, syscall_insert, install_syscalls}
use tag_aos.Mount.{entries_from}

pub length-entries_from :
    (k : Kernel) (table left n : ℕ) → length (entries_from k table left n) ≡ left
unfolding entries_from
length-entries_from k table zero n = refl
length-entries_from k table (suc left) n = ap suc (length-entries_from k table left (n + 1))

pub get_or-entries_from :
    (k : Kernel) (table left n j : ℕ)
    → j < left
    → get_or (entries_from k table left n) j 0 ≡ slot k table (n + j)
unfolding entries_from
get_or-entries_from k table zero n j lt = absurd (omega arith)
get_or-entries_from k table (suc left) n zero lt = ap (slot k table) (omega arith)
get_or-entries_from k table (suc left) n (suc j) lt =
    get_or-entries_from k table left (n + 1) j (omega arith) ∙ ap (slot k table) (omega arith)

module _ (d : Discovery) (t : List ℕ) (f n : ℕ) (there : d.table ≡ some t) (known : d.sys_ni ≢ 0)
    (free : free_entry ni_syscall t d.sys_ni ≡ some n) where
  pub insert_at : syscall_insert d f ≡ (record d { table = some (set t n f) }, n)
  unfolding syscall_insert
  insert_at = rw (there, not_zero, free) refl
    where
      not_zero : (d.sys_ni == 0) ≡ false
      not_zero = elim (Bool-cases (d.sys_ni == 0)) [
        | inl z ↦ absurd (known ((==_iff d.sys_ni 0).0 z))
        | inr nz ↦ nz
      ]

-- Four insertions, one after the other.
pub chain :
    (d0 d1 d2 d3 d4 : Discovery) (get send receive ctl n1 n2 n3 n4 : ℕ)
    → syscall_insert d0 get ≡ (d1, n1)
    → syscall_insert d1 send ≡ (d2, n2)
    → syscall_insert d2 receive ≡ (d3, n3)
    → syscall_insert d3 ctl ≡ (d4, n4)
    → install_syscalls d0 get send receive ctl ≡ record {
      discovery = d4;
      get_nr = n1;
      send_nr = n2;
      receive_nr = n3;
      ctl_nr = n4;
      result = n1 * n2 * n3 * n4 % 2 ^ 32;
    }
unfolding install_syscalls
chain d0 d1 d2 d3 d4 get send receive ctl n1 n2 n3 n4 e1 e2 e3 e4 = rw (e1, e2, e3, e4) refl

-- The entries of a table, with the first few replaced.
module _ (ni : ℕ) (t : List ℕ) where
  pub first_free : (n : ℕ) (ns : List ℕ) → get_or t n 0 ≡ ni → free_entry (n ∷ ns) t ni ≡ some n
  unfolding free_entry
  first_free n ns e = rw ((==_iff (get_or t n 0) ni).1 e) refl

  pub next_free :
      (n : ℕ) (ns : List ℕ) → get_or t n 0 ≢ ni → free_entry (n ∷ ns) t ni ≡ free_entry ns t ni
  unfolding free_entry
  next_free n ns ne = elim (Bool-cases (get_or t n 0 == ni)) [
    | inl same ↦ absurd (ne ((==_iff (get_or t n 0) ni).0 same))
    | inr other ↦ rw other refl
  ]
