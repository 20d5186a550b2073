-- ===== src/Search/Found.antt =====
-- What the search finds, and what it cannot miss.
use tag_aos.Base.{
  ℕ, ◌+◌, ◌*◌, ◌≤◌, ◌<◌, ◌==◌, ◌≡◌, ◌≢◌, refl, sym, ap, ◌∙◌, inl, inr, false, Option, none, some,
  ==_iff, Bool-cases, arith,
}
use tag_aos.Pages.{minus_one}
use tag_aos.Search.{
  start_addr, end_addr, page_size, page_of, Kernel, slot, cut_off, syscall_table_pattern, find_from,
  pages_count, find_syscall_table,
}
use tag_aos.Search.Pattern.{IsTable, fits-IsTable}
use tag_aos.Search.Scan.{both, pattern_from_sound, Stopped, find_from-Stopped, find_from_complete}

-- Where the search stopped, and what it had tested there.
goes_on :
    (k : Kernel) (u : ℕ)
    → Stopped k pages_count start_addr u
    → IsTable k u
      × (start_addr ≤ u)
      × (u < end_addr)
      × (k.frame (page_of u) ≢ minus_one)
      × (cut_off k u ≡ false)
unfolding syscall_table_pattern
goes_on k u w =
    let p = pattern_from_sound k page_size (start_addr + w.m * 4096) u w.runs in
    let at : page_of u ≡ start_addr + w.m * 4096 = omega (arith, p.0, p.1) in
    (
      fits-IsTable k u p.2,
      omega (arith, p.0),
      omega (arith, p.1, w.lt),
      (λ e. w.mapped (sym (ap k.frame at) ∙ e)),
      p.3,
    )

uncut_mapped :
    (k : Kernel) (u : ℕ)
    → cut_off k u ≡ false
    → page_of u + page_size ≡ page_of (u + 236 * 8)
    → k.frame (u + 236 * 8) ≢ minus_one
unfolding cut_off
uncut_mapped k u uncut spills unmapped = cc (
  uncut,
  both ((==_iff (page_of u + page_size) (page_of (u + 236 * 8))).1 spills)
      ((==_iff (k.frame (u + 236 * 8)) minus_one).1 unmapped),
)

-- What the search finds is a table that the module can use, inside the searched range. `get_phys_frame`
-- does not answer -1 for the page that it starts in, nor, where the last entry lies on the next page,
-- for that entry; and the address that is taken for `sys_ni_syscall` is the one in its free entries.
pub find_syscall_table_sound :
    (k : Kernel) (table ni : ℕ)
    → find_syscall_table k ≡ some (table, ni)
    → IsTable k table
      × (ni ≡ slot k table 134)
      × (start_addr ≤ table)
      × (table < end_addr)
      × (k.frame (page_of table) ≢ minus_one)
      × (page_of table + page_size ≡ page_of (table + 236 * 8)
          → k.frame (table + 236 * 8) ≢ minus_one)
unfolding find_syscall_table
find_syscall_table_sound k table ni e = by_result (find_from k pages_count start_addr) refl e
  where
    by_result :
        (o : Option ℕ)
        → find_from k pages_count start_addr ≡ o
        → ◌≡◌ {A = Option (ℕ × ℕ)}
            (elim o [ none ↦ none | some t ↦ some (t, slot k t 134) ])
            (some (table, ni))
        → IsTable k table
          × (ni ≡ slot k table 134)
          × (start_addr ≤ table)
          × (table < end_addr)
          × (k.frame (page_of table) ≢ minus_one)
          × (page_of table + page_size ≡ page_of (table + 236 * 8)
              → k.frame (table + 236 * 8) ≢ minus_one)
    by_result none runs e = absurd (cc e)
    by_result (some t) runs e =
        let tt_same : t ≡ table = cc e in
        let ni_same : slot k t 134 ≡ ni = cc e in
        let found = runs ∙ ap some tt_same in
        let w = goes_on k table (find_from-Stopped k pages_count start_addr table found) in
        (w.0, sym ni_same ∙ ap (λ x. slot k x 134) tt_same, w.1, w.2, w.3, uncut_mapped k table w.4)

find_runs :
    (k : Kernel) (w : ℕ)
    → find_from k pages_count start_addr ≡ some w
    → find_syscall_table k ≡ some (w, slot k w 134)
unfolding find_syscall_table
find_runs k w e = ap chosen e
  where
    chosen : Option ℕ → Option (ℕ × ℕ)
    chosen none = none
    chosen (some table) = some (table, slot k table 134)

-- The search misses no table that `get_phys_frame` lets it see: if some address in the range starts
-- one, in a page for which `get_phys_frame` does not answer -1, and neither does it for any address of
-- the next page, then a table is found, there or before.
pub find_syscall_table_complete :
    (k : Kernel) (u : ℕ)
    → IsTable k u
    → start_addr ≤ u
    → u < end_addr
    → k.frame (page_of u) ≢ minus_one
    → ((x : ℕ) → page_of x ≡ page_of u + page_size → k.frame x ≢ minus_one)
    → (table : ℕ) × (find_syscall_table k ≡ some (table, slot k table 134)) × (table ≤ u)
find_syscall_table_complete k u table lo hi mapped next_mapped =
    let (w, e, le) =
      find_from_complete k pages_count start_addr u (omega arith) lo (omega arith) table mapped
        uncut in
    (w, find_runs k w e, le)
  where
    uncut : (a : ℕ) → page_of a ≡ page_of u → cut_off k a ≡ false
    uncut a same =
        unfold cut_off in
        elim (Bool-cases (k.frame (a + 236 * 8) == minus_one)) [
          | inr there ↦ ground (arith, there)
          | inl unmapped ↦ elim (Bool-cases (page_of a + page_size == page_of (a + 236 * 8))) [
            | inr inside ↦ rw inside refl
            | inl spills ↦ absurd (
                next_mapped (a + 236 * 8)
                  (sym ((==_iff (page_of a + page_size) (page_of (a + 236 * 8))).0 spills)
                    ∙ ap (λ n. n + page_size) same)
                  ((==_iff (k.frame (a + 236 * 8)) minus_one).0 unmapped))
          ]
        ]
