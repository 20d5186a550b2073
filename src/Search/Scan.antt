-- ===== src/Search/Scan.antt =====
-- The loops over the addresses of a page and over the pages: what they stop at, and what they cannot
-- miss.
use tag_aos.Base.{
  ℕ, zero, suc, ◌+◌, ◌*◌, ◌%◌, ◌≤◌, ◌<◌, ◌==◌, ◌≡◌, ◌≢◌, refl, sym, ap, ◌∙◌, inl, inr, Bool, true,
  false, ◌&&◌, some, ltb, ltb→lt, ==_iff, Bool-cases, Option-cases, arith,
}
use tag_aos.Pages.{minus_one}
use tag_aos.Search.{
  page_size, page_of, Kernel, fits, cut_off, pattern_from, syscall_table_pattern, find_from,
}
use tag_aos.Search.Pattern.{IsTable, IsTable-fits}

pub both : {a b : Bool} → a ≡ true → b ≡ true → (a && b) ≡ true
both p q = rw (p, q) refl

pub pattern_from_sound :
    (k : Kernel) (left t u : ℕ)
    → pattern_from k left t ≡ some u
    → (t ≤ u) × (u < t + left) × (fits k u ≡ true) × (cut_off k u ≡ false)
unfolding pattern_from
pattern_from_sound k zero t u e = absurd (cc e)
pattern_from_sound k (suc left) t u e = elim (Bool-cases (cut_off k t)) [
  | inl cut ↦ absurd (ground (arith, cut))
  | inr uncut ↦ elim (Bool-cases (fits k t)) [
    | inl fit ↦
        let tu : t ≡ u = ground (arith, fit, uncut) in
        (omega arith, omega arith, sym (ap (fits k) tu) ∙ fit, sym (ap (cut_off k) tu) ∙ uncut)
    | inr unfit ↦
        let later = pattern_from_sound k left (t + 1) u (ground (arith, unfit, uncut)) in
        (omega (arith, later.0), omega (arith, later.1), later.2, later.3)
  ]
]

pattern_from_complete :
    (k : Kernel) (left t u : ℕ)
    → t ≤ u
    → u < t + left
    → fits k u ≡ true
    → ((a : ℕ) → t ≤ a → a ≤ u → cut_off k a ≡ false)
    → (w : ℕ) × (pattern_from k left t ≡ some w) × (w ≤ u)
unfolding pattern_from
pattern_from_complete k zero t u lo hi fit uncut = absurd (omega arith)
pattern_from_complete k (suc left) t u lo hi fit uncut = elim (Bool-cases (fits k t)) [
  | inl first ↦ (t, rw (uncut t (omega arith) lo, first) refl, lo)
  | inr unfit ↦
      let tu : t ≢ u = λ same. absurd (cc (fit, unfit, ap (fits k) same)) in
      let (w, e, le) =
        pattern_from_complete k left (t + 1) u (omega arith) (omega arith) fit
          (λ a la ha. uncut a (omega arith) ha) in
      (w, rw (uncut t (omega arith) lo, unfit) e, le)
]

-- The page in which the search stopped.
pub record Stopped (k : Kernel) (left page u : ℕ) : Type 0 where
  pub m : ℕ
  pub lt : m < left
  pub mapped : k.frame (page + m * 4096) ≢ minus_one
  pub runs : syscall_table_pattern k (page + m * 4096) ≡ some u

next_Stopped :
    (k : Kernel) (left page u : ℕ)
    → Stopped k left (page + page_size) u
    → Stopped k (suc left) page u
next_Stopped k left page u w =
    let at : page + page_size + w.m * 4096 ≡ page + (w.m + 1) * 4096 = omega arith in
    record {
      m = w.m + 1;
      lt = omega (arith, w.lt);
      mapped = λ e. w.mapped (ap k.frame at ∙ e);
      runs = sym (ap (syscall_table_pattern k) at) ∙ w.runs;
    }

pub find_from-Stopped :
    (k : Kernel) (left page u : ℕ) → find_from k left page ≡ some u → Stopped k left page u
unfolding find_from
find_from-Stopped k zero page u e = absurd (cc e)
find_from-Stopped k (suc left) page u e = elim (Bool-cases (k.frame page == minus_one)) [
  | inl unmapped ↦
      next_Stopped k left page u (find_from-Stopped k left (page + page_size) u (rw unmapped at e))
  | inr mapped ↦ elim (Option-cases (syscall_table_pattern k page)) [
    | inl nothing ↦
        next_Stopped k left page u
          (find_from-Stopped k left (page + page_size) u (rw (mapped, nothing) at e))
    | inr (w, found) ↦
        let at : page + 0 * 4096 ≡ page = omega arith in
        let wu : some w ≡ some u = rw (mapped, found) at e in
        record {
          m = 0;
          lt = omega arith;
          mapped = λ z.
              absurd (cc (mapped, (==_iff (k.frame page) minus_one).1 (sym (ap k.frame at) ∙ z)));
          runs = ap (syscall_table_pattern k) at ∙ found ∙ wu;
        }
  ]
]

ne_test : (a b : ℕ) → a ≢ b → (a == b) ≡ false
ne_test a b ne = elim (Bool-cases (a == b)) [
  | inl same ↦ absurd (ne ((==_iff a b).0 same))
  | inr other ↦ other
]

-- The round of the search at a page that the table starts in.
in_page :
    (k : Kernel) (left page u : ℕ)
    → page % 4096 ≡ 0
    → page ≤ u
    → u < page + page_size
    → IsTable k u
    → k.frame (page_of u) ≢ minus_one
    → ((a : ℕ) → page_of a ≡ page_of u → cut_off k a ≡ false)
    → (w : ℕ) × (find_from k (suc left) page ≡ some w) × (w ≤ u)
unfolding find_from
in_page k left page u whole lo lt table mapped uncut =
    let at : page_of u ≡ page = omega arith in
    let (w, e, le) = searched in
    (w, rw (ne_test (k.frame page) minus_one (λ z. mapped (ap k.frame at ∙ z)), e) refl, le)
  where
    searched : (w : ℕ) × (syscall_table_pattern k page ≡ some w) × (w ≤ u)
    searched =
        unfold syscall_table_pattern in
        pattern_from_complete k page_size page u lo lt (IsTable-fits k u table)
          (λ a la ha. uncut a (omega arith))

-- The round at an earlier page.
past_page :
    (k : Kernel) (left page u : ℕ)
    → page + page_size ≤ u
    → ((w : ℕ) × (find_from k left (page + page_size) ≡ some w) × (w ≤ u))
    → (w : ℕ) × (find_from k (suc left) page ≡ some w) × (w ≤ u)
unfolding find_from
past_page k left page u ge (w, e, le) = elim (Bool-cases (k.frame page == minus_one)) [
  | inl unmapped ↦ (w, rw unmapped e, le)
  | inr mapped ↦ elim (Option-cases (syscall_table_pattern k page)) [
    | inl nothing ↦ (w, rw (mapped, nothing) e, le)
    | inr (z, found) ↦ (z, rw (mapped, found) refl, omega (arith, (searched z found).1))
  ]
]
  where
    searched :
        (z : ℕ)
        → syscall_table_pattern k page ≡ some z
        → (page ≤ z) × (z < page + page_size) × (fits k z ≡ true) × (cut_off k z ≡ false)
    searched z found = pattern_from_sound k page_size page z (unfold syscall_table_pattern in found)

pub find_from_complete :
    (k : Kernel) (left page u : ℕ)
    → page % 4096 ≡ 0
    → page ≤ u
    → u < page + left * 4096
    → IsTable k u
    → k.frame (page_of u) ≢ minus_one
    → ((a : ℕ) → page_of a ≡ page_of u → cut_off k a ≡ false)
    → (w : ℕ) × (find_from k left page ≡ some w) × (w ≤ u)
find_from_complete k zero page u whole lo hi table mapped uncut = absurd (omega arith)
find_from_complete k (suc left) page u whole lo hi table mapped uncut =
    elim (Bool-cases (ltb u (page + page_size))) [
      | inl here ↦
          in_page k left page u whole lo (ltb→lt u (page + page_size) here) table mapped uncut
      | inr beyond ↦
          let ge : page + page_size ≤ u = ground (arith, beyond) in
          past_page k left page u ge (
            find_from_complete k left (page + page_size) u (omega arith) ge (omega arith) table
              mapped uncut)
    ]
