-- ===== src/Bitmask/Avail.antt =====
-- `get_avail_number` of utils/bitmask/bitmask.c and its loop.
use tag_aos.Base.{
  ℕ, zero, suc, ◌+◌, ◌-◌, ◌*◌, ◌/◌, ◌%◌, ◌<◌, ◌≤◌, ◌≡◌, refl, ap, sym, ◌∙◌, ◌==◌, arith, inl, inr,
  ℤ, pos, negsuc, if◌then◌else◌, leb, Bool-cases, true, false, not, get_or, set,
}
use mathlib.Core.Path.{subst}
use tag_aos.Base.Bits.{bit, bit-zero, bit-complement}
use tag_aos.Bitmask.{
  Bitmask, set_bit, full_slot, get_free_bit, take_bit, avail_from, get_avail_number, taken, IsValid,
}
use tag_aos.Bitmask.Update.{mark, mark-IsValid, taken-mark}
use tag_aos.Bitmask.Word.{Search, found, missing, get_free_bit-Search}

-- What a search over the numbers from `start` on returns.
pub data Avail (b : Bitmask) (start : ℕ) : Bitmask × ℤ → Type 0 where
  full : ((n : ℕ) → start ≤ n → n < b.n_bits → taken b n ≡ true) → Avail b start (b, negsuc 0)
  got :
      (n : ℕ)
      → start ≤ n
      → n < b.n_bits
      → taken b n ≡ false
      → ((m : ℕ) → start ≤ m → m < n → taken b m ≡ true)
      → Avail b start (mark b n, pos n)

-- The two outcomes as records, over a result that is known.
pub record Got (b b' : Bitmask) (n : ℕ) : Type 0 where
  pub same : b' ≡ mark b n
  pub inside : n < b.n_bits
  pub free : taken b n ≡ false
  pub below : (m : ℕ) → 0 ≤ m → m < n → taken b m ≡ true

record Full (b b' : Bitmask) : Type 0 where
  same : b' ≡ b
  all : (n : ℕ) → 0 ≤ n → n < b.n_bits → taken b n ≡ true

abbrev Inverted : Bitmask → Bitmask × ℤ → Type 0
Inverted b (b', pos n) = Got b b' n
Inverted b (b', negsuc n) = Full b b'

invert : (b : Bitmask) (r : Bitmask × ℤ) → Avail b 0 r → Inverted b r
invert b r (full all) = record { same = refl; all = all }
invert b r (got n lo hi free below) = record {
  same = refl;
  inside = hi;
  free = free;
  below = below;
}

-- A number that lies in slot `i`, read off the word.
taken-slot :
    (b : Bitmask) (i q n v : ℕ)
    → n ≡ q + i * 64
    → q < 64
    → bit (get_or b.mask i 0) q ≡ v
    → taken b n ≡ not (v == 0)
unfolding taken
taken-slot b i q n v e lt h =
    let di : n / 64 ≡ i = omega arith in let mo : n % 64 ≡ q = omega arith in rw (di, mo, h)

-- The first `f` bits of slot `i` are set.
all_taken :
    (b : Bitmask) (i f : ℕ)
    → f ≤ 64
    → ((q : ℕ) → 0 ≤ q → q < f → bit (get_or b.mask i 0) q ≡ 1)
    → (n : ℕ) → 64 * i ≤ n
    → n < f + i * 64
    → taken b n ≡ true
all_taken b i f hf h n lo hi =
    taken-slot b i (n - 64 * i) n 1 (omega arith) (omega arith)
      (h (n - 64 * i) (omega arith) (omega arith))

bit-full_slot : (q : ℕ) → q < 64 → bit full_slot q ≡ 1
bit-full_slot q h = omega (arith, bit-complement 64 0 q (omega arith) h, bit-zero q)

Avail-skip :
    {b : Bitmask} (i : ℕ) {r : Bitmask × ℤ}
    → ((n : ℕ) → 64 * i ≤ n → n < 64 + i * 64 → taken b n ≡ true)
    → Avail b (64 * (i + 1)) r
    → Avail b (64 * i) r
Avail-skip {b} i used (full h) = full λ n lo hi. elim (Bool-cases (leb (64 * (i + 1)) n)) [
  | inl later ↦ h n (ground arith) hi
  | inr here ↦ used n lo (ground arith)
]
Avail-skip {b} i used (got n lo hi free below) = got n (omega arith) hi free λ m mlo mhi.
    elim (Bool-cases (leb (64 * (i + 1)) m)) [
      | inl later ↦ below m (ground arith) mhi
      | inr here ↦ used m mlo (ground arith)
    ]

take_bit-Avail :
    (b : Bitmask) (i f : ℕ)
    → b.bits_per_slot ≡ 64
    → f < 64
    → bit (get_or b.mask i 0) f ≡ 0
    → ((q : ℕ) → 0 ≤ q → q < f → bit (get_or b.mask i 0) q ≡ 1)
    → Avail b (64 * i) (take_bit b i f)
unfolding take_bit mark
take_bit-Avail b i f e hf free below = rw stride (elim (Bool-cases (leb b.n_bits (f + i * 64))) [
  | inl past ↦ rw past (full (λ n lo hi. all_taken b i f (omega arith) below n lo (ground arith)))
  | inr inside ↦ rw inside (rw (di, mo) at r inside)
])
  where
    stride : take_bit b i f ≡ (
        if leb b.n_bits (f + i * 64)
        then (b, negsuc 0)
        else (record b { mask = set b.mask i (set_bit (get_or b.mask i 0) f) }, pos (f + i * 64)))
    stride =
        ap
          (λ k. if leb b.n_bits (f + i * k) then (b, negsuc 0) else (
            record b { mask = set b.mask i (set_bit (get_or b.mask i 0) f) },
            pos (f + i * k),
          ))
          e

    di : (f + i * 64) / 64 ≡ i
    di = omega arith

    mo : (f + i * 64) % 64 ≡ f
    mo = omega arith

    r : leb b.n_bits (f + i * 64) ≡ false → Avail b (64 * i) (mark b (f + i * 64), pos (f + i * 64))
    r inside =
        got (f + i * 64) (omega arith) (ground arith) (taken-slot b i f (f + i * 64) 0 refl hf free)
          (λ m lo hi. all_taken b i f (omega arith) below m lo hi)

-- One round of the loop, given the rest.
slot-Avail :
    (b : Bitmask) (i : ℕ) (rest : Bitmask × ℤ) (r : ℤ)
    → b.bits_per_slot ≡ 64
    → Avail b (64 * (i + 1)) rest
    → Search (get_or b.mask i 0) 0 64 r
    → Avail b (64 * i) (elim r [ pos f ↦ take_bit b i f | negsuc _ ↦ rest ])
slot-Avail b i rest (pos f) e h (found lo hi free below) = take_bit-Avail b i f e hi free below
slot-Avail b i rest (negsuc n) e h (missing all_set) =
    Avail-skip i (all_taken b i 64 (omega arith) all_set) h

avail_from-Avail :
    (b : Bitmask) (left i : ℕ)
    → IsValid b
    → i + left ≡ b.slots
    → Avail b (64 * i) (avail_from b left i)
unfolding avail_from
avail_from-Avail b zero i v e = full (λ n lo hi. absurd (omega (arith, v.covered)))
avail_from-Avail b (suc left) i v e = elim (Bool-cases (get_or b.mask i 0 == full_slot)) [
  | inl all_set ↦
      let same : get_or b.mask i 0 ≡ full_slot = ground arith in
      rw all_set (
        Avail-skip i
          (all_taken b i 64 (omega arith) (λ q lo hi. ap (λ w. bit w q) same ∙ bit-full_slot q hi))
          (avail_from-Avail b left (i + 1) v (omega arith)))
  | inr some_free ↦ rw some_free (
      slot-Avail b i (avail_from b left (i + 1)) _ v.per_slot
        (avail_from-Avail b left (i + 1) v (omega arith))
        (subst (λ k. Search (get_or b.mask i 0) 0 64 (get_free_bit (get_or b.mask i 0) k))
          (sym v.per_slot) (get_free_bit-Search (get_or b.mask i 0) 64)))
]

pub get_avail_number-Avail : (b : Bitmask) → IsValid b → Avail b 0 (get_avail_number b)
unfolding get_avail_number
get_avail_number-Avail b v = avail_from-Avail b b.slots 0 v (omega arith)

pub get_avail_number-Got :
    (b b' : Bitmask) (n : ℕ) → IsValid b → get_avail_number b ≡ (b', pos n) → Got b b' n
get_avail_number-Got b b' n v e =
    invert b (b', pos n) (subst (Avail b 0) e (get_avail_number-Avail b v))

-- A number that is handed out was free and is below `n_bits`. Afterwards it is taken, every other
-- number is as before, and the bitmask is valid.
pub get_avail_number_fresh :
    (b b' : Bitmask) (n m : ℕ)
    → IsValid b
    → get_avail_number b ≡ (b', pos n)
    → (n < b.n_bits)
      × (taken b n ≡ false)
      × (taken b' m ≡ (if n == m then true else taken b m))
      × IsValid b'
get_avail_number_fresh b b' n m v e = (
  g.inside,
  g.free,
  ap (λ c. taken c m) g.same ∙ taken-mark b n m v g.inside,
  subst IsValid (sym g.same) (mark-IsValid b n v),
)
  where
    g : Got b b' n
    g = get_avail_number-Got b b' n v e

pub get_avail_number_least :
    (b b' : Bitmask) (n m : ℕ)
    → IsValid b
    → get_avail_number b ≡ (b', pos n)
    → m < n
    → taken b m ≡ true
get_avail_number_least b b' n m v e lt = (get_avail_number-Got b b' n v e).below m (omega arith) lt

-- If no number is handed out, the bitmask is unchanged and every number below `n_bits` is taken.
pub get_avail_number_full :
    (b b' : Bitmask) (n m : ℕ)
    → IsValid b
    → get_avail_number b ≡ (b', negsuc n)
    → m < b.n_bits
    → (b' ≡ b) × (taken b m ≡ true)
get_avail_number_full b b' n m v e lt = (f.same, f.all m (omega arith) lt)
  where
    f : Full b b'
    f = invert b (b', negsuc n) (subst (Avail b 0) e (get_avail_number-Avail b v))

-- As long as some number is free, one is handed out.
pub get_avail_number_total :
    (b : Bitmask) (m : ℕ)
    → IsValid b
    → m < b.n_bits
    → taken b m ≡ false
    → (n : ℕ) × ((get_avail_number b).1 ≡ pos n) × (n ≤ m)
get_avail_number_total b m v lt free =
    total_case b m (get_avail_number b) lt free (get_avail_number-Avail b v)
  where
    total_case :
        (b : Bitmask) (m : ℕ) (r : Bitmask × ℤ)
        → m < b.n_bits
        → taken b m ≡ false
        → Avail b 0 r
        → (n : ℕ) × (r.1 ≡ pos n) × (n ≤ m)
    total_case b m r lt free (full all) = cc (all m (omega arith) lt)
    total_case b m r lt free (got n lo hi f below) = (
      n,
      refl,
      elim (Bool-cases (leb n m)) [
        | inl le ↦ ground arith
        | inr gt ↦ cc (below m (omega arith) (ground arith))
      ],
    )

pub get_avail_number_n_bits :
    (b b' : Bitmask) (n : ℕ) → IsValid b → get_avail_number b ≡ (b', pos n) → b'.n_bits ≡ b.n_bits
unfolding mark
get_avail_number_n_bits b b' n v e = ap (λ c. c.n_bits) (get_avail_number-Got b b' n v e).same
