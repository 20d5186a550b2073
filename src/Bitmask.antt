-- ===== src/Bitmask.antt =====
-- utils/bitmask/bitmask.c and utils/include/bitmask.h: the allocator of tag descriptors, an array
-- of 64-bit words. The outcome of each memory allocation is an argument.
pub mod Word
pub mod Update
pub mod Avail
pub mod Clear
mod Tests
use Prim.Native.Nat.{bit_and, bit_or}
use tag_aos.Base.{
  ℕ, zero, suc, ◌+◌, ◌-◌, ◌*◌, ◌/◌, ◌%◌, ◌^◌, ◌<◌, ◌≤◌, ◌≡◌, ◌==◌, Bool, true, false, List, [], ◌∷◌,
  Option, none, some, ℤ, pos, negsuc, ltb, leb, if◌then◌else◌, of_bool, not, length, get_or, set,
  replicate,
}
use tag_aos.Base.Bits.{bit, complement}

-- `bitmask_t`
pub record Bitmask : Type 0 where
  pub mask : List ℕ  -- unsigned long long
  pub n_bits : ℕ
  pub slots : ℕ
  pub slot_size : ℕ
  pub bits_per_slot : ℕ

-- 0xFFFFFFFFFFFFFFFF
abbrev pub full_slot : ℕ
full_slot = 2 ^ 64 - 1

-- `mask & (1ULL << pos)`
abbrev pub check_bit : ℕ → ℕ → ℕ
check_bit mask pos_ = bit_and mask (2 ^ pos_)

-- `*mask |= (1ULL << pos)`
abbrev pub set_bit : ℕ → ℕ → ℕ
set_bit mask pos_ = bit_or mask (2 ^ pos_)

-- `*mask &= ~(1ULL << pos)`
abbrev pub clear_bit : ℕ → ℕ → ℕ
clear_bit mask pos_ = bit_and mask (complement 64 (2 ^ pos_))

-- The bitmask of `n` bits, when both allocations succeed.
unfoldable pub fresh_bitmask : ℕ → Bitmask
fresh_bitmask n =
    let slot_size : ℕ = 8 in
    let number_slot = n / (slot_size * 8) + of_bool (not (n % (slot_size * 8) == 0)) in
    record {
      mask = replicate number_slot 0;
      n_bits = n;
      slots = number_slot;
      slot_size = slot_size;
      bits_per_slot = slot_size * 8;
    }

-- `mask_ok` and `struct_ok` tell whether the two allocations succeed.
pub initialize_bitmask : (mask_ok struct_ok : Bool) → ℤ → Option Bitmask
unfolding fresh_bitmask
initialize_bitmask mask_ok struct_ok (negsuc n) = none
initialize_bitmask mask_ok struct_ok (pos n) =
    if ltb n 1
    then none
    else if mask_ok
    then if struct_ok then some (fresh_bitmask n) else none
    else none

-- The loop of `get_free_bit` at `bit`, with `left` rounds to go.
pub free_bit_from : (left bit mask : ℕ) → ℤ
free_bit_from zero bit mask = negsuc 0
free_bit_from (suc left) bit mask =
    if check_bit mask bit == 0 then pos bit else free_bit_from left (bit + 1) mask

pub get_free_bit : (mask bits_per_slot : ℕ) → ℤ
unfolding free_bit_from
get_free_bit mask bits_per_slot = free_bit_from bits_per_slot 0 mask

-- The body of the loop of `get_avail_number` once a free bit of slot `i` is known.
pub take_bit : Bitmask → (i free_bit : ℕ) → Bitmask × ℤ
take_bit b i free_bit =
    let number = free_bit + i * b.bits_per_slot in
    if leb b.n_bits number
    then (b, negsuc 0)
    else (record b { mask = set b.mask i (set_bit (get_or b.mask i 0) free_bit) }, pos number)

-- The loop of `get_avail_number` at slot `i`, with `left` slots to go.
pub avail_from : Bitmask → (left i : ℕ) → Bitmask × ℤ
unfolding get_free_bit take_bit
avail_from b zero i = (b, negsuc 0)
avail_from b (suc left) i =
    let slot_mask = get_or b.mask i 0 in
    let rest = avail_from b left (i + 1) in
    if slot_mask == full_slot then rest else elim (get_free_bit slot_mask b.bits_per_slot) [
      | pos free_bit ↦ take_bit b i free_bit
      | negsuc _ ↦ rest
    ]

-- The bitmask afterwards, and the number or -1.
unfoldable pub get_avail_number : Bitmask → Bitmask × ℤ
unfolding avail_from
get_avail_number b = avail_from b b.slots 0

-- `number` is a descriptor that some tag holds, so it is not negative.
unfoldable pub clear_number : Bitmask → ℕ → Bitmask × ℤ
clear_number b number =
    let slot = number / (8 * 8) in
    let bit = number % b.bits_per_slot in
    let slot_mask = get_or b.mask slot 0 in
    if leb b.n_bits number
    then (b, negsuc 0)
    else if check_bit slot_mask bit == 0
    then (b, pos 0)
    else (record b { mask = set b.mask slot (clear_bit slot_mask bit) }, pos 1)

-- The abstract view: whether number `n` is handed out.
unfoldable pub taken : Bitmask → ℕ → Bool
taken b n = not (bit (get_or b.mask (n / 64) 0) (n % 64) == 0)

-- What the four fields besides the array say, and that its words fit 64 bits.
pub record IsValid (b : Bitmask) : Type 0 where
  pub per_slot : b.bits_per_slot ≡ 64
  pub covered : b.n_bits ≤ 64 * b.slots
  pub sized : length b.mask ≡ b.slots
  pub words : (i : ℕ) → get_or b.mask i 0 < 2 ^ 64
