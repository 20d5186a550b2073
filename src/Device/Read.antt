-- ===== src/Device/Read.antt =====
-- `dev_read` of tag-module/tag-dev-driver.c: the answer of a read.
use mathlib.Core.Path.{subst}
use tag_aos.Base.{
  ℕ, zero, suc, ◌+◌, ◌-◌, ◌≤◌, ◌≡◌, refl, sym, ap, ◌⊎◌, inl, inr, ◌==◌, arith, Bool, not, ◌||◌,
  Option, none, some, List, [], ◌∷◌, ◌++◌, pos, negsuc, leb, min, if-elim, length, take, drop,
  length-take,
}
use tag_aos.Tag.{max_tags}
use tag_aos.Service.{Services}
use tag_aos.Device.{
  ReadCall, Progress, more, full, failed, freed, Answer, refused, deliver, finish, read_tags,
  dev_read, header, divider,
}

-- An answer to a read of `size` bytes at offset `off`.
abbrev pub Answers : (size off : ℕ) → Option Answer → Type 0
Answers size off none = Unit
Answers size off (some o) =
    ((o.code ≡ pos (length o.bytes))
      × (length o.bytes ≤ size)
      × (o.offset ≡ pos (off + length o.bytes)))
    ⊎ ((o.code ≡ negsuc 0) × (o.bytes ≡ []) × (o.offset ≡ pos off))

length-drop : (n : ℕ) (xs : List ℕ) → length (drop n xs) ≡ length xs - n
length-drop zero xs = omega arith
length-drop (suc n) [] = omega arith
length-drop (suc n) (x ∷ xs) = omega (arith, length-drop n xs)

nothing-Answers : (size off : ℕ) → Answers size off (some (refused (pos 0) (pos off)))
nothing-Answers size off = inl (refl, omega arith, ap pos (omega arith))

deliver-Answers :
    (copy_ok : Bool) (size off relative_off : ℕ) (buffer : List ℕ)
    → Answers size off (some (deliver copy_ok size off relative_off buffer))
unfolding deliver
deliver-Answers copy_ok size off relative_off buffer =
    if-elim (λ (o : Answer). Answers size off (some o)) (leb (length buffer) relative_off)
      (λ _. nothing-Answers size off)
      (λ _.
        if-elim (λ (o : Answer). Answers size off (some o)) copy_ok
          (λ _. inl (ap pos (sym exact), omega (arith, exact), ap (λ n. pos (off + n)) (sym exact)))
          (λ _. inr (refl, refl, refl)))
  where
    exact :
        length (take (min size (length buffer - relative_off)) (drop relative_off buffer))
        ≡ min size (length buffer - relative_off)
    exact = omega (
      arith,
      length-take (min size (length buffer - relative_off)) (drop relative_off buffer),
      length-drop relative_off buffer,
    )

finish-Answers :
    (copy_ok : Bool) (size off : ℕ) (p : Progress × ℕ)
    → Answers size off (finish copy_ok size off p)
unfolding finish
finish-Answers copy_ok size off (more text, relative_off) =
    deliver-Answers copy_ok size off relative_off text.buffer
finish-Answers copy_ok size off (full text, relative_off) =
    deliver-Answers copy_ok size off relative_off text.buffer
finish-Answers copy_ok size off (failed, relative_off) = inr (refl, refl, refl)
finish-Answers copy_ok size off (freed, relative_off) = tt

dev_read-Answers :
    (c : ReadCall) (s : Services) (has_buf : Bool) (size off : ℕ)
    → Answers size off (dev_read c s has_buf size (pos off))
unfolding dev_read
dev_read-Answers c s has_buf size off =
    if-elim (Answers size off) (size == 0) (λ _. nothing-Answers size off)
      (λ _.
        if-elim (Answers size off) (not has_buf) (λ _. inr (refl, refl, refl))
          (λ _.
            if-elim (Answers size off) (not c.first_ok || (not c.header_ok || not c.divider_ok))
              (λ _. inr (refl, refl, refl))
              (λ _. finish-Answers c.copy_ok size off (
                read_tags c s max_tags 0 size off
                  (record { buffer = header ++ divider; nbytes = 0; curr_block = 1 })))))

-- A read at an offset that is not negative either fails with -1 and leaves the offset, or returns
-- the number of the bytes that it delivers, which are no more than it was asked for, and moves the
-- offset by as many.
pub dev_read_answers :
    (c : ReadCall) (s : Services) (has_buf : Bool) (size off : ℕ) (o : Answer)
    → dev_read c s has_buf size (pos off) ≡ some o
    → ((o.code ≡ pos (length o.bytes))
        × (length o.bytes ≤ size)
        × (o.offset ≡ pos (off + length o.bytes)))
      ⊎ ((o.code ≡ negsuc 0) × (o.bytes ≡ []) × (o.offset ≡ pos off))
dev_read_answers c s has_buf size off o e =
    subst (Answers size off) e (dev_read-Answers c s has_buf size off)
