-- ===== src/Device/Append.antt =====
-- `append_buffer` of tag-module/tag-dev-driver.c.
use mathlib.Core.Path.{subst}
use tag_aos.Base.{
  ℕ, ◌+◌, ◌*◌, ◌≤◌, ◌≡◌, refl, ◌∙◌, arith, Option, none, some, List, ◌++◌, ltb, if-elim, length,
  length-append,
}
use tag_aos.Device.{char_block, Text, ReadCall, append_buffer, header, divider}

-- All of the text but the header and the first divider is counted, and the count fits the blocks.
pub record IsCounted (text : Text) : Type 0 where
  pub counted : length text.buffer ≡ text.nbytes + 108
  pub fits : text.nbytes ≤ char_block * text.curr_block

abbrev Appends : Text → List ℕ → Option Text → Type 0
Appends text source none = Unit
Appends text source (some text') = (text'.buffer ≡ text.buffer ++ source) × IsCounted text'

append_buffer-Appends :
    (c : ReadCall) (text : Text) (source : List ℕ)
    → IsCounted text
    → length source ≤ char_block
    → Appends text source (append_buffer c text source)
unfolding append_buffer
append_buffer-Appends c text source v short =
    if-elim (Appends text source) (ltb (char_block * text.curr_block) (text.nbytes + length source))
      (λ _.
        if-elim (Appends text source) (c.block_ok (text.curr_block + 1))
          (λ _. (refl, record { counted = longer; fits = omega (arith, v.fits, short) })) (λ _. tt))
      (λ roomy. (refl, record { counted = longer; fits = ground (arith, roomy) }))
  where
    longer : length (text.buffer ++ source) ≡ text.nbytes + length source + 108
    longer = length-append text.buffer source ∙ omega (arith, v.counted)

-- What `append_buffer` returns is the old text with the new piece behind it. The count of the bytes
-- stays within the blocks that are allocated, but it leaves out the 108 bytes of the header and the
-- first divider, so the text itself can be longer than the memory by up to 107 bytes.
pub append_buffer_fits :
    (c : ReadCall) (text text' : Text) (source : List ℕ)
    → IsCounted text
    → length source ≤ char_block
    → append_buffer c text source ≡ some text'
    → (text'.buffer ≡ text.buffer ++ source)
      × IsCounted text'
      × (length text'.buffer ≤ (char_block * text'.curr_block + 1) + 107)
append_buffer_fits c text text' source v short e =
    let (joined, v') =
      subst (Appends text source) e (append_buffer-Appends c text source v short) in
    (joined, v', omega (arith, v'.counted, v'.fits))

-- The text that a read starts with.
pub first_text-IsCounted :
    IsCounted (record { buffer = header ++ divider; nbytes = 0; curr_block = 1 })
unfolding header divider
first_text-IsCounted = record { counted = refl; fits = omega arith }
