-- ===== src/Drivers/Vram.antt =====
-- device_driver_examples/lfy3_video_ra/vdrv.c: the video memory as a file.
use linuxpedia.Prelude.{
  ℕ, ◌+◌, ◌-◌, ◌≤◌, ◌<◌, ◌≡◌, ap, ◌∙◌, false, Option, some, List, [], ◌∷◌, length, take, slice,
  splice, slice-splice_self, length-take, if◌then◌else◌, leb, ltb, arith, min, lt→leb, le→ltb,
}
use linuxpedia.Prelude.Int.{ℤ, pos, minus_one, neg_efault, is_neg, eq_ℤ}
use linuxpedia.Drivers.Resources.{
  region, cdev, class, device, mapping, Stack, releases, Init, fail, to_int, is_null, hold,
  hold_code, Kernel,
}

abbrev pub vram_size : ℕ
vram_size = 0x20000

unfoldable pub vram_init : Kernel → Init
vram_init k =
    if is_null k.ioremap
    then some (minus_one, [])
    else let s₀ = hold k.ioremap mapping [] in
      if is_neg (to_int k.alloc_chrdev_region)
      then some (minus_one, s₀)
      else let s₁ = hold_code k.alloc_chrdev_region region s₀ in
        if is_null k.class_create
        then fail minus_one (region ∷ []) s₁
        else let s₂ = hold k.class_create class s₁ in
          if is_null k.device_create
          then fail minus_one (class ∷ region ∷ []) s₂
          else let s₃ = hold k.device_create device s₂ in
            if eq_ℤ (to_int k.cdev_add) minus_one
            then fail minus_one (device ∷ class ∷ region ∷ []) s₃
            else some (pos 0, hold_code k.cdev_add cdev s₃)

unfoldable pub vram_exit : Stack → Option Stack
vram_exit s = releases (cdev ∷ device ∷ class ∷ region ∷ mapping ∷ []) s

-- `len` after the two tests of my_read and my_write, where `off` is inside.
abbrev pub clipped : (off len : ℕ) → ℕ
clipped off len = if ltb vram_size (off + len) then vram_size - off else len

-- The result, the bytes that the user receives, and `*off`. The user's memory takes the first
-- `reaches` bytes.
unfoldable pub vram_read : (vram : List ℕ) (off len reaches : ℕ) → ℤ × List ℕ × ℕ
vram_read vram off len reaches =
    if leb vram_size off
    then (pos 0, [], off)
    else let len' = clipped off len in
      if ltb reaches len'
      then (neg_efault, slice vram off reaches, off)
      else (pos len', slice vram off len', off + len')

-- The result, `*off` and the memory. The first `reaches` bytes of `buf` can be read.
unfoldable pub vram_write : (vram : List ℕ) (off : ℕ) (buf : List ℕ) (reaches : ℕ) → ℤ × ℕ × List ℕ
vram_write vram off buf reaches =
    if leb vram_size off
    then (pos 0, off, vram)
    else let len' = clipped off (length buf) in
      if ltb reaches len'
      then (neg_efault, off, splice vram off (take reaches buf))
      else (pos len', off + len', splice vram off (take len' buf))

-- A write inside the memory takes the bytes that fit, which a read at the same place gives back.
pub vram_read-vram_write :
    (vram : List ℕ) (off : ℕ) (buf : List ℕ) (reaches : ℕ)
    → length vram ≡ vram_size
    → off < vram_size
    → length buf ≤ reaches
    → let written = vram_write vram off buf reaches in
      let fits = min (length buf) (vram_size - off) in
      (written.0 ≡ pos fits) × ((vram_read written.2 off (length buf) reaches).1 ≡ take fits buf)
unfolding vram_read vram_write
vram_read-vram_write vram off buf reaches size inside readable =
    let n = clipped off (length buf) in
    let amount : n ≡ min (length buf) (vram_size - off) = ground arith in
    let all : ltb reaches n ≡ false = le→ltb reaches n (omega (arith, amount)) in
    rw (lt→leb vram_size off inside, all)
      (
        ap pos amount,
        slice-splice_self vram off (take n buf) n (omega (arith, length-take n buf, amount))
              (omega (arith, amount))
            ∙ ap (λ m. take m buf) amount,
      )
