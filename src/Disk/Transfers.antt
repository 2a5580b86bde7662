-- ===== src/Disk/Transfers.antt =====
-- What rb_transfer of the RAM disk writes and reads back.
use linuxpedia.Prelude.{
  ℕ, ◌+◌, ◌*◌, ◌/◌, ◌%◌, ◌≤◌, ◌≡◌, refl, ◌∙◌, sym, ap, ap₂, Bool, true, false, List, [], ◌∷◌,
  length, take, slice, overwrite, overwrite-all, take-all, length-splice, slice-splice_self,
  slice-splice_before, arith, ◌==◌, if◌then◌else◌, eq→==,
}
use linuxpedia.Prelude.Int.{ℤ, pos, neg_eio}
use linuxpedia.Disk.{ramdevice_write, transfer_loop, rb_transfer}

abbrev pub sector_count : List (List ℕ) → ℕ
sector_count [] = 0
sector_count (buffer ∷ segments) = length buffer / 512 + sector_count segments

-- Segments of whole sectors, one list as long as the other piece by piece.
pub data Alike : List (List ℕ) → List (List ℕ) → Type 0 where
  alike_nil : Alike [] []
  alike_cons :
      {a b : List ℕ} {xss yss : List (List ℕ)}
      → length a ≡ length b
      → length a % 512 ≡ 0
      → Alike xss yss
      → Alike (a ∷ xss) (b ∷ yss)

-- A write leaves what lies before it.
transfer_loop-before :
    (start off : ℕ) (ret : ℤ) (xss : List (List ℕ)) (dev : List ℕ) (p n : ℕ)
    → p + n ≤ (start + off) * 512
    → slice (transfer_loop true start off ret xss dev).dev_data p n ≡ slice dev p n
unfolding transfer_loop
transfer_loop-before start off ret [] dev p n h = refl
transfer_loop-before start off ret (a ∷ xss) dev p n h =
    let s = length a / 512 in
    let dev' = ramdevice_write dev (start + off) a s in
    transfer_loop-before start (off + s) _ xss dev' p n (omega arith)
    ∙ slice-splice_before dev ((start + off) * 512) (take (s * 512) a) p n h

-- The result code and the count of a transfer of whole sectors.
transfer_loop-code :
    (write : Bool) (start off : ℕ) (ret : ℤ) (xss yss : List (List ℕ)) (dev : List ℕ)
    → Alike xss yss
    → ((transfer_loop write start off ret xss dev).ret ≡ ret)
      × ((transfer_loop write start off ret xss dev).sector_offset ≡ off + sector_count xss)
unfolding transfer_loop
transfer_loop-code write start off ret [] [] dev alike_nil = (refl, omega arith)
transfer_loop-code write start off ret [] (b ∷ yss) dev e = elim e [ ]
transfer_loop-code write start off ret (a ∷ xss) [] dev e = elim e [ ]
transfer_loop-code write start off ret (a ∷ xss) (b ∷ yss) dev (alike_cons l whole r) =
    rw (eq→== _ _ whole) (
      let (code, count) = transfer_loop-code write start (off + length a / 512) ret xss yss _ r in
      (code, count ∙ omega arith))

Alike-sym : {xss yss : List (List ℕ)} → Alike xss yss → Alike yss xss
Alike-sym alike_nil = alike_nil
Alike-sym (alike_cons {a} {b} l whole r) =
    alike_cons (sym l) (ap (λ n. n % 512) (sym l) ∙ whole) (Alike-sym r)

Alike-count : {xss yss : List (List ℕ)} → Alike xss yss → sector_count xss ≡ sector_count yss
Alike-count alike_nil = refl
Alike-count (alike_cons l whole r) = ap₂ (λ n m. n / 512 + m) l (Alike-count r)

transfer_loop-written :
    (start off : ℕ) (ret ret' : ℤ) (xss yss : List (List ℕ)) (dev : List ℕ)
    → Alike xss yss
    → (start + off + sector_count xss) * 512 ≤ length dev
    → (transfer_loop false start off ret' yss
        (transfer_loop true start off ret xss dev).dev_data).segments
      ≡ xss
unfolding transfer_loop
transfer_loop-written start off ret ret' [] [] dev alike_nil h = refl
transfer_loop-written start off ret ret' [] (b ∷ yss) dev e h = elim e [ ]
transfer_loop-written start off ret ret' (a ∷ xss) [] dev e h = elim e [ ]
transfer_loop-written start off ret ret' (a ∷ xss) (b ∷ yss) dev (alike_cons l whole r) h =
    let s = length a / 512 in
    let at_off = (start + off) * 512 in
    let whole_a : s * 512 ≡ length a = omega arith in
    let taken : take (s * 512) a ≡ a = take-all (s * 512) a (omega arith) in
    let dev' = ramdevice_write dev (start + off) a s in
    let ret₁ = if length a % 512 == 0 then ret else neg_eio in
    let after = (transfer_loop true start (off + s) ret₁ xss dev').dev_data in
    let here : overwrite b (slice after at_off (length b / 512 * 512)) ≡ a =
      ap (λ n. overwrite b (slice after at_off (n / 512 * 512))) (sym l)
      ∙ ap (overwrite b) (
          transfer_loop-before start (off + s) ret₁ xss dev' at_off (s * 512) (omega arith)
          ∙ slice-splice_self dev at_off (take (s * 512) a) (s * 512)
              (whole_a ∙ ap length (sym taken)) (omega arith)
          ∙ taken)
      ∙ overwrite-all b a (sym l) in
    let ret₂ = if length b % 512 == 0 then ret' else neg_eio in
    ap₂ (◌∷◌) here (
      ap (λ n. (transfer_loop false start (off + n / 512) ret₂ yss after).segments) (sym l)
      ∙ transfer_loop-written start (off + s) ret₁ ret₂ xss yss dev' r
          (omega (arith, length-splice dev at_off (take (s * 512) a))))

-- A write request of whole sectors inside the disk returns 0, and a read request of the same
-- sectors into buffers of the same lengths then returns 0 and gives what was written.
pub rb_transfer-written :
    (start : ℕ) (xss yss : List (List ℕ)) (dev : List ℕ)
    → Alike xss yss
    → (start + sector_count xss) * 512 ≤ length dev
    → (let written = rb_transfer true start (sector_count xss) xss dev in
        let read = rb_transfer false start (sector_count xss) yss written.2 in
        (written.0 ≡ pos 0) × (read.0 ≡ pos 0) × (read.1 ≡ xss))
unfolding rb_transfer
rb_transfer-written start xss yss dev alike h =
    let (code, count) = transfer_loop-code true start 0 (pos 0) xss yss dev alike in
    let (code', count') =
      transfer_loop-code false start 0 (pos 0) yss xss
        (transfer_loop true start 0 (pos 0) xss dev).dev_data (Alike-sym alike) in
    (
      rw (same _ _ count) code,
      rw (same _ _ (count' ∙ ap (λ n. 0 + n) (sym (Alike-count alike)))) code',
      transfer_loop-written start 0 (pos 0) (pos 0) xss yss dev alike (omega arith),
    )
  where
    same : (n m : ℕ) → n ≡ 0 + m → (n == m) ≡ true
    same n m e = ground arith
