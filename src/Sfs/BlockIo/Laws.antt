-- ===== src/Sfs/BlockIo/Laws.antt =====
-- Where the entries of the table lie on the block device: every entry in one block, no two over
-- one another, and no address that wraps.
use native.Mathlib.Nat.{div-add-mod, mod-lt}
use linuxpedia.Prelude.{ℕ, ◌+◌, ◌*◌, ◌/◌, ◌%◌, ◌^◌, ◌≤◌, ◌<◌, ◌≡◌, ◌≢◌, ◌⊎◌, ap, ◌∙◌, arith}
use linuxpedia.Sfs.Layout.{SuperBlock, u32_mod}
use linuxpedia.Prelude.{refl, inl, inr}
use linuxpedia.Prelude.Int.{ℤ}
use linuxpedia.Sfs.BlockIo.{Transfer, failed, copied, entry_offset, abs_pos}

-- What mkfs and the block layer see to: a device block holds a whole number of entries, and the
-- entry table starts on an entry boundary and ends within 4 GiB.
pub record HasTable (bd_block_size : ℕ) (sb : SuperBlock) : Type 0 where
  pub block_positive : 0 < bd_block_size
  pub block_slots : bd_block_size % 64 ≡ 0
  pub block_small : bd_block_size ≤ 2 ^ 31
  pub table_aligned : sb.entry_table_block_start * sb.block_size % 64 ≡ 0
  pub table_end : sb.entry_table_block_start * sb.block_size + 64 * sb.entry_count ≤ u32_mod

-- The byte address of entry `ino`.
abbrev pub slot : SuperBlock → ℕ → ℕ
slot sb ino = abs_pos sb sb.entry_table_block_start (entry_offset ino)

module _ {bd : ℕ} {sb : SuperBlock} (g : HasTable bd sb) where
  pub slot_lem :
      (i : ℕ) → i < sb.entry_count → slot sb i ≡ sb.entry_table_block_start * sb.block_size + 64 * i
  slot_lem i h = omega arith

  slot-mod : (i : ℕ) → i < sb.entry_count → slot sb i % 64 ≡ 0
  slot-mod i h = omega (arith, slot_lem i h)

-- An address on an entry boundary, in blocks of a whole number of entries.
offset-mod : (bd a : ℕ) → 0 < bd → bd % 64 ≡ 0 → a % 64 ≡ 0 → a % bd % 64 ≡ 0
offset-mod bd a p hb ha =
    let k = bd / 64 in
    let q = a / bd in
    let e : bd ≡ 64 * k = omega arith in
    let f : bd * q ≡ 64 * (k * q) = ap (λ (t : ℕ). t * q) e ∙ omega arith in
    omega (arith, f, div-add-mod a bd)

module _ {bd : ℕ} {sb : SuperBlock} (g : HasTable bd sb) where
  -- The entry ends inside its block, so the test `offset + len > bd_block_size` fails.
  pub slot_fits : (i : ℕ) → i < sb.entry_count → slot sb i % bd + 64 ≤ bd
  slot_fits i h = omega (
    arith,
    offset-mod bd (slot sb i) g.block_positive g.block_slots (slot-mod g i h),
    mod-lt (slot sb i) g.block_positive,
    g.block_slots,
  )

  -- Two entries in one block do not overlap.
  pub slots_apart :
      (i j : ℕ)
      → i < sb.entry_count
      → j < sb.entry_count
      → i ≢ j
      → slot sb i / bd ≡ slot sb j / bd
      → (slot sb i % bd + 64 ≤ slot sb j % bd) ⊎ (slot sb j % bd + 64 ≤ slot sb i % bd)
  slots_apart i j hi hj ne same = omega (
    arith,
    div-add-mod (slot sb i) bd,
    div-add-mod (slot sb j) bd,
    ap (λ (t : ℕ). bd * t) same,
    slot_lem g i hi,
    slot_lem g j hj,
  )

pub Transfer-cases :
    {A : Type 0} (t : Transfer A) → ((e : ℤ) × (t ≡ failed e)) ⊎ ((x : A) × (t ≡ copied x))
Transfer-cases (failed e) = inl (e, refl)
Transfer-cases (copied x) = inr (x, refl)
