-- ===== src/Disk/Setup.antt =====
-- What rb_init of the RAM disk holds when it returns.
use linuxpedia.Prelude.{ℕ, ◌≡◌, refl, ◌<◌, true, false, inl, inr, ◌⊎◌, arith, ◌==◌, Bool-cases}
use linuxpedia.Prelude.Int.{pos, negsuc, is_neg}
use linuxpedia.Sfs.Entries.{to_u32}
use linuxpedia.Disk.{nothing_held, Answers, init_queue_disk, rb_init, rb_cleanup}

-- Whatever the kernel answers, rb_init either returns 0, and rb_cleanup then gives back all that
-- it holds, or returns an error and holds nothing.
pub rb_init-frees :
    (a : Answers)
    → (((rb_init a).0 ≡ pos 0) × (rb_cleanup (rb_init a).1 ≡ nothing_held))
      ⊎ ((is_neg (rb_init a).0 ≡ true) × ((rb_init a).1 ≡ nothing_held))
unfolding rb_init init_queue_disk
rb_init-frees a = elim (Bool-cases a.vmalloc) [
  | inr v ↦ rw v (inr (refl, refl))
  | inl v ↦ elim (Bool-cases (to_u32 a.register_blkdev == 0)) [
    | inl m ↦ rw (v, m) (inr (refl, refl))
    | inr m ↦ elim (Bool-cases a.init_queue) [
      | inr q ↦ rw (v, m, q) (inr (refl, refl))
      | inl q ↦ elim (Bool-cases a.alloc_disk) [
        | inr d ↦ rw (v, m, q, d) (inr (refl, refl))
        | inl d ↦ rw (v, m, q, d) (inl (refl, refl))
      ]
    ]
  ]
]

-- If register_blkdev fails with an error number below 2 ^ 32 - 1 and the other requests succeed,
-- rb_init returns 0 although no major number is held.
pub rb_init-unregistered :
    (a : Answers) (e : ℕ)
    → a.register_blkdev ≡ negsuc e
    → e < 4294967295
    → a.vmalloc ≡ true
    → a.init_queue ≡ true
    → a.alloc_disk ≡ true
    → ((rb_init a).0 ≡ pos 0) × ((rb_init a).1.major ≡ false)
unfolding rb_init init_queue_disk
rb_init-unregistered a e r small v q d =
    let m : (to_u32 (negsuc e) == 0) ≡ false = ground arith in rw (v, r, m, q, d) (refl, refl)
