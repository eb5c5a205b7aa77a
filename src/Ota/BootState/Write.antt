-- ===== src/Ota/BootState/Write.antt =====
-- `boot_state_write` against `boot_state_read` (firmware/src/ota/boot_state.c).
use rp2040_eth_panel.Prelude.{
  ℕ, ◌+◌, ◌-◌, ◌^◌, ◌≤◌, ◌<◌, ◌≡◌, ◌⊎◌, inl, inr, sym, ap, ◌∙◌, true, false, none, some,
  if◌then◌else◌, arith,
}
use rp2040_eth_panel.Ota.Layout.{
  BootRecord, IsRecord, bootstate_a_offset, bootstate_b_offset, flash_sector,
}
use rp2040_eth_panel.Ota.Flash.{Flash, FlashDriver}
use rp2040_eth_panel.Ota.BootState.{
  record_in, rec_valid, boot_state_read, boot_state_write, write_target, stamp,
}
use rp2040_eth_panel.Ota.BootState.Sector.{
  IsSector, stamp-IsRecord, rewrite_sector, rewrite_sector-outside, rewrite_sector-record_in,
  rewrite_sector-rec_valid, record_in_congr,
}

abbrev offset_a : ℕ
offset_a = bootstate_a_offset

abbrev offset_b : ℕ
offset_b = bootstate_b_offset

-- The other sector holds nothing valid, or nothing newer than `m`.
abbrev NotNewer : Flash → ℕ → ℕ → Type 0
NotNewer f t m = (rec_valid f t ≡ false) ⊎ ((record_in f t).seq ≤ m)

-- The sector to write holds nothing valid, or is older than the other one.
abbrev Spare : Flash → ℕ → ℕ → Type 0
Spare f t u =
    (rec_valid f t ≡ false)
    ⊎ ((rec_valid f u ≡ true) × ((boot_state_read f ≡ some (record_in f u))))

IsSector-a : IsSector offset_a
IsSector-a = omega arith

IsSector-b : IsSector offset_b
IsSector-b = omega arith

write_target_cases :
    (f : Flash)
    → let (m, t) = write_target f in
      ((t ≡ offset_a) × NotNewer f offset_b m × Spare f offset_a offset_b)
      ⊎ ((t ≡ offset_b) × NotNewer f offset_a m × Spare f offset_b offset_a)
unfolding write_target boot_state_read
write_target_cases f = ground arith

pub write_target-of_read :
    (f : Flash) (r : BootRecord) → boot_state_read f ≡ some r → (write_target f).0 ≡ r.seq
unfolding write_target boot_state_read
write_target-of_read f r e = ground arith

-- What is read, from what the sectors hold.
read_newer_a :
    (g : Flash) (r : BootRecord)
    → rec_valid g offset_a ≡ true
    → record_in g offset_a ≡ r
    → (rec_valid g offset_b ≡ false) ⊎ ((record_in g offset_b).seq < r.seq)
    → boot_state_read g ≡ some r
unfolding boot_state_read
read_newer_a g r v e other = ground (arith, ap (λ (t : BootRecord). t.seq) e)

read_newer_b :
    (g : Flash) (r : BootRecord)
    → rec_valid g offset_b ≡ true
    → record_in g offset_b ≡ r
    → (rec_valid g offset_a ≡ false) ⊎ ((record_in g offset_a).seq < r.seq)
    → boot_state_read g ≡ some r
unfolding boot_state_read
read_newer_b g r v e other = ground (arith, ap (λ (t : BootRecord). t.seq) e)

pub stamp-seq : (m : ℕ) (r : BootRecord) → m < 2 ^ 32 - 1 → (stamp m r).seq ≡ m + 1
unfolding stamp
stamp-seq m r h = omega arith

module _ (driver : FlashDriver) where
  read_after_a :
      (f : Flash) (m : ℕ) (r : BootRecord)
      → IsRecord r
      → NotNewer f offset_b m
      → m < 2 ^ 32 - 1
      → boot_state_read (rewrite_sector driver f offset_a (stamp m r)) ≡ some (stamp m r)
  read_after_a f m r h other room =
      let g = rewrite_sector driver f offset_a (stamp m r) in
      let kept = record_in_congr g f offset_b (λ a p q.
        rewrite_sector-outside driver f offset_a a (stamp m r) IsSector-a (inr (omega arith))) in
      read_newer_a g (stamp m r) (rewrite_sector-rec_valid driver f offset_a m r IsSector-a h)
        (rewrite_sector-record_in driver f offset_a (stamp m r) IsSector-a (stamp-IsRecord m r h))
        (rw (kept.0, kept.1) (older other))
    where
      older :
          NotNewer f offset_b m
          → (rec_valid f offset_b ≡ false) ⊎ ((record_in f offset_b).seq < (stamp m r).seq)
      older (inl e) = inl e
      older (inr e) = inr (omega (arith, stamp-seq m r room))

  read_after_b :
      (f : Flash) (m : ℕ) (r : BootRecord)
      → IsRecord r
      → NotNewer f offset_a m
      → m < 2 ^ 32 - 1
      → boot_state_read (rewrite_sector driver f offset_b (stamp m r)) ≡ some (stamp m r)
  read_after_b f m r h other room =
      let g = rewrite_sector driver f offset_b (stamp m r) in
      let kept = record_in_congr g f offset_a (λ a p q.
        rewrite_sector-outside driver f offset_b a (stamp m r) IsSector-b (inl (omega arith))) in
      read_newer_b g (stamp m r) (rewrite_sector-rec_valid driver f offset_b m r IsSector-b h)
        (rewrite_sector-record_in driver f offset_b (stamp m r) IsSector-b (stamp-IsRecord m r h))
        (rw (kept.0, kept.1) (older other))
    where
      older :
          NotNewer f offset_a m
          → (rec_valid f offset_a ≡ false) ⊎ ((record_in f offset_a).seq < (stamp m r).seq)
      older (inl e) = inl e
      older (inr e) = inr (omega (arith, stamp-seq m r room))

  -- What `boot_state_write` persists is what `boot_state_read` finds next: the caller's record,
  -- whose fields fit their types, with magic, sequence number and checksum filled in. The
  -- sequence numbers must not be used up.
  pub boot_state_read-write :
      (f : Flash) (r : BootRecord)
      → IsRecord r
      → (write_target f).0 < 2 ^ 32 - 1
      → let (f', r') = boot_state_write driver f r in boot_state_read f' ≡ some r'
  unfolding boot_state_write
  boot_state_read-write f r h room =
      let (m, t) = write_target f in
      elim (write_target_cases f) [
        | inl (e, other, spare) ↦ rw e (read_after_a f (write_target f).0 r h other room)
        | inr (e, other, spare) ↦ rw e (read_after_b f (write_target f).0 r h other room)
      ]

  -- Nothing outside the two boot-state sectors changes.
  pub boot_state_write-outside :
      (f : Flash) (r : BootRecord) (a : ℕ) → a < offset_a → (boot_state_write driver f r).0 a ≡ f a
  unfolding boot_state_write
  boot_state_write-outside f r a h = elim (write_target_cases f) [
    | inl (e, other, spare) ↦
        rw e (
          rewrite_sector-outside driver f offset_a a (stamp (write_target f).0 r) IsSector-a
            (inl h))
    | inr (e, other, spare) ↦ rw e (
        rewrite_sector-outside driver f offset_b a (stamp (write_target f).0 r) IsSector-b
          (inl (omega arith)))
  ]

only_b :
    (g : Flash)
    → rec_valid g offset_a ≡ false
    → boot_state_read g ≡ (if rec_valid g offset_b then some (record_in g offset_b) else none)
unfolding boot_state_read
only_b g e = ground arith

only_a :
    (g : Flash)
    → rec_valid g offset_b ≡ false
    → boot_state_read g ≡ (if rec_valid g offset_a then some (record_in g offset_a) else none)
unfolding boot_state_read
only_a g e = ground arith

torn_a :
    (f g : Flash)
    → Spare f offset_a offset_b
    → rec_valid g offset_a ≡ false
    → ((a : ℕ) → (a < offset_a) ⊎ (offset_a + flash_sector ≤ a) → g a ≡ f a)
    → boot_state_read g ≡ boot_state_read f
torn_a f g spare torn kept =
    let same = record_in_congr g f offset_b (λ a p q. kept a (inr (omega arith))) in
    only_b g torn ∙ rw (same.0, same.1) (finish spare)
  where
    finish :
        Spare f offset_a offset_b
        → (if rec_valid f offset_b then some (record_in f offset_b) else none) ≡ boot_state_read f
    finish (inl e) = sym (only_b f e)
    finish (inr (v, e)) = rw v (sym e)

torn_b :
    (f g : Flash)
    → Spare f offset_b offset_a
    → rec_valid g offset_b ≡ false
    → ((a : ℕ) → (a < offset_b) ⊎ (offset_b + flash_sector ≤ a) → g a ≡ f a)
    → boot_state_read g ≡ boot_state_read f
torn_b f g spare torn kept =
    let same = record_in_congr g f offset_a (λ a p q. kept a (inl (omega arith))) in
    only_a g torn ∙ rw (same.0, same.1) (finish spare)
  where
    finish :
        Spare f offset_b offset_a
        → (if rec_valid f offset_a then some (record_in f offset_a) else none) ≡ boot_state_read f
    finish (inl e) = sym (only_a f e)
    finish (inr (v, e)) = rw v (sym e)

-- Power failure: however much of the write to the target sector happened, as long as what is left
-- there is not a valid record and the rest of the flash is as before, the boot state is as before.
pub boot_state_write_torn :
    (f g : Flash)
    → let t = (write_target f).1 in
      ((a : ℕ) → (a < t) ⊎ (t + flash_sector ≤ a) → g a ≡ f a)
      → rec_valid g t ≡ false
      → boot_state_read g ≡ boot_state_read f
boot_state_write_torn f g kept torn = elim (write_target_cases f) [
  | inl (e, other, spare) ↦ torn_a f g spare (rw e at torn) (λ a h. kept a (rw e h))
  | inr (e, other, spare) ↦ torn_b f g spare (rw e at torn) (λ a h. kept a (rw e h))
]

-- The target is chosen by what the two sectors hold.
pub write_target_congr :
    (f g : Flash) → ((a : ℕ) → bootstate_a_offset ≤ a → f a ≡ g a) → write_target f ≡ write_target g
unfolding write_target
write_target_congr f g kept =
    let a = record_in_congr f g offset_a (λ x p q. kept x p) in
    let b = record_in_congr f g offset_b (λ x p q. kept x (omega arith)) in
    rw (a.0, a.1, b.0, b.1) (λ i. write_target g)
