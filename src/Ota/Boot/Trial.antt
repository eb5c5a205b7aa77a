-- ===== src/Ota/Boot/Trial.antt =====
-- A freshly flashed image on trial: what has to hold of the slot and of the boot record, and what a
-- write of the record leaves of it (firmware/src/ota/boot_state.c).
use rp2040_eth_panel.Prelude.{ℕ, ◌+◌, ◌^◌, ◌≤◌, ◌<◌, ◌≡◌, ◌≢◌, subst, true, some, arith}
use rp2040_eth_panel.Ota.Layout.{
  BootRecord, IsRecord, bootstate_a_offset, app_vtable_addr, app_offset, app_max_size,
}
use rp2040_eth_panel.Ota.Flash.{Flash, FlashDriver, bytes_at_congr}
use rp2040_eth_panel.Ota.BootState.{boot_state_read, boot_state_write, stamp}
use rp2040_eth_panel.Ota.BootState.Sector.{stamp-IsRecord}
use rp2040_eth_panel.Ota.BootState.Write.{
  boot_state_read-write, boot_state_write-outside, write_target-of_read, stamp-seq,
}
use rp2040_eth_panel.Ota.Boot.{word_in, app_vectortable_sane, image_matches}

-- The slot holds an intact image for the record: it fits, has its checksum and a sane vector table.
pub record HoldsImage (f : Flash) (st : BootRecord) : Type 0 where
  pub fits_slot : st.app_len ≤ app_max_size
  pub sane : app_vectortable_sane f app_vtable_addr ≡ true
  pub intact : image_matches f st ≡ true

-- An image that was flashed and started `k` times, with `room` sequence numbers left.
pub record IsOnTrial (k room : ℕ) (f : Flash) (st : BootRecord) : Type 0 where
  pub found : boot_state_read f ≡ some st
  pub fits : IsRecord st
  pub valid : st.app_valid ≢ 0
  pub unconfirmed : st.app_confirmed ≡ 0
  pub attempts : st.boot_attempts ≡ k
  pub image : HoldsImage f st
  pub numbers : st.seq + room < 2 ^ 32

-- The image depends on the slot alone, and on length and checksum in the record.
pub HoldsImage_congr :
    (f g : Flash) (st st' : BootRecord)
    → ((a : ℕ) → a < bootstate_a_offset → g a ≡ f a)
    → st'.app_len ≡ st.app_len
    → st'.app_crc32 ≡ st.app_crc32
    → HoldsImage f st
    → HoldsImage g st'
unfolding app_vectortable_sane word_in image_matches
HoldsImage_congr f g st st' kept e c h =
    let stack = bytes_at_congr g f 0x40100 4 (λ a p q. kept a (omega arith)) in
    let entry = bytes_at_congr g f 0x40104 4 (λ a p q. kept a (omega arith)) in
    let fits : st.app_len ≤ app_max_size = h.fits_slot in
    let body = bytes_at_congr g f app_offset st.app_len (λ a p q. kept a (omega arith)) in
    record {
      fits_slot = rw e h.fits_slot;
      sane = rw (stack, entry) h.sane;
      intact = rw (e, c, body) h.intact;
    }

module _ (driver : FlashDriver) where
  -- What a write of the record leaves, when the changes keep length and checksum.
  pub record Rewritten (f : Flash) (st r : BootRecord) : Type 0 where
    pub found : boot_state_read (boot_state_write driver f r).0 ≡ some (stamp st.seq r)
    pub fits : IsRecord (stamp st.seq r)
    pub number : (stamp st.seq r).seq ≡ st.seq + 1
    pub image : HoldsImage (boot_state_write driver f r).0 (stamp st.seq r)

  pub rewrite_record :
      (f : Flash) (st r : BootRecord)
      → boot_state_read f ≡ some st
      → IsRecord r
      → r.app_len ≡ st.app_len
      → r.app_crc32 ≡ st.app_crc32
      → st.seq + 1 < 2 ^ 32
      → HoldsImage f st
      → Rewritten f st r
  rewrite_record f st r found fits e c numbers image =
      let m = write_target-of_read f st found in
      record {
        found =
            subst (λ (t : ℕ). boot_state_read (boot_state_write driver f r).0 ≡ some (stamp t r)) m
              (unfold boot_state_write in boot_state_read-write driver f r fits (omega (arith, m)));
        fits = stamp-IsRecord st.seq r fits;
        number = stamp-seq st.seq r (omega arith);
        image =
            HoldsImage_congr f (boot_state_write driver f r).0 st (stamp st.seq r)
              (λ a h. boot_state_write-outside driver f r a h) (unfold stamp in e)
              (unfold stamp in c) image;
      }
