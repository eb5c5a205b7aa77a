-- ===== src/Ota/Recovery/Guard.antt =====
-- The bootloader and the boot state under everything that arrives at the loop of firmware/bootloader/recovery.c.
use rp2040_eth_panel.Prelude.{
  ℕ, zero, suc, ◌+◌, ◌%◌, ◌^◌, ◌≤◌, ◌<◌, ◌≡◌, ◌≢◌, ◌⊎◌, inl, inr, refl, ap, ◌∙◌, true, false,
  Bool-cases, List, Option, none, some, same_bytes, ltb, ◌==◌, ◌||◌, arith,
}
use rp2040_eth_panel.Prelude.Text.{codes}
use rp2040_eth_panel.Crc32.{ota_crc32}
use rp2040_eth_panel.Ota.Layout.{app_offset, app_max_size, bootstate_a_offset}
use rp2040_eth_panel.Ota.Flash.{FlashDriver, bytes_at}
use rp2040_eth_panel.Ota.BootState.Write.{boot_state_write-outside}
use rp2040_eth_panel.Ota.Recovery.{
  Session, Reply, verified_record, handle_sync, begin_slot, begin_crc, handle_begin, handle_data,
  handle_end, handle_go, handle, round, recovery_run,
}
use rp2040_eth_panel.Ota.Reader.{Input, read_command, read_u32, data_magic, end_magic}
use rp2040_eth_panel.Ota.Recovery.Data.{receive_chunk-outside}
use rp2040_eth_panel.Ota.Recovery.Erase.{erased_len, erase_slot-outside}
use rp2040_eth_panel.Ota.Recovery.Push.Fill.{recovery_run-suc}
use rp2040_eth_panel.Ota.Recovery.Push.Go.{recovery_run_over}

-- What a DATA frame asks for lies on the page grid, and its end does not wrap.
abbrev IsModest : Input → Type 0
IsModest inp =
    let (off, inp1) = read_u32 inp in
    let (len, inp2) = read_u32 inp1 in
    (o l : ℕ) → off ≡ some o → len ≡ some l → (o % 256 ≡ 0) × (o + l < 2 ^ 32)

-- The next frame, where it is DATA.
abbrev NextIsModest : Input → Type 0
NextIsModest inp =
    let (tok, inp') = read_command inp in
    (t : List ℕ) → tok ≡ some t → same_bytes t data_magic ≡ true → IsModest inp'

slot_fits : (len : ℕ) → (len == 0 || ltb app_max_size len) ≡ false → len ≤ app_max_size
slot_fits len e = ground arith

module _ (driver : FlashDriver) where
  -- Every DATA frame of some rounds.
  abbrev pub AreModest : ℕ → Session → Input → Type 0
  AreModest zero s inp = Unit
  AreModest (suc n) s inp =
      let (s', out, inp') = round driver s inp in NextIsModest inp × AreModest n s' inp'

  -- The next frame, where it is END: it is not answered DONE.
  abbrev NextIsRefused : Session → Input → Type 0
  NextIsRefused s inp =
      let (tok, inp') = read_command inp in
      (t : List ℕ)
      → tok ≡ some t
      → same_bytes t end_magic ≡ true
      → (handle_end driver s inp').1 ≢ codes "DONE"

  -- Every END frame of some rounds.
  abbrev pub AreRefused : ℕ → Session → Input → Type 0
  AreRefused zero s inp = Unit
  AreRefused (suc n) s inp =
      let (s', out, inp') = round driver s inp in NextIsRefused s inp × AreRefused n s' inp'

  module _ (a : ℕ) (out : (a < app_offset) ⊎ (bootstate_a_offset ≤ a)) where
    abbrev Keeps : Session → Reply → Type 0
    Keeps s r = r.0.flash a ≡ s.flash a

    either-Keeps {ℓ} :
        {A : Type ℓ} (o : Option A) (s : Session) (r : Reply) (f : A → Reply)
        → Keeps s r
        → ((x : A) → o ≡ some x → Keeps s (f x))
        → Keeps s (elim o [ none ↦ r | some x ↦ f x ])
    either-Keeps none s r f h hs = h
    either-Keeps (some x) s r f h hs = hs x refl

    begin_slot-Keeps : (s : Session) (inp : Input) → Keeps s (begin_slot driver s inp)
    unfolding begin_slot
    begin_slot-Keeps s inp = elim (Bool-cases (s.app_len == 0 || ltb app_max_size s.app_len)) [
      | inl e ↦ rw e
      | inr e ↦
          let fits = slot_fits s.app_len e in
          rw e (erase_slot-outside driver s.app_len s.flash fits a (beside fits out))
    ]
      where
        beside :
            s.app_len ≤ app_max_size
            → (a < app_offset) ⊎ (bootstate_a_offset ≤ a)
            → (a < app_offset) ⊎ (app_offset + erased_len s.app_len ≤ a)
        beside fits (inl p) = inl p
        beside fits (inr p) = inr (omega arith)

    handle_begin-Keeps : (s : Session) (inp : Input) → Keeps s (handle_begin driver s inp)
    unfolding handle_begin begin_crc
    handle_begin-Keeps s inp =
        let (len, inp1) = read_u32 inp in
        let (crc, inp2) = read_u32 inp1 in
        either-Keeps len s _ _ refl (λ l e.
          either-Keeps crc s _ _ refl
            (λ c e'. begin_slot-Keeps (record s { app_len = l; app_crc = c }) inp2))

    handle_data-Keeps :
        (s : Session) (inp : Input) → IsModest inp → Keeps s (handle_data driver s inp)
    unfolding handle_data
    handle_data-Keeps s inp h =
        let (off, inp1) = read_u32 inp in
        let (len, inp2) = read_u32 inp1 in
        let (ccrc, inp3) = read_u32 inp2 in
        either-Keeps off s _ _ refl (λ o e. either-Keeps len s _ _ refl (λ l e'.
          either-Keeps ccrc s _ _ refl (λ c e''.
            let (grid, small) = h o l e e' in
            receive_chunk-outside driver s o l c inp3 a grid small out)))

    handle_end-Keeps :
        (s : Session) (inp : Input)
        → (a < app_offset) ⊎ ((handle_end driver s inp).1 ≢ codes "DONE")
        → Keeps s (handle_end driver s inp)
    unfolding handle_end
    handle_end-Keeps s inp (inl low) =
        let written =
          boot_state_write-outside driver s.flash (verified_record s.app_len s.app_crc) a
            (omega arith) in
        ground (arith, written)
    handle_end-Keeps s inp (inr refused) =
        elim (Bool-cases (ota_crc32 (bytes_at s.flash app_offset s.app_len) == s.app_crc)) [
          | inl e ↦ absurd (refused (rw e refl))
          | inr e ↦ rw e
        ]

    handle-Keeps :
        (tok : List ℕ) (s : Session) (inp : Input)
        → (same_bytes tok data_magic ≡ true → IsModest inp)
        → (a < app_offset)
          ⊎ (same_bytes tok end_magic ≡ true → (handle_end driver s inp).1 ≢ codes "DONE")
        → Keeps s (handle driver tok s inp)
    unfolding handle handle_sync handle_go
    handle-Keeps tok s inp h refused =
        let chunk : same_bytes tok data_magic ≡ true → Keeps s (handle_data driver s inp) =
          λ e. handle_data-Keeps s inp (h e) in
        let end : same_bytes tok end_magic ≡ true → Keeps s (handle_end driver s inp) =
          λ e. handle_end-Keeps s inp (elim refused [ inl p ↦ inl p | inr f ↦ inr (f e) ]) in
        ground (arith, handle_begin-Keeps s inp, chunk, end)

    round-Keeps :
        (s : Session) (inp : Input)
        → NextIsModest inp
        → (a < app_offset) ⊎ NextIsRefused s inp
        → Keeps s (round driver s inp)
    unfolding round
    round-Keeps s inp h refused =
        let (tok, inp') = read_command inp in
        either-Keeps tok s _ _ refl (λ t e.
          handle-Keeps t s inp' (h t e) (elim refused [ inl p ↦ inl p | inr f ↦ inr (f t e) ]))

  -- Whatever arrives and for any number of rounds, where each DATA frame that the receiver reads asks
  -- for an offset on the page grid and an end that does not wrap: the bootloader stays as it is, and
  -- so does the boot state until an END is answered DONE.
  pub recovery_run_keeps :
      (n : ℕ) (s : Session) (inp : Input) (a : ℕ)
      → AreModest n s inp
      → (a < app_offset) ⊎ ((bootstate_a_offset ≤ a) × AreRefused n s inp)
      → (recovery_run driver n s inp).0.flash a ≡ s.flash a
  recovery_run_keeps zero s inp a h out = unfold recovery_run in refl
  recovery_run_keeps (suc n) s inp a (next, rest) out = elim (Bool-cases s.rebooted) [
    | inl e ↦ ap (λ (r : Reply). r.0.flash a) (recovery_run_over driver (suc n) s inp e)
    | inr e ↦
        let (s1, said, inp1) = round driver s inp in
        ap (λ (r : Reply). r.0.flash a) (recovery_run-suc driver n s s1 inp inp1 said e refl)
        ∙ recovery_run_keeps n s1 inp1 a rest
            (elim out [ inl p ↦ inl p | inr r ↦ inr (r.0, r.1.1) ])
        ∙ round-Keeps a (elim out [ inl p ↦ inl p | inr r ↦ inr r.0 ]) s inp next
            (elim out [ inl p ↦ inl p | inr r ↦ inr r.1.0 ])
  ]
