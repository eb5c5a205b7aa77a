-- ===== src/Ota/Recovery/Chunk.antt =====
-- DATA behind its fields in firmware/bootloader/recovery.c: which chunks reach the slot.
use rp2040_eth_panel.Prelude.{
  ℕ, zero, suc, ◌+◌, ◌*◌, ◌/◌, ◌%◌, ◌^◌, ◌≤◌, ◌<◌, ◌≡◌, ◌⊎◌, inl, inr, refl, sym, ap, ◌∙◌, List, [],
  ◌∷◌, ◌++◌, Option, none, some, some_injective, Option-cases, Bool-cases, length,
  get_or-append_left, replicate, ◌==◌, ◌-◌, ==_iff, arith,
}
use rp2040_eth_panel.Crc32.{ota_crc32}
use rp2040_eth_panel.Ota.Layout.{app_offset}
use rp2040_eth_panel.Ota.Flash.{Flash, FlashDriver, bytes_at, bytes_at-of_list}
use rp2040_eth_panel.Ota.Reader.{Input, read_exact}
use rp2040_eth_panel.Ota.Recovery.{
  Session, Reply, chunk_rejected, padded, padded_len, program_chunk, receive_chunk, ack, nak,
}
use rp2040_eth_panel.Ota.Recovery.Resync.{arriving}
use rp2040_eth_panel.Ota.Recovery.Frames.{read_exact-arriving, read_exact-length}
use rp2040_eth_panel.Ota.Recovery.Data.{
  Accepted, chunk_Accepted, Accepted-passes, program_chunk-inside, program_chunk-outside,
}

-- The bytes `bs` arrive without a silence, are as many as announced and have the checksum announced,
-- 1 to 1024 of them that end in the slot; `rest` is what arrives behind them.
pub record Delivered (off len ccrc : ℕ) (inp : Input) (bs : List ℕ) (rest : Input) : Type 0 where
  pub accepted : Accepted off len
  pub whole : length bs ≡ len
  pub arrived : inp ≡ arriving bs ++ rest
  pub checked : ota_crc32 bs ≡ ccrc

-- The end of the last page that a chunk reaches.
abbrev pub page_end : ℕ → ℕ → ℕ
page_end off len = app_offset + off + (len + 255) / 256 * 256

abbrev pub IsErased : Flash → ℕ → ℕ → Type 0
IsErased f off len = (i : ℕ) → i < (len + 255) / 256 * 256 → f (app_offset + off + i) ≡ 255

abbrev Read : Type 0
Read = Option (List ℕ) × Input

read_exact_split :
    (n : ℕ) (inp : Input) (bs : List ℕ)
    → (read_exact n inp).0 ≡ some bs
    → inp ≡ arriving bs ++ (read_exact n inp).1
unfolding read_exact
read_exact_split zero inp bs h =
    let none_read = some_injective h in ap (λ l. arriving l ++ inp) none_read
read_exact_split (suc n) [] bs h = cc
read_exact_split (suc n) (none ∷ inp) bs h = cc
read_exact_split (suc n) (some b ∷ inp) bs h = elim (Option-cases (read_exact n inp).0) [
  | inl e ↦ cc (rw e at h)
  | inr (cs, e) ↦
      let first = some_injective (rw e at h) in
      ap (λ l. some b ∷ l) (read_exact_split n inp cs e)
      ∙ ap (λ l. arriving l ++ (read_exact n inp).1) first
]

module _ (off len ccrc : ℕ) (inp : Input) (bs : List ℕ) (rest : Input)
    (d : Delivered off len ccrc inp bs rest) where
  delivered_read : read_exact len inp ≡ (some bs, rest)
  delivered_read =
      sym (ap (λ (n : ℕ). read_exact n inp) d.whole)
      ∙ ap (read_exact (length bs)) d.arrived
      ∙ read_exact-arriving bs rest

module _ (driver : FlashDriver) where
  abbrev pub IsTaken : Session → ℕ → ℕ → ℕ → Input → Reply → Type 0
  IsTaken s off len ccrc inp (s', out, inp') =
      (bs : List ℕ) × Delivered off len ccrc inp bs inp'
      × (out ≡ ack off)
      × (bytes_at s'.flash (app_offset + off) len ≡ bs)
      × ((a : ℕ) → (a < app_offset + off) ⊎ (page_end off len ≤ a) → s'.flash a ≡ s.flash a)

  abbrev pub IsRefused : Session → ℕ → ℕ → ℕ → Input → Reply → Type 0
  IsRefused s off len ccrc inp (s', out, inp') =
      ((bs : List ℕ) (rest : Input) → ¬ Delivered off len ccrc inp bs rest)
      × (out ≡ nak off)
      × (s' ≡ s)

  program_chunk-slot :
      (off len : ℕ) (bs : List ℕ) (f : Flash)
      → Accepted off len
      → off % 256 ≡ 0
      → length bs ≡ len
      → IsErased f off len
      → bytes_at (program_chunk driver off bs len f) (app_offset + off) len ≡ bs
  program_chunk-slot off len bs f acc grid e blank =
      let f' = program_chunk driver off bs len f in
      ap (bytes_at f' (app_offset + off)) (sym e)
      ∙ bytes_at-of_list f' (app_offset + off) bs 255 (λ i p.
        let small : i < (len + 255) / 256 * 256 = omega (arith, e) in
        program_chunk-inside driver off len bs f i acc grid e small (blank i small)
        ∙ unfold padded in get_or-append_left bs (replicate (padded_len len - len) 0xFF) i 255 p)

  -- DATA behind its fields, where the offset is on the page grid, the end does not wrap and the pages
  -- that the chunk reaches are erased. Either the announced bytes arrive, 1 to 1024 of them that end
  -- in the slot, with the announced checksum: then they are acknowledged, they stand in the slot at
  -- the offset, no byte in front of them or behind their last page changes, and what arrives behind
  -- them is left. Or they do not: then the offset is refused, and the session is as before.
  pub receive_chunk_lem :
      (s : Session) (off len ccrc : ℕ) (inp : Input)
      → off % 256 ≡ 0
      → off + len < 2 ^ 32
      → IsErased s.flash off len
      → let r = receive_chunk driver s off len ccrc inp in
        IsTaken s off len ccrc inp r ⊎ IsRefused s off len ccrc inp r
  unfolding receive_chunk
  receive_chunk_lem s off len ccrc inp grid small blank =
      elim (Bool-cases (chunk_rejected off len)) [
        | inl e ↦
            rw e (inr (λ bs rest d. cc (sym e ∙ Accepted-passes off len d.accepted), refl, refl))
        | inr e ↦ elim (Option-cases (read_exact len inp).0) [
          | inl t ↦
              rw (e, t)
                (inr (
                  λ bs rest d.
                      cc (
                        sym t ∙ ap (λ (x : Read). x.0) (delivered_read off len ccrc inp bs rest d)),
                  refl,
                  refl,
                ))
          | inr (bs, t) ↦ elim (Bool-cases (ota_crc32 bs == ccrc)) [
            | inl c ↦
                let acc = chunk_Accepted off len small e in
                let whole = read_exact-length len inp bs t in
                rw (e, t, c)
                  (inl (
                    bs,
                    record {
                      accepted = acc;
                      whole = whole;
                      arrived = read_exact_split len inp bs t;
                      checked = (==_iff (ota_crc32 bs) ccrc).0 c;
                    },
                    refl,
                    program_chunk-slot off len bs s.flash acc grid whole blank,
                    λ a h. program_chunk-outside driver off len bs s.flash a acc grid whole h,
                  ))
            | inr c ↦
                rw (e, t, c)
                  (inr (
                    λ bs' rest d.
                        let same = some_injective (
                          sym t
                          ∙ ap (λ (x : Read). x.0) (delivered_read off len ccrc inp bs' rest d)) in
                        cc (sym c ∙ (==_iff (ota_crc32 bs) ccrc).1 (ap ota_crc32 same ∙ d.checked)),
                    refl,
                    refl,
                  ))
          ]
        ]
      ]
