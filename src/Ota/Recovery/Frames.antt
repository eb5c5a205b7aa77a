-- ===== src/Ota/Recovery/Frames.antt =====
-- The fields of a command as they arrive (`read_exact` and `read_u32` of
-- firmware/bootloader/recovery.c).
use rp2040_eth_panel.Prelude.{
  ℕ, zero, suc, ◌^◌, ◌<◌, ◌≡◌, refl, sym, ap, ◌∙◌, List, [], ◌∷◌, ◌++◌, none, some, Option-cases,
  inl, inr, some_injective, length, arith,
}
use rp2040_eth_panel.Ota.Layout.{word_bytes}
use rp2040_eth_panel.Ota.Reader.{Input, read_exact, read_u32}
use rp2040_eth_panel.Ota.Recovery.Resync.{arriving}

pub read_exact-arriving :
    (bs : List ℕ) (rest : Input) → read_exact (length bs) (arriving bs ++ rest) ≡ (some bs, rest)
unfolding read_exact
read_exact-arriving [] rest = refl
read_exact-arriving (b ∷ bs) rest = rw (read_exact-arriving bs rest)

-- What is read has the length asked for.
pub read_exact-length :
    (n : ℕ) (inp : Input) (bs : List ℕ) → (read_exact n inp).0 ≡ some bs → length bs ≡ n
unfolding read_exact
read_exact-length zero inp bs h = ground arith
read_exact-length (suc n) [] bs h = cc
read_exact-length (suc n) (none ∷ inp) bs h = cc
read_exact-length (suc n) (some b ∷ inp) bs h = elim (Option-cases (read_exact n inp).0) [
  | inl e ↦ cc (rw e at h)
  | inr (cs, e) ↦
      ap length (sym (some_injective (rw e at h))) ∙ ap suc (read_exact-length n inp cs e)
]

pub read_u32-arriving :
    (v : ℕ) (rest : Input)
    → v < 2 ^ 32
    → read_u32 (arriving (word_bytes v) ++ rest) ≡ (some v, rest)
unfolding read_u32
read_u32-arriving v rest h =
    rw (read_exact-arriving (word_bytes v) rest) (ap (λ (t : ℕ). (some t, rest)) (omega arith))
