-- ===== src/Ota/Reader.antt =====
-- firmware/bootloader/recovery.c: the readers of the receiver, with the five magics. What arrives is a
-- list: a byte, or `none` for a silence that outlasts the timeout in force. At the end of the list
-- nothing arrives any more.
use rp2040_eth_panel.Prelude.{
  ℕ, zero, suc, ◌+◌, Bool, true, false, ◌&&◌, ◌||◌, List, [], ◌∷◌, Option, none, some, ltb, ◌==◌,
  same_bytes, if◌then◌else◌,
}
use rp2040_eth_panel.Prelude.Text.{codes}
use rp2040_eth_panel.Ota.Layout.{word_at}

abbrev pub Input : Type 0
Input = List (Option ℕ)

-- The five magics, `CMD_MAGICS`.
abbrev pub sync_magic : List ℕ
sync_magic = codes "RP2B"

abbrev pub begin_magic : List ℕ
begin_magic = codes "BEGN"

abbrev pub data_magic : List ℕ
data_magic = codes "DATA"

abbrev pub end_magic : List ℕ
end_magic = codes "END!"

abbrev pub go_magic : List ℕ
go_magic = codes "GO!!"

unfoldable pub is_magic : List ℕ → Bool
unfolding same_bytes
is_magic w =
    same_bytes w sync_magic
    || same_bytes w begin_magic
    || same_bytes w data_magic
    || same_bytes w end_magic
    || same_bytes w go_magic

-- `read_exact`: the bytes, or `none` on a timeout.
unfoldable pub read_exact : ℕ → Input → Option (List ℕ) × Input
read_exact zero inp = (some [], inp)
read_exact (suc n) [] = (none, [])
read_exact (suc n) (none ∷ inp) = (none, inp)
read_exact (suc n) (some b ∷ inp) =
    let (rest, inp') = read_exact n inp in
    (elim rest [ none ↦ none | some bs ↦ some (b ∷ bs) ], inp')

-- The loop of `read_command`: the window's four bytes, and how many of them have been read.
unfoldable pub scan : ℕ → ℕ → ℕ → ℕ → ℕ → Input → Option (List ℕ) × Input
scan w0 w1 w2 w3 filled [] = (none, [])
scan w0 w1 w2 w3 filled (none ∷ inp) = (none, inp)
scan w0 w1 w2 w3 filled (some b ∷ inp) =
    let filled' = if ltb filled 4 then filled + 1 else filled in
    let w = w1 ∷ w2 ∷ w3 ∷ b ∷ [] in
    elim (filled' == 4 && is_magic w) [ true ↦ (some w, inp) | false ↦ scan w1 w2 w3 b filled' inp ]

unfoldable pub read_command : Input → Option (List ℕ) × Input
read_command inp = scan 0 0 0 0 0 inp

unfoldable pub read_u32 : Input → Option ℕ × Input
read_u32 inp =
    let (bytes, inp') = read_exact 4 inp in
    (elim bytes [ none ↦ none | some bs ↦ some (word_at bs 0) ], inp')
