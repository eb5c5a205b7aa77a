-- ===== src/Ota/Recovery/Resync.antt =====
-- `read_command` of firmware/bootloader/recovery.c: whatever arrives first, the next command is
-- found where its magic stands.
use rp2040_eth_panel.Prelude.{
  ℕ, zero, suc, ◌+◌, ◌≤◌, ◌<◌, ◌≡◌, refl, ◌∙◌, true, false, List, [], ◌∷◌, ◌++◌, map, none, some,
  length, take, drop, ltb, if◌then◌else◌, arith,
}
use rp2040_eth_panel.Ota.Reader.{Input, is_magic, scan, read_command}

-- Bytes that arrive with no silence between them.
abbrev pub arriving : List ℕ → Input
arriving bs = map some bs

-- The four bytes from position `i`.
abbrev pub window : List ℕ → ℕ → List ℕ
window bs i = take 4 (drop i bs)

module _ (w0 w1 w2 w3 filled b : ℕ) (inp : Input) where
  scan_hit :
      3 ≤ filled
      → filled ≤ 4
      → is_magic (w1 ∷ w2 ∷ w3 ∷ b ∷ []) ≡ true
      → scan w0 w1 w2 w3 filled (some b ∷ inp) ≡ (some (w1 ∷ w2 ∷ w3 ∷ b ∷ []), inp)
  unfolding scan
  scan_hit p q h = ground arith

  scan_miss :
      3 ≤ filled
      → filled ≤ 4
      → is_magic (w1 ∷ w2 ∷ w3 ∷ b ∷ []) ≡ false
      → scan w0 w1 w2 w3 filled (some b ∷ inp) ≡ scan w1 w2 w3 b 4 inp
  unfolding scan
  scan_miss p q h = ground arith

-- With three bytes in the window already, the next matches are those of the text that follows.
scan_found :
    (i w0 w1 w2 w3 filled : ℕ) (bs : List ℕ) (rest : Input)
    → 3 ≤ filled
    → filled ≤ 4
    → i < length bs
    → ((j : ℕ) → j < i → is_magic (window (w1 ∷ w2 ∷ w3 ∷ bs) j) ≡ false)
    → is_magic (window (w1 ∷ w2 ∷ w3 ∷ bs) i) ≡ true
    → scan w0 w1 w2 w3 filled (map some bs ++ rest)
      ≡ (some (window (w1 ∷ w2 ∷ w3 ∷ bs) i), map some (drop (suc i) bs) ++ rest)
scan_found i w0 w1 w2 w3 filled [] rest three four h before here = absurd (omega arith)
scan_found zero w0 w1 w2 w3 filled (b ∷ bs) rest three four h before here =
    scan_hit w0 w1 w2 w3 filled b (map some bs ++ rest) three four here
scan_found (suc i) w0 w1 w2 w3 filled (b ∷ bs) rest three four h before here =
    scan_miss w0 w1 w2 w3 filled b (map some bs ++ rest) three four (before 0 (omega arith))
    ∙ (scan_found i w1 w2 w3 b 4 bs rest (omega arith) (omega arith) (omega arith)
        (λ j p. before (suc j) (omega arith)) here)

-- Whatever bytes arrive with no silence between them, the command that is read is the first four
-- bytes in a row that are a magic, and what follows them is left to be read: stray bytes in front
-- shift nothing.
pub read_command_first :
    (bs : List ℕ) (i : ℕ) (rest : Input)
    → i + 4 ≤ length bs
    → ((j : ℕ) → j < i → is_magic (window bs j) ≡ false)
    → is_magic (window bs i) ≡ true
    → read_command (arriving bs ++ rest) ≡ (some (window bs i), arriving (drop (i + 4) bs) ++ rest)
unfolding read_command scan
read_command_first [] i rest h before here = absurd (omega arith)
read_command_first (a ∷ []) i rest h before here = absurd (omega arith)
read_command_first (a ∷ b ∷ []) i rest h before here = absurd (omega arith)
read_command_first (a ∷ b ∷ c ∷ bs) i rest h before here =
    scan_found i 0 a b c 3 bs rest (omega arith) (omega arith) (omega arith) before here
    ∙ rw (four i) refl
  where
    four : (n : ℕ) → n + 4 ≡ suc (suc (suc (suc n)))
    four n = omega arith

scan_sound :
    (w0 w1 w2 w3 filled : ℕ) (inp : Input) (tok : List ℕ)
    → (scan w0 w1 w2 w3 filled inp).0 ≡ some tok
    → is_magic tok ≡ true
unfolding scan
scan_sound w0 w1 w2 w3 filled [] tok h = cc
scan_sound w0 w1 w2 w3 filled (none ∷ inp) tok h = cc
scan_sound w0 w1 w2 w3 filled (some b ∷ inp) tok h =
    ground (arith, scan_sound w1 w2 w3 b (if ltb filled 4 then filled + 1 else filled) inp tok)

-- What is returned is a magic, on every input.
pub read_command_sound :
    (inp : Input) (tok : List ℕ) → (read_command inp).0 ≡ some tok → is_magic tok ≡ true
unfolding read_command
read_command_sound inp tok h = scan_sound 0 0 0 0 0 inp tok h
