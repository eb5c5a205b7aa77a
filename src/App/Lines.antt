-- ===== src/App/Lines.antt =====
-- The line assembly of firmware/src/main.c against a split of the stream at its newlines.
use rp2040_eth_panel.Prelude.{
  ℕ, ◌≤◌, ◌<◌, ◌≡◌, ◌≢◌, refl, sym, ap, ap₂, ◌∙◌, true, false, List, [], ◌∷◌, ◌++◌, append-nil,
  append_assoc, length, length-append, ltb, ltb→lt, ==_ne, ==_iff, ℕ-cases, Bool-cases, All,
  All-append, inl, inr, if_both, if◌then◌else◌, arith,
}
use native.Mathlib.Decide.{dec_lt}
use rp2040_eth_panel.App.{LineBuf, Outcome, dispatched, too_long, empty_line, take_byte, take_bytes}

-- A line without its newline.
abbrev pub IsLine : List ℕ → Type 0
IsLine l = All (λ ch. ch ≢ 10) l

-- What a line is worth: nothing if it is empty, a command up to 255 bytes, else one error.
abbrev pub judge : List ℕ → List Outcome
judge l =
    if ltb 255 (length l) then too_long ∷ [] else if ltb 0 (length l) then dispatched l ∷ [] else []

-- Lines, each with its newline.
abbrev pub stream : List (List ℕ) → List ℕ
stream [] = []
stream (l ∷ ls) = l ++ (10 ∷ stream ls)

abbrev pub judge_all : List (List ℕ) → List Outcome
judge_all [] = []
judge_all (l ∷ ls) = judge l ++ judge_all ls

-- The bytes may arrive in any pieces: two reads do what one read of both does.
pub take_bytes-append :
    (b : LineBuf) (xs ys : List ℕ)
    → let (out, b') = take_bytes b xs in
      let (out', b'') = take_bytes b' ys in take_bytes b (xs ++ ys) ≡ (out ++ out', b'')
unfolding take_bytes
take_bytes-append b [] ys = refl
take_bytes-append b (x ∷ xs) ys =
    let b1 = (take_byte b x).1 in
    let out = (take_byte b x).0 in
    let e = take_bytes-append b1 xs ys in
    ap₂ (λ l (c : LineBuf). (out ++ l, c)) (ap (λ (t : List Outcome × LineBuf). t.0) e)
      (ap (λ (t : List Outcome × LineBuf). t.1) e)
    ∙ ap (λ l. (l, (take_bytes (take_bytes b1 xs).1 ys).1))
        (sym (append_assoc out (take_bytes b1 xs).0 (take_bytes (take_bytes b1 xs).1 ys).0))

-- The rest of an overlong line.
take_bytes-discard :
    (l rest : List ℕ)
    → IsLine l
    → take_bytes (record { text = []; discard = true }) (l ++ (10 ∷ rest))
      ≡ take_bytes empty_line rest
unfolding take_bytes take_byte
take_bytes-discard [] rest line = refl
take_bytes-discard (c ∷ l) rest (ne, line) = rw (==_ne c 10 ne) (take_bytes-discard l rest line)

step_in :
    (held : List ℕ) (c : ℕ)
    → c ≢ 10
    → length held < 255
    → take_byte (record { text = held; discard = false }) c
      ≡ ([], record { text = held ++ (c ∷ []); discard = false })
unfolding take_byte
step_in held c ne h = ground arith

step_over :
    (held : List ℕ) (c : ℕ)
    → c ≢ 10
    → 255 ≤ length held
    → take_byte (record { text = held; discard = false }) c
      ≡ (too_long ∷ [], record { text = []; discard = true })
unfolding take_byte
step_over held c ne h = ground arith

step_end :
    (held : List ℕ)
    → length held ≤ 255
    → take_byte (record { text = held; discard = false }) 10 ≡ (judge held, empty_line)
unfolding take_byte
step_end held h = ground arith

judge-long : (l : List ℕ) → 255 < length l → judge l ≡ too_long ∷ []
judge-long l h = ground arith

-- The loop behind one byte's round.
abbrev go_on : List ℕ → List Outcome × LineBuf → List Outcome × LineBuf
go_on rest t = let (out, b) = t in let (more, b') = take_bytes b rest in (out ++ more, b')

take_bytes-step :
    (b : LineBuf) (ch : ℕ) (rest : List ℕ) (t : List Outcome × LineBuf)
    → take_byte b ch ≡ t
    → take_bytes b (ch ∷ rest) ≡ go_on rest t
unfolding take_bytes
take_bytes-step b ch rest t e = ap (go_on rest) e

-- A line behind what is held of it already.
take_bytes-line :
    (held l rest : List ℕ)
    → length held ≤ 255
    → IsLine l
    → take_bytes (record { text = held; discard = false }) (l ++ (10 ∷ rest))
      ≡ go_on rest (judge (held ++ l), empty_line)
take_bytes-line held [] rest h line =
    take_bytes-step (record { text = held; discard = false }) 10 rest (judge held, empty_line)
      (step_end held h)
    ∙ ap (λ l. go_on rest (judge l, empty_line)) (sym (append-nil held))
take_bytes-line held (c ∷ l) rest h (ne, line) = elim (dec_lt (length held) 255) [
  | yes p ↦
      let b : LineBuf = record { text = held ++ (c ∷ []); discard = false } in
      take_bytes-step (record { text = held; discard = false }) c (l ++ (10 ∷ rest)) ([], b)
        (step_in held c ne p)
      ∙ take_bytes-line (held ++ (c ∷ [])) l rest (omega (arith, length-append held (c ∷ []))) line
      ∙ ap (λ k. go_on rest (judge k, empty_line)) (append_assoc held (c ∷ []) l)
  | no p ↦
      let b : LineBuf = record { text = []; discard = true } in
      take_bytes-step (record { text = held; discard = false }) c (l ++ (10 ∷ rest))
        (too_long ∷ [], b) (step_over held c ne (omega (arith, p)))
      ∙ ap (λ (t : List Outcome × LineBuf). (too_long ∷ t.0, t.1)) (take_bytes-discard l rest line)
      ∙ ap (λ k. go_on rest (k, empty_line))
          (sym (judge-long (held ++ (c ∷ l)) (omega (arith, p, length-append held (c ∷ l)))))
]

-- A stream of lines, from a clean start: every line that fits the buffer is dispatched, whole and in
-- order; an empty one is skipped; one of more than 255 bytes gives one error and none of it is
-- dispatched. The buffer is clean again after each line.
pub take_bytes-lines :
    (ls : List (List ℕ))
    → All IsLine ls
    → take_bytes empty_line (stream ls) ≡ (judge_all ls, empty_line)
take_bytes-lines [] lines = unfold take_bytes in refl
take_bytes-lines (l ∷ ls) (line, lines) =
    take_bytes-line [] l (stream ls) (omega arith) line
    ∙ ap (λ (t : List Outcome × LineBuf). (judge l ++ t.0, t.1)) (take_bytes-lines ls lines)

-- What `linebuf` holds fits it with the final zero, and is part of one line.
pub record IsHeld (b : LineBuf) : Type 0 where
  pub fits : length b.text ≤ 255
  pub one_line : IsLine b.text

take_byte-IsHeld : (b : LineBuf) (ch : ℕ) → IsHeld b → IsHeld (take_byte b ch).1
unfolding take_byte
take_byte-IsHeld b ch h = elim (ℕ-cases ch 10) [
  | inl e ↦ rw ((==_iff ch 10).1 e) (record { fits = omega arith; one_line = tt })
  | inr ne ↦ rw (==_ne ch 10 ne) (
      if_both {A = List Outcome × LineBuf} (λ t. IsHeld t.1) b.discard h
        (elim (Bool-cases (ltb (length b.text) 255)) [
          | inl room ↦
              let grown = length-append b.text (ch ∷ []) in
              rw room (record {
                fits = omega (arith, grown, ltb→lt (length b.text) 255 room);
                one_line = All-append (λ (c : ℕ). c ≢ 10) b.text (ch ∷ []) h.one_line (ne, tt);
              })
          | inr full ↦ rw full (record { fits = omega arith; one_line = tt })
        ]))
]

pub take_bytes-IsHeld : (b : LineBuf) (chs : List ℕ) → IsHeld b → IsHeld (take_bytes b chs).1
unfolding take_bytes
take_bytes-IsHeld b [] h = h
take_bytes-IsHeld b (ch ∷ chs) h =
    take_bytes-IsHeld (take_byte b ch).1 chs (take_byte-IsHeld b ch h)
