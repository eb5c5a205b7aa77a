-- ===== src/Ota/Recovery/Enough.antt =====
-- The loop of firmware/bootloader/recovery.c on all that arrives: every round takes something of it,
-- so as many rounds as bytes and silences are enough.
use rp2040_eth_panel.Prelude.{
  ℕ, zero, suc, ◌+◌, ◌≤◌, ◌≡◌, ◌⊎◌, inl, inr, refl, sym, ap, ◌∙◌, Bool, true, false, Bool-cases,
  List, [], ◌∷◌, ◌++◌, append-nil, length, Option, none, some, ltb, if◌then◌else◌, append_assoc,
  arith,
}
use rp2040_eth_panel.Ota.Flash.{FlashDriver}
use rp2040_eth_panel.Ota.Recovery.{
  Session, Reply, handle_sync, begin_slot, begin_crc, handle_begin, receive_chunk, handle_data,
  handle_end, handle_go, handle, round, recovery_run, led_recovery,
}
use rp2040_eth_panel.Ota.Reader.{Input, read_exact, scan, read_command, read_u32}
use rp2040_eth_panel.Ota.Recovery.Push.Fill.{after, recovery_run-suc}
use rp2040_eth_panel.Ota.Recovery.Push.Go.{recovery_run-more, recovery_run_over}

read_exact_left : (n : ℕ) (inp : Input) → length (read_exact n inp).1 ≤ length inp
unfolding read_exact
read_exact_left zero inp = omega arith
read_exact_left (suc n) [] = omega arith
read_exact_left (suc n) (none ∷ inp) = omega arith
read_exact_left (suc n) (some b ∷ inp) = omega (arith, read_exact_left n inp)

read_u32_left : (inp : Input) → length (read_u32 inp).1 ≤ length inp
unfolding read_u32
read_u32_left inp = read_exact_left 4 inp

found_left :
    (found : Bool) (w : List ℕ) (inp : Input) (r : Option (List ℕ) × Input)
    → length r.1 ≤ length inp
    → length (elim found as (λ _. Option (List ℕ) × Input) [ true ↦ (some w, inp) | false ↦ r ]).1
      ≤ length inp
found_left true w inp r h = omega arith
found_left false w inp r h = h

-- A command takes one input at least, where there is one.
scan_left :
    (w0 w1 w2 w3 filled : ℕ) (x : Option ℕ) (inp : Input)
    → length (scan w0 w1 w2 w3 filled (x ∷ inp)).1 ≤ length inp
unfolding scan
scan_left w0 w1 w2 w3 filled none inp = omega arith
scan_left w0 w1 w2 w3 filled (some b) [] = found_left _ _ [] (none, []) (omega arith)
scan_left w0 w1 w2 w3 filled (some b) (y ∷ inp) =
    let filled' = if ltb filled 4 then filled + 1 else filled in
    found_left _ _ (y ∷ inp) (scan w1 w2 w3 b filled' (y ∷ inp))
      (omega (arith, scan_left w1 w2 w3 b filled' y inp))

-- An answer leaves no more than there was.
abbrev Leaves : Input → Reply → Type 0
Leaves inp r = length r.2 ≤ length inp

either_left {ℓ} :
    {A : Type ℓ} (o : Option A) (inp : Input) (r : Reply) (f : A → Reply)
    → Leaves inp r
    → ((x : A) → Leaves inp (f x))
    → Leaves inp (elim o [ none ↦ r | some x ↦ f x ])
either_left none inp r f h hs = h
either_left (some x) inp r f h hs = hs x

-- The colour of the status LED after each of `k` silent rounds.
abbrev pub idle_leds : ℕ → List ℕ
idle_leds zero = []
idle_leds (suc k) = led_recovery ++ idle_leds k

module _ (driver : FlashDriver) where
  handle_sync_left : (s : Session) (inp : Input) → Leaves inp (handle_sync driver s inp)
  unfolding handle_sync
  handle_sync_left s inp = read_exact_left 4 inp

  begin_crc_left : (s : Session) (inp : Input) → Leaves inp (begin_crc driver s inp)
  unfolding begin_crc begin_slot
  begin_crc_left s inp = ground (arith, read_u32_left inp)

  handle_begin_left : (s : Session) (inp : Input) → Leaves inp (handle_begin driver s inp)
  unfolding handle_begin
  handle_begin_left s inp =
      let (len, inp') = read_u32 inp in
      let read = read_u32_left inp in
      either_left len inp (s, [], inp') (λ l. begin_crc driver (record s { app_len = l }) inp') read
        (λ l. omega (arith, read, begin_crc_left (record s { app_len = l }) inp'))

  receive_chunk_left :
      (s : Session) (off len ccrc : ℕ) (inp : Input)
      → Leaves inp (receive_chunk driver s off len ccrc inp)
  unfolding receive_chunk
  receive_chunk_left s off len ccrc inp = ground (arith, read_exact_left len inp)

  handle_data_left : (s : Session) (inp : Input) → Leaves inp (handle_data driver s inp)
  unfolding handle_data
  handle_data_left s inp =
      let (off, inp1) = read_u32 inp in
      let (len, inp2) = read_u32 inp1 in
      let (ccrc, inp3) = read_u32 inp2 in
      let one = read_u32_left inp in
      let two = read_u32_left inp1 in
      let three = read_u32_left inp2 in
      either_left off inp _ _ one (λ o. either_left len inp _ _ (omega (arith, one, two)) (λ l.
        either_left ccrc inp _ _ (omega (arith, one, two, three))
          (λ c. omega (arith, one, two, three, receive_chunk_left s o l c inp3))))

  handle_end_left : (s : Session) (inp : Input) → Leaves inp (handle_end driver s inp)
  unfolding handle_end
  handle_end_left s inp = ground arith

  handle_left : (tok : List ℕ) (s : Session) (inp : Input) → Leaves inp (handle driver tok s inp)
  unfolding handle handle_go
  handle_left tok s inp = ground (
    arith,
    handle_sync_left s inp,
    handle_begin_left s inp,
    handle_data_left s inp,
    handle_end_left s inp,
  )

  -- A round takes one input at least.
  round_left : (s : Session) (x : Option ℕ) (inp : Input) → Leaves inp (round driver s (x ∷ inp))
  unfolding round read_command
  round_left s x inp =
      let (tok, inp') = read_command (x ∷ inp) in
      let read = scan_left 0 0 0 0 0 x inp in
      either_left tok inp _ _ read (λ t. omega (arith, read, handle_left t s inp'))

  one_less :
      (n : ℕ) (s : Session) (inp : Input) → length inp ≤ suc n → length (round driver s inp).2 ≤ n
  one_less n s [] h =
      let none_left : (round driver s []).2 ≡ [] = unfold round read_command scan in refl in
      rw none_left (omega arith)
  one_less n s (x ∷ inp) h = omega (arith, round_left s x inp)

  -- As many rounds as inputs: the reboot was reached, or nothing is left.
  recovery_run_left :
      (n : ℕ) (s : Session) (inp : Input)
      → length inp ≤ n
      → (recovery_run driver n s inp).0.rebooted ≡ false
      → (recovery_run driver n s inp).2 ≡ []
  recovery_run_left zero s [] h up = unfold recovery_run in refl
  recovery_run_left zero s (x ∷ inp) h up = absurd (omega arith)
  recovery_run_left (suc n) s inp h up = elim (Bool-cases s.rebooted) [
    | inl e ↦ absurd (
        grind (
          arith,
          e,
          up,
          ap (λ (r : Reply). r.0.rebooted) (recovery_run_over driver (suc n) s inp e),
        ))
    | inr e ↦
        let (s1, out, inp1) = round driver s inp in
        let next = recovery_run-suc driver n s s1 inp inp1 out e refl in
        ap (λ (r : Reply). r.2) next
        ∙ recovery_run_left n s1 inp1 (one_less n s inp h)
            (sym (ap (λ (r : Reply). r.0.rebooted) next) ∙ up)
  ]

  -- Nothing arrives any more.
  idle_rounds :
      (k : ℕ) (s : Session)
      → s.rebooted ≡ false
      → recovery_run driver k s [] ≡ (record s { leds = s.leds ++ idle_leds k }, [], [])
  idle_rounds zero s up =
      unfold recovery_run in ap (λ l. (record s { leds = l }, [], [])) (sym (append-nil s.leds))
  idle_rounds (suc k) s up =
      let s' : Session = record s { leds = s.leds ++ led_recovery } in
      let idle : round driver s [] ≡ (s', [], []) = unfold round read_command scan in refl in
      recovery_run-suc driver k s s' [] [] [] up idle
      ∙ ap (after []) (idle_rounds k s' up)
      ∙ ap (λ l. (record s { leds = l }, [], [])) (append_assoc s.leds led_recovery (idle_leds k))

  -- As many rounds of the loop as there are bytes and silences are enough for all that arrives,
  -- whatever it is: then the board was told to reboot, and further rounds change nothing; or
  -- everything was taken, and each further round only shows the colour of the receiver once more.
  pub recovery_run_enough :
      (s : Session) (inp : Input) (k : ℕ)
      → let (s', out, inp') = recovery_run driver (length inp) s inp in
        let more = recovery_run driver (length inp + k) s inp in
        ((s'.rebooted ≡ true) × (more ≡ (s', out, inp')))
        ⊎ ((s'.rebooted ≡ false)
            × (inp' ≡ [])
            × (more ≡ (record s' { leds = s'.leds ++ idle_leds k }, out, [])))
  recovery_run_enough s inp k =
      let (s', out, inp') = recovery_run driver (length inp) s inp in
      let ran = recovery_run-more driver (length inp) k s inp in
      elim (Bool-cases s'.rebooted) [
        | inl e ↦ inl (
          e,
          ran
              ∙ ap (after out) (recovery_run_over driver k s' inp' e)
              ∙ ap (λ l. (s', l, inp')) (append-nil out),
        )
        | inr e ↦
            let left = recovery_run_left (length inp) s inp (omega arith) e in
            inr (
              e,
              left,
              ran
                  ∙ ap (λ (i : Input). after out (recovery_run driver k s' i)) left
                  ∙ ap (after out) (idle_rounds k s' e)
                  ∙ ap (λ l. (record s' { leds = s'.leds ++ idle_leds k }, l, [])) (append-nil out),
            )
      ]
