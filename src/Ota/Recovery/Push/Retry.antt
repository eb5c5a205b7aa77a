-- ===== src/Ota/Recovery/Push/Retry.antt =====
-- An update in which chunks arrive damaged or break off and are sent again (the loop of
-- firmware/bootloader/recovery.c, with the host's retries in tools/ota_flash.py).
use rp2040_eth_panel.Prelude.{
  ℕ, zero, suc, ◌+◌, ◌^◌, ◌<◌, ◌≡◌, ◌≢◌, refl, sym, ap, ◌∙◌, List, [], ◌∷◌, ◌++◌, append_assoc,
  length, false, some, none, ==_ne, arith,
}
use rp2040_eth_panel.Crc32.{ota_crc32}
use rp2040_eth_panel.Crc32.Bytes.{ota_crc32-lt}
use rp2040_eth_panel.Ota.Layout.{word_bytes}
use rp2040_eth_panel.Ota.Flash.{FlashDriver}
use rp2040_eth_panel.Ota.Recovery.{
  Session, Reply, ack, nak, chunk_rejected, receive_chunk, program_chunk, round, recovery_run,
}
use rp2040_eth_panel.Ota.Reader.{Input, data_magic, read_command, scan, is_magic, read_exact}
use rp2040_eth_panel.Ota.Recovery.Resync.{arriving}
use rp2040_eth_panel.Ota.Recovery.Frames.{read_exact-arriving, read_u32-arriving}
use rp2040_eth_panel.Ota.Recovery.Push.{
  data_frame, IsChunked, round_on, handle_on, data_fields, round_data,
}
use rp2040_eth_panel.Ota.Recovery.Push.Fill.{after, programmed, recovery_run-suc}

-- What the host sends for the next chunk: the chunk; bytes with a checksum that is not theirs; or
-- the start of a chunk that breaks off in a silence.
pub data Try : Type 0 where
  whole : List ℕ → Try
  damaged : ℕ → List ℕ → ℕ → Try
  broken : ℕ → ℕ → ℕ → List ℕ → Try

-- The four fields of a DATA frame, and what follows them.
abbrev pub data_header : ℕ → ℕ → ℕ → Input → Input
data_header off len crc rest =
    arriving data_magic
    ++ (arriving (word_bytes off)
        ++ (arriving (word_bytes len) ++ (arriving (word_bytes crc) ++ rest)))

abbrev pub tries_input : ℕ → List Try → Input → Input
tries_input off [] rest = rest
tries_input off (whole c ∷ ts) rest = data_frame off c (tries_input (off + length c) ts rest)
tries_input off (damaged o bs crc ∷ ts) rest =
    data_header o (length bs) crc (arriving bs ++ tries_input off ts rest)
tries_input off (broken o len crc bs ∷ ts) rest =
    data_header o len crc (arriving bs ++ (none ∷ tries_input off ts rest))

-- The chunks that arrive whole.
abbrev pub chunks_of : List Try → List (List ℕ)
chunks_of [] = []
chunks_of (whole c ∷ ts) = c ∷ chunks_of ts
chunks_of (damaged o bs crc ∷ ts) = chunks_of ts
chunks_of (broken o len crc bs ∷ ts) = chunks_of ts

-- A DACK for each of those, a DNAK for each of the others.
abbrev pub answers : ℕ → List Try → List ℕ
answers off [] = []
answers off (whole c ∷ ts) = ack off ++ answers (off + length c) ts
answers off (damaged o bs crc ∷ ts) = nak o ++ answers off ts
answers off (broken o len crc bs ∷ ts) = nak o ++ answers off ts

-- The damage shows: the checksum differs, or bytes are missing. The fields are those of a chunk that
-- the receiver waits for.
abbrev pub IsSpoiled : Try → Type 0
IsSpoiled (whole c) = Unit
IsSpoiled (damaged o bs crc) =
    (o < 2 ^ 32)
    × (length bs < 2 ^ 32)
    × (crc < 2 ^ 32)
    × (ota_crc32 bs ≢ crc)
    × (chunk_rejected o (length bs) ≡ false)
IsSpoiled (broken o len crc bs) =
    (o < 2 ^ 32)
    × (len < 2 ^ 32)
    × (crc < 2 ^ 32)
    × (length bs < len)
    × (chunk_rejected o len ≡ false)

abbrev pub AreSpoiled : List Try → Type 0
AreSpoiled [] = Unit
AreSpoiled (t ∷ ts) = IsSpoiled t × AreSpoiled ts

pub read_exact-broken :
    (n : ℕ) (bs : List ℕ) (rest : Input)
    → length bs < n
    → read_exact n (arriving bs ++ (none ∷ rest)) ≡ (none, rest)
unfolding read_exact
read_exact-broken zero bs rest h = absurd (omega arith)
read_exact-broken (suc n) [] rest h = refl
read_exact-broken (suc n) (b ∷ bs) rest h = rw (read_exact-broken n bs rest (omega arith)) refl

module _ (driver : FlashDriver) where
  round_header :
      (s : Session) (off len crc : ℕ) (rest : Input)
      → off < 2 ^ 32
      → len < 2 ^ 32
      → crc < 2 ^ 32
      → round driver s (data_header off len crc rest) ≡ receive_chunk driver s off len crc rest
  round_header s off len crc rest p q r =
      let tail = arriving (word_bytes crc) ++ rest in
      let mid = arriving (word_bytes len) ++ tail in
      let fields = arriving (word_bytes off) ++ mid in
      round_on driver s data_magic (data_header off len crc rest) fields
        (unfold read_command scan is_magic in refl)
      ∙ (handle_on driver s fields).3
      ∙ data_fields driver s off len crc fields mid tail rest (read_u32-arriving off mid p)
          (read_u32-arriving len tail q) (read_u32-arriving crc rest r)

  chunk_damaged :
      (s : Session) (off crc : ℕ) (bs : List ℕ) (inp rest : Input)
      → chunk_rejected off (length bs) ≡ false
      → read_exact (length bs) inp ≡ (some bs, rest)
      → ota_crc32 bs ≢ crc
      → receive_chunk driver s off (length bs) crc inp ≡ (s, nak off, rest)
  unfolding receive_chunk
  chunk_damaged s off crc bs inp rest d e ne =
      let differs = ==_ne (ota_crc32 bs) crc ne in ground (arith, d, e, differs)

  chunk_broken :
      (s : Session) (off len crc : ℕ) (inp rest : Input)
      → chunk_rejected off len ≡ false
      → read_exact len inp ≡ (none, rest)
      → receive_chunk driver s off len crc inp ≡ (s, nak off, rest)
  unfolding receive_chunk
  chunk_broken s off len crc inp rest d e = ground (arith, d, e)

  -- A spoiled try changes nothing.
  round_damaged :
      (s : Session) (o crc : ℕ) (bs : List ℕ) (rest : Input)
      → IsSpoiled (damaged o bs crc)
      → round driver s (data_header o (length bs) crc (arriving bs ++ rest)) ≡ (s, nak o, rest)
  round_damaged s o crc bs rest (p, q, r, ne, d) =
      round_header s o (length bs) crc (arriving bs ++ rest) p q r
      ∙ chunk_damaged s o crc bs (arriving bs ++ rest) rest d (read_exact-arriving bs rest) ne

  round_broken :
      (s : Session) (o len crc : ℕ) (bs : List ℕ) (rest : Input)
      → IsSpoiled (broken o len crc bs)
      → round driver s (data_header o len crc (arriving bs ++ (none ∷ rest))) ≡ (s, nak o, rest)
  round_broken s o len crc bs rest (p, q, r, short, d) =
      round_header s o len crc (arriving bs ++ (none ∷ rest)) p q r
      ∙ chunk_broken s o len crc (arriving bs ++ (none ∷ rest)) rest d
          (read_exact-broken len bs rest short)

  -- One round in front of the rest of a run.
  pub one_try :
      (n m : ℕ) (s s' : Session) (inp inp' : Input) (out more : List ℕ) (end : Reply)
      → s.rebooted ≡ false
      → m ≡ suc n
      → round driver s inp ≡ (s', out, inp')
      → recovery_run driver n s' inp' ≡ after more end
      → recovery_run driver m s inp ≡ after (out ++ more) end
  one_try n m s s' inp inp' out more end up e run later =
      ap (λ (t : ℕ). recovery_run driver t s inp) e
      ∙ recovery_run-suc driver n s s' inp inp' out up run
      ∙ ap (after out) later
      ∙ ap (λ l. (end.0, l, end.2)) (sym (append_assoc out more end.1))

  -- The loop answers every try, and programs those that arrive whole.
  pub recovery_run-tries :
      (n : ℕ) (s : Session) (off blank : ℕ) (ts : List Try) (rest : Input)
      → s.rebooted ≡ false
      → IsChunked blank off (chunks_of ts)
      → AreSpoiled ts
      → recovery_run driver (length ts + n) s (tries_input off ts rest)
        ≡ after (answers off ts) (
            recovery_run driver n
              (record s { flash = programmed driver off (chunks_of ts) s.flash })
              rest)
  recovery_run-tries n s off blank [] rest up chunked spoiled =
      ap (λ (t : ℕ). recovery_run driver t s rest) (omega arith)
  recovery_run-tries n s off blank (whole c ∷ ts) rest up (next, bytes, chunked) (_, spoiled) =
      let s' : Session = record s { flash = program_chunk driver off c (length c) s.flash } in
      let tail = tries_input (off + length c) ts rest in
      one_try (length ts + n) (length (whole c ∷ ts) + n) s s' (data_frame off c tail) tail
        (ack off) (answers (off + length c) ts) _ up (omega arith)
        (round_data driver s off blank c tail next (ota_crc32-lt c bytes))
        (recovery_run-tries n s' (off + length c) blank ts rest up chunked spoiled)
  recovery_run-tries n s off blank (damaged o bs crc ∷ ts) rest up chunked (h, spoiled) =
      let tail = tries_input off ts rest in
      one_try (length ts + n) (length (damaged o bs crc ∷ ts) + n) s s
        (data_header o (length bs) crc (arriving bs ++ tail)) tail (nak o) (answers off ts) _ up
        (omega arith) (round_damaged s o crc bs tail h)
        (recovery_run-tries n s off blank ts rest up chunked spoiled)
  recovery_run-tries n s off blank (broken o len crc bs ∷ ts) rest up chunked (h, spoiled) =
      let tail = tries_input off ts rest in
      one_try (length ts + n) (length (broken o len crc bs ∷ ts) + n) s s
        (data_header o len crc (arriving bs ++ (none ∷ tail))) tail (nak o) (answers off ts) _ up
        (omega arith) (round_broken s o len crc bs tail h)
        (recovery_run-tries n s off blank ts rest up chunked spoiled)
