-- ===== src/Rawimage/Stream.antt =====
-- `writeRootPartition`: the bytes of a file, streamed onto the partition.
use mathlib.Core.List.{append-nil, append_assoc}
use cnimbus.Common.{
  Option, Result, [], ap, arith, err, length, length-append, none, ok, refl, some, sym, ℕ, ◌++◌,
  ◌+◌, ◌>>=◌, ◌∙◌, ◌∷◌, ◌≡◌, ◌≤◌,
}
use cnimbus.Common.Bytes.{Bytes, lay, length-lay, splice}

pub data Failure : Type 0 where
  read_failed write_failed : Failure

-- The results of `src.Read`, in order: bytes and no error, or bytes with the end of the file or
-- another error.
pub data Source : Type 0 where
  more : Bytes → Source → Source
  eof : Bytes → Source
  broken : Bytes → Source

abbrev pub all_bytes : Source → Bytes
all_bytes (more b s) = b ++ all_bytes s
all_bytes (eof b) = b
all_bytes (broken b) = b

abbrev pub EndsWell : Source → Type 0
EndsWell (more b s) = EndsWell s
EndsWell (eof b) = Unit
EndsWell (broken b) = ⊥

-- The partition's byte range of the disk's backend, which a library gives: a write in the range
-- changes the bytes there.
pub record Region : Type 1 where
  pub Disk : Type 0
  pub contents : Disk → Bytes
  pub write_at : ℕ → Bytes → Disk → Option Disk
  pub write_within :
      (off : ℕ) (b : Bytes) (d : Disk)
      → off + length b ≤ length (contents d)
      → (d' : Disk) × (write_at off b d ≡ some d') × (contents d' ≡ splice off b (contents d))

splice-lay :
    (a b xs : Bytes) → length a ≤ length xs → splice (length a) b (lay a xs) ≡ lay (a ++ b) xs
unfolding splice lay
splice-lay [] b xs h = refl
splice-lay (y ∷ a) b [] h = absurd (omega arith)
splice-lay (y ∷ a) b (x ∷ xs) h = ap (◌∷◌ y) (splice-lay a b xs (omega arith))

module _ (r : Region) where
  open r use {Disk, contents, write_at, write_within}

  abbrev or_failed : Option Disk → Result Failure Disk
  or_failed none = err write_failed
  or_failed (some d) = ok d

  -- `if n > 0 { wf.WriteAt(buf[:n], written) }`
  unfoldable pub put : Bytes → ℕ → Disk → Result Failure Disk
  put [] written d = ok d
  put (c ∷ b) written d = or_failed (write_at written (c ∷ b) d)

  -- The loop of `writeRootPartition`.
  unfoldable pub write_loop : Source → ℕ → Disk → Result Failure Disk
  unfolding put
  write_loop (more b s) written d = do d' ← put b written d; write_loop s (written + length b) d'
  write_loop (eof b) written d = put b written d
  write_loop (broken b) written d = do _ ← put b written d; err read_failed

  put-contents :
      (start a b : Bytes) (d : Disk)
      → length a + length b ≤ length start
      → contents d ≡ lay a start
      → (d' : Disk) × (put b (length a) d ≡ ok d') × (contents d' ≡ lay (a ++ b) start)
  unfolding put
  put-contents start a [] d h e =
      (d, refl, e ∙ ap (λ (x : Bytes). lay x start) (sym (append-nil a)))
  put-contents start a (c ∷ b) d h e =
      let fits : length a + length (c ∷ b) ≤ length (contents d) =
        rw e (omega (arith, length-lay a start)) in
      let (d', w, k) = write_within (length a) (c ∷ b) d fits in
      (d', rw w refl, k ∙ rw e (splice-lay a (c ∷ b) start (omega arith)))

  write_loop-contents :
      (s : Source) (start a : Bytes) (d : Disk)
      → EndsWell s
      → length a + length (all_bytes s) ≤ length start
      → contents d ≡ lay a start
      → (d' : Disk) × (write_loop s (length a) d ≡ ok d')
        × (contents d' ≡ lay (a ++ all_bytes s) start)
  unfolding write_loop
  write_loop-contents (broken b) start a d w h e = absurd w
  write_loop-contents (eof b) start a d w h e = put-contents start a b d h e
  write_loop-contents (more b s) start a d w h e =
      let total = length-append b (all_bytes s) in
      let (d1, p, k) = put-contents start a b d (omega arith) e in
      let (d2, q, k2) =
        write_loop-contents s start (a ++ b) d1 w (omega (arith, length-append a b)) k in
      (
        d2,
        rw (p, ← length-append a b) q,
        k2 ∙ ap (λ (x : Bytes). lay x start) (append_assoc a b (all_bytes s)),
      )

  -- A file that is read to its end, and fits the partition, is written whole and from the first
  -- byte on; the bytes behind it stay as they were.
  pub write_loop-image :
      (s : Source) (d : Disk)
      → EndsWell s
      → length (all_bytes s) ≤ length (contents d)
      → (d' : Disk) × (write_loop s 0 d ≡ ok d') × (contents d' ≡ lay (all_bytes s) (contents d))
  unfolding lay
  write_loop-image s d w h = write_loop-contents s (contents d) [] d w (omega arith) refl
