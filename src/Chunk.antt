-- ===== src/Chunk.antt =====
-- `readChunk`, which consumer/consumer_syslog.go and reader/etl_reader.go each declare, and the
-- outcome of a loop that reads chunks.
use windns_logtail.Base.{
  ℕ, ◌+◌, ◌-◌, ◌≤◌, ◌<◌, ltb, List, ◌∷◌, ◌++◌, ◌≡◌, length, slice, drop, if◌then◌else◌, arith,
  length-take, length-drop, drop-drop, take-append-drop, nonempty,
}

-- A loop has returned, has indexed out of range, or has not ended within its fuel.
pub data Outcome {ℓ} (A : Type ℓ) : Type ℓ where
  returned : A → Outcome A
  panicked : Outcome A
  running : Outcome A

module _ {ℓ} {A : Type ℓ} where
  -- The bounds of the slice: `startIndex` and `endIndex`, cut to the length.
  abbrev pub chunk_end : List A → ℕ → ℕ → ℕ
  chunk_end arr chunk_size start =
      if ltb (length arr) (start + chunk_size) then length arr else start + chunk_size

  unfoldable pub read_chunk : List A → ℕ → ℕ → List A × ℕ
  read_chunk arr chunk_size start =
      (slice arr start (chunk_end arr chunk_size start), chunk_end arr chunk_size start)

  chunk_end_bounds :
      (arr : List A) (size start : ℕ)
      → 0 < size
      → start < length arr
      → (start < chunk_end arr size start)
        × (chunk_end arr size start ≤ length arr)
        × (chunk_end arr size start ≤ start + size)
  chunk_end_bounds arr size start h k = ground arith

  slice-append-drop :
      (arr : List A) (lo hi : ℕ) → lo ≤ hi → slice arr lo hi ++ drop hi arr ≡ drop lo arr
  slice-append-drop arr lo hi h =
      let e : lo + (hi - lo) ≡ hi = omega arith in
      let rest : drop (hi - lo) (drop lo arr) ≡ drop hi arr = rw (drop-drop lo (hi - lo) arr, e) in
      rw (← rest) (take-append-drop (hi - lo) (drop lo arr))

  length-slice : (arr : List A) (lo hi : ℕ) → hi ≤ length arr → length (slice arr lo hi) ≡ hi - lo
  length-slice arr lo hi h = omega (arith, length-take (hi - lo) (drop lo arr), length-drop lo arr)

  -- A chunk and what follows it are what was left, the chunk is neither empty nor too long, and
  -- the next start is later and in range.
  read_chunk_lem :
      (arr : List A) (size start : ℕ)
      → 0 < size
      → start < length arr
      → let (chunk, next) = read_chunk arr size start in
        (chunk ++ drop next arr ≡ drop start arr)
        × (0 < length chunk)
        × (length chunk ≤ size)
        × (start < next)
        × (next ≤ length arr)
  unfolding read_chunk
  read_chunk_lem arr size start h k =
      let b = chunk_end_bounds arr size start h k in
      let cut = length-slice arr start (chunk_end arr size start) b.1 in
      (
        slice-append-drop arr start (chunk_end arr size start) (omega arith),
        omega arith,
        omega arith,
        b.0,
        b.1,
      )

-- The chunk that a loop reads where records are left: its first record, the others, and the next
-- start.
pub record NextChunk {ℓ} {A : Type ℓ} (arr : List A) (size start : ℕ) : Type ℓ where
  pub first : A
  pub others : List A
  pub next : ℕ
  pub reads : read_chunk arr size start ≡ (first ∷ others, next)
  pub splits : (first ∷ others) ++ drop next arr ≡ drop start arr
  pub short : length (first ∷ others) ≤ size
  pub later : start < next
  pub within : next ≤ length arr

pub next_chunk {ℓ} :
    {A : Type ℓ} (arr : List A) (size start : ℕ)
    → 0 < size
    → start < length arr
    → NextChunk arr size start
next_chunk arr size start h k =
    let facts = read_chunk_lem arr size start h k in
    let (x, xs, e) = nonempty (read_chunk arr size start).0 facts.1 in
    record {
      first = x;
      others = xs;
      next = (read_chunk arr size start).1;
      reads = cc e;
      splits = rw e at facts.0;
      short = rw e at facts.2;
      later = facts.3;
      within = facts.4;
    }
