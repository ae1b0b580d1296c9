-- ===== src/Vst/Trace/Load.antt =====
-- The pieces that a line of the trace file is cut into.
use optr_jasmine.Prelude.{
  ℕ, zero, suc, ◌+◌, ◌-◌, ◌/◌, ◌≤◌, ◌<◌, ◌≡◌, refl, arith, Bool, List, [], ◌∷◌, if◌then◌else◌, ltb,
  ◌==◌, Bool-cases, inl, inr,
}
use optr_jasmine.Vst.Trace.{TraceEnt, split_line, load_line}

-- The entries follow each other from sector `lba` over `n` sectors, with at most `size` each and none
-- empty while sectors are left.
abbrev pub Pieces : ℕ → ℕ → ℕ → ℕ → List TraceEnt → Type 0
Pieces size kind lba n [] = n ≡ 0
Pieces size kind lba n (t ∷ ts) =
    (t.lba ≡ lba)
    × (t.rw ≡ kind)
    × (t.sec_num ≤ size)
    × (t.sec_num ≤ n)
    × (0 < n → 0 < t.sec_num)
    × Pieces size kind (lba + t.sec_num) (n - t.sec_num) ts

split_line-Pieces :
    (fuel size kind lba n : ℕ)
    → 0 < size
    → n < fuel
    → Pieces size kind lba n (split_line fuel size kind lba n)
unfolding split_line
split_line-Pieces zero size kind lba n pos lt = elim lt [ ]
split_line-Pieces (suc fuel) size kind lba n pos lt =
    let this = if ltb size n then size else n in
    elim (Bool-cases (n - this == 0)) [
      | inl z ↦ rw z (refl, refl, ground arith, ground arith, λ p. ground arith, ground arith)
      | inr more ↦ rw more (
        refl,
        refl,
        ground arith,
        ground arith,
        λ p. ground arith,
        split_line-Pieces fuel size kind (lba + this) (n - this) pos (ground arith),
      )
    ]

-- A line of the trace file becomes entries that cover its sectors without a gap and in order, each of
-- them a request of the line's kind and no longer than the buffer for it, which must not be empty.
-- The cutting ends.
pub load_line-Pieces :
    (rsize wsize : ℕ) (is_write : Bool) (bytes_at bytes : ℕ)
    → 0 < rsize
    → 0 < wsize
    → Pieces
        (if is_write then wsize else rsize)
        (if is_write then 0 else 1)
        (bytes_at / 512)
        (bytes / 512)
        (load_line rsize wsize is_write bytes_at bytes)
unfolding load_line
load_line-Pieces rsize wsize is_write bytes_at bytes r w =
    split_line-Pieces (bytes / 512 + 1) (if is_write then wsize else rsize)
      (if is_write then 0 else 1) (bytes_at / 512) (bytes / 512) (ground arith) (omega arith)
