-- ===== src/Log.antt =====
-- What the ring buffer promises, with no ring: the log of every sample pushed since the ring was
-- made, the sample of sequence number `i` at index `i`, of which a reader can have the last `size`.
use lkm_char_dev.Base.{ℕ, ◌-◌, max, List, length, take, drop}
use lkm_char_dev.Uapi.{GpuSample}

abbrev pub Log : Type 0
Log = List GpuSample

-- The first sequence number that a reader at `next` can still have.
abbrev pub first : ℕ → Log → ℕ → ℕ
first size h next = max next (length h - size)

-- The samples that one reading of at most `most` returns.
abbrev pub read : ℕ → Log → ℕ → ℕ → List GpuSample
read size h next most = take most (drop (first size h next) h)

-- How many samples the reader has missed.
abbrev pub lost : ℕ → Log → ℕ → ℕ
lost size h next = first size h next - next
