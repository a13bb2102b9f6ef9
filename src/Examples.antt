-- ===== src/Examples.antt =====
-- Small concrete rings, samples and kernels, for the tests of the components.
pub mod Printed
use lkm_char_dev.Base.{
  true, ℕ, zero, suc, ◌+◌, ◌*◌, ◌/◌, ◌≡◌, refl, ap, sym, ◌∙◌, arith, some_inj, false,
}
use lkm_char_dev.Base.{
  ◌++◌, ◌-◌, ltb, if◌then◌else◌, List, [], ◌∷◌, some, none, replicate, ◌<◌, ◌≤◌, ◌%◌, get_elem?,
}
use lkm_char_dev.Base.Int.{pos, negsuc}
use lkm_char_dev.Uapi.{GpuSample, IsSample, zero_sample, sample_size}
use lkm_char_dev.Ring.{RingBuf, Vzalloc}
use lkm_char_dev.Ring.Init.{IsVzalloc}
use lkm_char_dev.Ring.Invariant.{Represents}
use lkm_char_dev.Device.{ReadCalls, File, Device}
use lkm_char_dev.Sysfs.{FileCalls, got, bytes}
use lkm_char_dev.Lifecycle.{InitCalls}
use lkm_char_dev.Printing.{Printf}

-- A sample with a time of its own.
abbrev pub sample : ℕ → GpuSample
sample n = record zero_sample { timestamp_ns = n }

pub sample1-IsSample : IsSample (sample 1)
sample1-IsSample = omega arith

pub sample2-IsSample : IsSample (sample 2)
sample2-IsSample = omega arith

pub sample3-IsSample : IsSample (sample 3)
sample3-IsSample = omega arith

-- A `vzalloc` that always has memory.
abbrev pub plenty : Vzalloc
plenty b = some (replicate (b / sample_size) zero_sample)

pub plenty-IsVzalloc : IsVzalloc plenty
plenty-IsVzalloc = record { zeroed = zeroed }
  where
    zeroed :
        (n : ℕ) {m : List GpuSample}
        → plenty (n * sample_size) ≡ some m
        → m ≡ replicate n zero_sample
    zeroed n e = sym (some_inj e) ∙ ap (λ k. replicate k zero_sample) (omega arith)

-- The static ring of the device before the module is loaded.
abbrev pub no_ring : RingBuf
no_ring = record { samples = none; size = 0; mask = 0; head_seq = 0; dropped = 0 }

abbrev pub empty_ring : RingBuf
empty_ring = record {
  samples = some (replicate 2 zero_sample);
  size = 2;
  mask = 1;
  head_seq = 0;
  dropped = 0;
}

pub empty_ring-Represents : Represents empty_ring []
empty_ring-Represents = record {
  valid = record {
    memory = replicate 2 zero_sample;
    held = refl;
    memory_length = refl;
    size_pow2 = (1, refl);
    size_small = omega arith;
    masked = refl;
    head_fits = omega arith;
    dropped_fits = omega arith;
  };
  head = refl;
  live = λ i lt. elim lt [ ];
}

-- Two slots after three pushes: the first sample is gone.
abbrev pub full_ring : RingBuf
full_ring = record {
  samples = some (sample 3 ∷ sample 2 ∷ []);
  size = 2;
  mask = 1;
  head_seq = 3;
  dropped = 0;
}

abbrev pub three : List GpuSample
three = sample 1 ∷ sample 2 ∷ sample 3 ∷ []

pub full_ring-Represents : Represents full_ring three
full_ring-Represents = record {
  valid = record {
    memory = sample 3 ∷ sample 2 ∷ [];
    held = refl;
    memory_length = refl;
    size_pow2 = (1, refl);
    size_small = omega arith;
    masked = refl;
    head_fits = omega arith;
    dropped_fits = omega arith;
  };
  head = refl;
  live = λ i lt near. live i lt near;
}
  where
    live :
        (i : ℕ)
        → i < 3
        → 3 ≤ i + 2
        → get_elem? (sample 3 ∷ sample 2 ∷ []) (i % 2) ≡ get_elem? three i
    live zero lt near = absurd (omega arith)
    live (suc zero) lt near = refl
    live (suc (suc zero)) lt near = refl
    live (suc (suc (suc i))) lt near = absurd (omega arith)

abbrev pub bare_device : Device
bare_device = record {
  ring = no_ring;
  open_count = 0;
  interval_ms = 0;
  temp_path = [];
  fan_path = [];
  power_path = [];
  freq_path = [];
}

-- A file system in which every file can be opened and holds the number 45000.
abbrev pub quiet_files : FileCalls
quiet_files = record {
  filp_open = λ path. none;
  kernel_read = λ path most. got (bytes "45000\n");
  kstrtos64 = λ text. (pos 0, pos 45000);
}

-- A kernel whose calls all succeed.
abbrev pub willing : InitCalls
willing = record {
  vzalloc = plenty;
  files = quiet_files;
  alloc_chrdev_region = pos 0;
  cdev_add = pos 0;
  class_create = none;
  device_create_fails = false;
  kthread_run = none;
}

-- A kernel that copies everything, and whose wait ends with three samples in the ring.
abbrev pub copying : ReadCalls
copying = record {
  wait_event = λ r next. (pos 0, full_ring);
  kmalloc_array = λ n size. true;
  copy_to_user = λ bytes. 0;
}

abbrev pub at_start : File
at_start = record { private_data = some 0; nonblock = false }

-- Decimal digits, as many as the fuel allows.
abbrev digits : ℕ → ℕ → List ℕ
digits zero n = []
digits (suc fuel) n =
    let more = digits fuel (n / 10) ++ (b'0' + n % 10) ∷ [] in
    if ltb n 10 then (b'0' + n) ∷ [] else more

-- A `printf` whose numbers are tenths, cut off at 0, and which prints one decimal.
abbrev pub printing : Printf
printing = record {
  Double = ℕ;
  of_int = λ z. elim z [ pos n ↦ n * 10 | negsuc n ↦ 0 ];
  of_nat = λ n. n * 10;
  div = λ x y. x * 10 / y;
  sub = λ x y. x - y;
  fixed = λ width precision x. digits 20 (x / 10) ++ b'.' ∷ (b'0' + x % 10) ∷ [];
  decimal = λ n. digits 20 n;
  hex = λ width n. digits 20 n;
}
