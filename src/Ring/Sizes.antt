-- ===== src/Ring/Sizes.antt =====
-- The calls of kernel/ringbuf.c leave the ring's size alone.
use lkm_char_dev.Base.{ℕ, ◌≡◌, arith, some}
use lkm_char_dev.Uapi.{GpuSample}
use lkm_char_dev.Ring.{RingBuf, Consumed, ring_push, store, ring_consume, copy_behind, overrun}

pub push-size :
    (r : RingBuf) (x : GpuSample) {r' : RingBuf} → ring_push r x ≡ some r' → r'.size ≡ r.size
unfolding ring_push store
push-size r x e = ground arith

pub consume-size :
    (r : RingBuf) (next most : ℕ) {c : Consumed}
    → ring_consume r next most ≡ some c
    → c.ring.size ≡ r.size
unfolding ring_consume copy_behind overrun
consume-size r next most e = ground arith
