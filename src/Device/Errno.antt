-- ===== src/Device/Errno.antt =====
-- The error codes that the file operations return.
use lkm_char_dev.Base.Int.{ℤ, neg}

abbrev pub eagain : ℤ
eagain = neg 11

abbrev pub efault : ℤ
efault = neg 14

abbrev pub enotty : ℤ
enotty = neg 25

-- `wait_event_interruptible` on a signal.
abbrev pub erestartsys : ℤ
erestartsys = neg 512
