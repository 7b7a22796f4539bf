-- ===== src/Errno.antt =====
-- src/errno.rs and src/abi/errno.rs: the error numbers that the modelled code uses, and the calling
-- thread's `errno`. A function that may write `errno` takes its value before the call and returns
-- its value after it; the storage is per thread, so no other thread is involved.
use rlibc.Common.{ℕ}

abbrev pub eperm : ℕ
eperm = 1

abbrev pub eagain : ℕ
eagain = 11

abbrev pub ebusy : ℕ
ebusy = 16

abbrev pub einval : ℕ
einval = 22

abbrev pub erange : ℕ
erange = 34

abbrev pub edeadlk : ℕ
edeadlk = 35

abbrev pub eacces : ℕ
eacces = 13

abbrev pub enomem : ℕ
enomem = 12

abbrev pub eilseq : ℕ
eilseq = 84

abbrev pub etimedout : ℕ
etimedout = 110
