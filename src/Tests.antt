-- ===== src/Tests.antt =====
-- The theorems on concrete inputs, and runs of the model.
mod Conv
mod Time
mod Memory
mod Threads
mod Rwlock
mod Env
mod Glob
mod Cond
mod Wchar
