-- ===== src/Pal/Calls.antt =====
-- `Connect` and `Accept` of `OsTcpSocket` in 2015_CppCon/SuperLean/PAL.cpp: whether the call of Winsock
-- says that it succeeded, and what `WSAGetLastError` gives.
use await.Base.{ℕ, Bool, ◌==◌, if◌then◌else◌, Outcome, done, fault}
use await.Pal.{io_pending}

-- The status on the one path that no panic ends.
unfoldable pub connect : Bool → ℕ → Outcome ℕ
connect ok code = if ok then fault else (if code == io_pending then done code else fault)

unfoldable pub accept : Bool → ℕ → Outcome ℕ
accept ok code = if ok then fault else (if code == io_pending then done code else fault)
