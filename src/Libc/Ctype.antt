-- ===== src/Libc/Ctype.antt =====
-- kernel/libc/ctype.cpp. An `int` is its 32-bit pattern.
use n00b_os.Prelude.{ℕ, ◌+◌, ◌%◌, ◌&&◌, ltb, leb, if◌then◌else◌}

unfoldable pub isdigit : ℕ → ℕ
isdigit ch = let c = ch % 256 in if leb 0x30 c && leb c 0x39 then 1 else 0

unfoldable pub tolower : ℕ → ℕ
tolower ch = let u_ch = ch % 256 in if ltb 0x40 u_ch && ltb u_ch 0x5B then u_ch + 0x20 else ch
