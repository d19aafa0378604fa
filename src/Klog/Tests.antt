-- ===== src/Klog/Tests.antt =====
-- kernel/klog.c: the theorems at concrete logs and numbers.
use bloom_os.Prelude.{ℕ, ◌<◌, ◌≤◌, ◌≡◌, ◌≢◌, All, get_or, [], ◌∷◌, ◌++◌, length, take, arith}
use bloom_os.Klog.{klog, klog_uint, uint_text, hex_text}
use bloom_os.Klog.Numbers.{klog_lem, klog_uint_lem, value_of, IsDigit}
use bloom_os.Klog.Hex.{hex_text_lem, IsHexDigit}

klog_lem_example :
    klog (b'a' ∷ b'b' ∷ []) (b'x' ∷ []) ≡ take 16383 ((b'x' ∷ []) ++ (b'a' ∷ b'b' ∷ []))
klog_lem_example = klog_lem (b'a' ∷ b'b' ∷ []) (b'x' ∷ []) (omega arith)

klog_uint_lem_example :
    (klog_uint 4096 (b'x' ∷ []) ≡ take 16383 ((b'x' ∷ []) ++ uint_text 4096))
    × (value_of 10 0 (uint_text 4096) ≡ 4096)
    × (length (uint_text 4096) ≤ 20)
    × All IsDigit (uint_text 4096)
    × (0 < 4096 → b'0' < get_or (uint_text 4096) 0 0)
    × (◌≡◌ {A = ℕ} 4096 0 → uint_text 4096 ≡ b'0' ∷ [])
klog_uint_lem_example = klog_uint_lem 4096 (b'x' ∷ []) (omega arith) (omega arith)

hex_text_lem_example :
    (value_of 16 0 (hex_text 0xABC 4) ≡ 0xABC)
    × (length (hex_text 0xABC 4) ≤ 16)
    × (4 ≤ length (hex_text 0xABC 4))
    × (0 < length (hex_text 0xABC 4))
    × All IsHexDigit (hex_text 0xABC 4)
    × (1 < length (hex_text 0xABC 4)
        → 4 < length (hex_text 0xABC 4)
        → get_or (hex_text 0xABC 4) 0 0 ≢ b'0')
hex_text_lem_example = hex_text_lem 0xABC 4 (omega arith) (omega arith)
