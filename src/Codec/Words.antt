-- ===== src/Codec/Words.antt =====
-- The bytes of a number and the number of four bytes.
use fat_btree.Prelude.{ℕ, ◌/◌, ◌%◌, ◌^◌, ◌<◌, ◌≡◌, arith}
use fat_btree.Codec.{of_le32, htonl}

-- The bytes of an unsigned that holds `n` make `n` again.
pub of_le32-bytes :
    (n : ℕ)
    → n < 2 ^ 32
    → of_le32
        (n % 2 ^ 32 % 256)
        (n % 2 ^ 32 / 256 % 256)
        (n % 2 ^ 32 / 65536 % 256)
        (n % 2 ^ 32 / 16777216 % 256)
      ≡ n
of_le32-bytes n h = omega arith

pub htonl-lt : (n : ℕ) → htonl n < 2 ^ 32
unfolding htonl
htonl-lt n = omega arith

pub htonl_involutive : (n : ℕ) → n < 2 ^ 32 → htonl (htonl n) ≡ n
unfolding htonl
htonl_involutive n h = omega arith
