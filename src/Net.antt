-- ===== src/Net.antt =====
-- kernel/net.c: bytes of a packet, the Internet checksum, DNS and the demultiplexing of frames.
pub mod Checksum
pub mod Dns
mod Tests
use nos.Prelude.{
  ℕ, zero, suc, ◌+◌, ◌-◌, ◌*◌, ◌/◌, ◌%◌, List, [], ◌∷◌, Option, some, if◌then◌else◌, ◌==◌, add32,
  get_elem?, ◌>>=◌,
}

-- Two bytes in network order, `(p[i] << 8) | p[i + 1]`; a read behind the end is `none`.
unfoldable pub be16 : List ℕ → ℕ → Option ℕ
be16 p i = do a ← get_elem? p i; b ← get_elem? p (i + 1); some (a * 256 + b)

-- `htons` and `ntohs` of a 16-bit number
abbrev pub htons : ℕ → ℕ
htons x = x % 256 * 256 + x / 256

-- A `uint16_t` in memory, low byte first.
abbrev pub stored16 : ℕ → List ℕ
stored16 v = v % 256 ∷ v / 256 ∷ []

unfoldable pub net_csum_add : ℕ → List ℕ → ℕ
net_csum_add sum [] = sum
net_csum_add sum (a ∷ []) = add32 sum (a * 256)
net_csum_add sum (a ∷ b ∷ rest) = net_csum_add (add32 sum (a * 256 + b)) rest

-- `while (sum >> 16)`; three tests are enough for 32 bits (`Checksum.fold_lem`).
unfoldable pub fold : ℕ → ℕ → ℕ
fold zero sum = sum
fold (suc f) sum =
    let rest = fold f (sum % 65536 + sum / 65536) in if sum / 65536 == 0 then sum else rest

-- `htons((uint16_t)~sum)`
unfoldable pub net_csum_fin : ℕ → ℕ
unfolding fold
net_csum_fin sum = htons (65535 - fold 3 sum)
