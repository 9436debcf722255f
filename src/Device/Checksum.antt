-- ===== src/Device/Checksum.antt =====
-- `Device::ipHeaderChecksum` and `Device::icmpHeaderChecksum` of macdetectd/src/Device.cpp, on a
-- little-endian machine.
use macdetect.Base.{ℕ, ◌+◌, ◌-◌, ◌*◌, ◌/◌, ◌%◌, ◌^◌, [], ◌∷◌, Text, ltb, if◌then◌else◌}

-- `htons` and `ntohs`.
unfoldable pub swap16 : ℕ → ℕ
swap16 x = x % 256 * 256 + x / 256 % 256

-- A `uint16_t` in memory.
unfoldable pub le16 : ℕ → Text
le16 x = (x % 256) ∷ (x / 256 % 256) ∷ []

-- `if(acc > 0xffff) acc -= 0xffff`, behind an addition of 32 bits.
unfoldable pub reduce : ℕ → ℕ
reduce acc = let a = acc % 2 ^ 32 in if ltb 0xffff a then a - 0xffff else a

-- The loop over the words in network order, and the partial word at the end.
unfoldable pub accumulate : ℕ → Text → ℕ
unfolding reduce
accumulate acc [] = acc
accumulate acc (a ∷ []) = reduce (acc + a * 256)
accumulate acc (a ∷ b ∷ bs) = accumulate (reduce (acc + (a * 256 + b))) bs

-- `~acc`, cut off to 16 bits.
abbrev pub complement : ℕ → ℕ
complement acc = (2 ^ 32 - 1 - acc % 2 ^ 32) % 2 ^ 16

-- `ipHeaderChecksum`
unfoldable pub ip_header_checksum : Text → ℕ
unfolding accumulate swap16
ip_header_checksum bytes = swap16 (complement (accumulate 0xffff bytes))

-- The sum of the words in the order of the machine; a byte that is left over is a word, too.
unfoldable pub add_words : ℕ → Text → ℕ
add_words sum [] = sum
add_words sum (a ∷ []) = sum + a
add_words sum (a ∷ b ∷ bs) = add_words (sum + (a + b * 256)) bs

-- `sum = (sum >> 16) + (sum & 0xffff); sum += (sum >> 16)`, for a sum that an `int` holds.
unfoldable pub fold : ℕ → ℕ
fold sum = let s = sum / 2 ^ 16 + sum % 2 ^ 16 in s + s / 2 ^ 16

-- `icmpHeaderChecksum`
unfoldable pub icmp_header_checksum : Text → ℕ
unfolding add_words fold
icmp_header_checksum bytes = complement (fold (add_words 0 bytes))
