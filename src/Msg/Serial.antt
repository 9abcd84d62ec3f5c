-- ===== src/Msg/Serial.antt =====
-- Message sequence numbers: is_greater_than of src/msg/ntlp_msg.cpp and
-- next_msg_sequence_number of src/session.cpp.
use m_nslp.Prelude.{
  ℕ, ◌+◌, ◌-◌, ◌<◌, ◌≡◌, Bool, true, false, not, ◌&&◌, ◌||◌, arith, ltb, ◌==◌, u32, u32_mod,
}

abbrev pub limit : ℕ
limit = 2147483648

-- RFC 1982 comparison of two `uint32`.
unfoldable pub is_greater_than : ℕ → ℕ → Bool
is_greater_than s1 s2 =
    not (s1 == s2) && ((ltb s1 s2 && ltb limit (s2 - s1)) || (ltb s2 s1 && ltb (s1 - s2) limit))

-- `++msn` on a `uint32`.
unfoldable pub next_msn : ℕ → ℕ
next_msn msn = u32 (msn + 1)

-- How far one has to count from `b` to reach `a`, round the end of the range.
abbrev pub distance : ℕ → ℕ → ℕ
distance a b = u32 (a + u32_mod - b)

-- Of two numbers of 32 bits the first is greater exactly if one reaches it from the second by
-- counting up at least 1 and fewer than 2^31 steps, round the end of the range.
pub is_greater_than_iff :
    (a b : ℕ)
    → a < u32_mod
    → b < u32_mod
    → ((is_greater_than a b ≡ true) → (0 < distance a b) × (distance a b < limit))
      × ((0 < distance a b) × (distance a b < limit) → is_greater_than a b ≡ true)
unfolding is_greater_than
is_greater_than_iff a b p q = (λ h. ground arith, λ h. ground arith)

-- The next sequence number is greater than the one before, also where it wraps round to 0, and
-- the one before is not greater than it.
is_greater_than-next_msn :
    (msn : ℕ)
    → msn < u32_mod
    → (is_greater_than (next_msn msn) msn ≡ true) × (is_greater_than msn (next_msn msn) ≡ false)
unfolding is_greater_than next_msn
is_greater_than-next_msn msn h = ground arith

is_greater_than_irrefl : (a : ℕ) → is_greater_than a a ≡ false
unfolding is_greater_than
is_greater_than_irrefl a = ground arith

is_greater_than_asymm :
    (a b : ℕ) → a < u32_mod → b < u32_mod → is_greater_than a b ≡ true → is_greater_than b a ≡ false
unfolding is_greater_than
is_greater_than_asymm a b p q h = ground arith
