-- ===== src/Enc/Chars.antt =====
-- The tables of the encodings: each digit is read back from its character.
use drawterm_android.Base.{ℕ, ◌<◌, ◌≡◌, ◌==◌, true, refl, ==→eq, all_below, all_below_lem, true}
use drawterm_android.Enc.{negative, between, enc16chr, dec16chr, enc64chr, dec64chr}

hex_table : all_below 16 (λ o. dec16chr (enc16chr o) == o) ≡ true
unfolding all_below dec16chr enc16chr between
hex_table = refl

pub dec16chr-enc16chr : (o : ℕ) → o < 16 → dec16chr (enc16chr o) ≡ o
dec16chr-enc16chr o h = ==→eq _ o (all_below_lem 16 (λ o. dec16chr (enc16chr o) == o) o hex_table h)

base64_table : all_below 64 (λ o. dec64chr (enc64chr o) == o) ≡ true
unfolding all_below dec64chr enc64chr between
base64_table = refl

pub dec64chr-enc64chr : (o : ℕ) → o < 64 → dec64chr (enc64chr o) ≡ o
dec64chr-enc64chr o h =
    ==→eq _ o (all_below_lem 64 (λ o. dec64chr (enc64chr o) == o) o base64_table h)

pub pad_negative : negative (dec64chr 61) ≡ true
unfolding dec64chr between
pad_negative = refl
