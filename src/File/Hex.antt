-- ===== src/File/Hex.antt =====
-- The text of a digest, and the last part of a path.
use pandora_agent_win.Base.{
  ℕ, ◌+◌, ◌-◌, ◌*◌, ◌/◌, ◌%◌, ◌<◌, ◌≡◌, refl, Bool, true, List, [], ◌∷◌, arith, All, length, leb,
  ◌&&◌, ◌||◌, if◌then◌else◌,
}
use pandora_agent_win.File.{hex_digit, hex_of, md5}
use pandora_agent_win.Text.{Str}

abbrev pub is_hex : ℕ → Bool
is_hex c = (leb b'0' c && leb c b'9') || (leb b'a' c && leb c b'f')

-- The byte that two digits stand for.
abbrev pub byte_of : ℕ → ℕ
byte_of c = if leb c b'9' then c - b'0' else 10 + (c - b'a')

abbrev pub unhex : Str → List ℕ
unhex [] = []
unhex (c ∷ []) = []
unhex (c ∷ d ∷ s) = (16 * byte_of c + byte_of d) ∷ unhex s

abbrev pub IsByte : ℕ → Type 0
IsByte n = n < 256

digit_is_hex : (n : ℕ) → n < 16 → is_hex (hex_digit n) ≡ true
digit_is_hex n h = ground arith

byte_of_digit : (n : ℕ) → n < 16 → byte_of (hex_digit n) ≡ n
byte_of_digit n h = ground arith

hex_of_lem :
    (ns : List ℕ)
    → All IsByte ns
    → (length (hex_of ns) ≡ 2 * length ns)
      × All (λ c. is_hex c ≡ true) (hex_of ns)
      × (unhex (hex_of ns) ≡ ns)
hex_of_lem [] h = (refl, tt, refl)
hex_of_lem (n ∷ ns) h =
    let (a, b, c) = hex_of_lem ns h.1 in
    let l : n / 16 < 16 = omega (arith, h.0) in
    let r : n % 16 < 16 = omega arith in
    let e : 16 * byte_of (hex_digit (n / 16)) + byte_of (hex_digit (n % 16)) ≡ n =
      rw (byte_of_digit (n / 16) l, byte_of_digit (n % 16) r) (omega arith) in
    (omega (arith, a), (digit_is_hex (n / 16) l, (digit_is_hex (n % 16) r, b)), λ i. e i ∷ c i)

-- Of a digest of 16 bytes the text has 32 characters, the 33 of the buffers with the terminator; each is
-- a hexadecimal digit, and different digests have different texts, since the text gives the digest back.
pub md5_lem :
    (digest : Str → List ℕ) (text : Str)
    → length (digest text) ≡ 16
    → All IsByte (digest text)
    → (length (md5 digest text) ≡ 32)
      × All (λ c. is_hex c ≡ true) (md5 digest text)
      × (unhex (md5 digest text) ≡ digest text)
unfolding md5
md5_lem digest text l h = let (a, b, c) = hex_of_lem (digest text) h in (omega (arith, a, l), b, c)
