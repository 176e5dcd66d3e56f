-- ===== src/Common/Text.antt =====
-- The field patterns of the source's models, over the characters of a text.
use Prim.Native.Char.{code}
use ecommerce_after_sales_ag.Common.{
  ℕ, String, ◌≡◌, refl, Bool, true, ◌&&◌, ◌||◌, List, [], ◌∷◌, leb, ◌==◌, length, all,
}

abbrev pub codes : String → List ℕ
codes String.[] = []
codes (String.◌∷◌ c s) = code c ∷ codes s

is_hex : ℕ → Bool
is_hex c = leb b'0' c && leb c b'9' || leb b'a' c && leb c b'f'

-- ^[0-9a-f]{64}$
unfoldable pub is_digest : String → Bool
unfolding is_hex
is_digest s = all is_hex (codes s) && (length (codes s) == 64)

-- max_length=n, in characters
unfoldable pub at_most : ℕ → String → Bool
at_most n s = leb (length (codes s)) n

abbrev pub sample_digest : String
sample_digest = "0123456789abcdef0123456789abcdef0123456789abcdef0123456789abcdef"

is_digest_test : is_digest sample_digest ≡ true
unfolding is_digest
is_digest_test = refl
