-- ===== src/Recovery/Ids.antt =====
-- nla-browser-recovery.mjs and nla-memory.mjs: the formats of task ids, sessions and claim tokens.
use Prim.Native.Char.{code}
use next_level_agent.Base.{ℕ, String, Bool, ◌&&◌, ◌||◌, List, [], ◌∷◌, all, length, leb, eqb}

-- The characters of a text; a length counts each as one, as the ids hold ASCII only.
abbrev pub codes : String → List ℕ
codes String.[] = []
codes (String.◌∷◌ c s) = code c ∷ codes s

within : ℕ → ℕ → ℕ → Bool
within low high c = leb low c && leb c high

is_digit : ℕ → Bool
unfolding within
is_digit c = within b'0' b'9' c

-- [A-Za-z0-9_-]
is_id_character : ℕ → Bool
unfolding within is_digit
is_id_character c =
    within b'A' b'Z' c || within b'a' b'z' c || is_digit c || eqb c b'_' || eqb c b'-'

has_length : ℕ → ℕ → List ℕ → Bool
has_length low high cs = leb low (length cs) && leb (length cs) high

-- /^[A-Za-z0-9_-]{1,160}$/
unfoldable pub valid_id : String → Bool
unfolding is_id_character has_length
valid_id s = all is_id_character (codes s) && has_length 1 160 (codes s)

-- /^[A-Za-z0-9_-]{8,160}$/
unfoldable pub safe_session : String → Bool
unfolding is_id_character has_length
safe_session s = all is_id_character (codes s) && has_length 8 160 (codes s)

-- /^[a-f0-9]{64}$/
unfoldable pub is_token : String → Bool
unfolding within is_digit has_length
is_token s = all (λ c. within b'a' b'f' c || is_digit c) (codes s) && has_length 64 64 (codes s)
