-- ===== src/Web/Text.antt =====
-- Methods of JavaScript's strings that the components of apps/web/src call. White space is that of
-- ASCII.
use mikrotikbandwidthmonitor.Prelude.{
  ℕ, Bool, true, false, ◌||◌, ◌&&◌, [], ◌∷◌, leb, ◌==◌, if◌then◌else◌,
}
use mikrotikbandwidthmonitor.Prelude.Bytes.{Text}

abbrev pub is_space : ℕ → Bool
is_space c = (leb 9 c && leb c 13) || c == 32

abbrev pub trim_start : Text → Text
trim_start [] = []
trim_start (c ∷ s) = if is_space c then trim_start s else c ∷ s

abbrev push_unless_space : ℕ → Text → Text
push_unless_space c [] = if is_space c then [] else c ∷ []
push_unless_space c (d ∷ s) = c ∷ d ∷ s

abbrev pub trim_end : Text → Text
trim_end [] = []
trim_end (c ∷ s) = push_unless_space c (trim_end s)

-- `s.trim()`
unfoldable pub trim : Text → Text
trim s = trim_end (trim_start s)

-- `s.length > 0`, and whether a text counts as true
abbrev pub filled_text : Text → Bool
filled_text [] = false
filled_text (c ∷ s) = true

-- `s.replace(/c/g, "")` for one character
unfoldable pub without : ℕ → Text → Text
without c [] = []
without c (d ∷ s) = let rest = without c s in if c == d then rest else d ∷ rest
