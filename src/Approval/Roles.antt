-- ===== src/Approval/Roles.antt =====
-- The comma-separated roles of an approval workflow: Python's `str.split(",")` and `str.strip()`
-- (backend/app/services/approval_service.py, `approve`).
use Prim.Native.Char.{Char, code}
use text.Mathlib.Text.{◌==◌ as str_eq}
use k_aikei.Prelude.{String, Bool, List, [], ◌∷◌, ◌==◌, leb, ◌||◌, ◌&&◌, map, if◌then◌else◌}

-- `str.isspace` of one character
is_space : Char → Bool
is_space ch =
    let c = code ch in
    (leb 9 c && leb c 13)
    || (leb 28 c && leb c 32)
    || c == 0x85
    || c == 0xa0
    || c == 0x1680
    || (leb 0x2000 c && leb c 0x200a)
    || c == 0x2028
    || c == 0x2029
    || c == 0x202f
    || c == 0x205f
    || c == 0x3000

left_strip : String → String
left_strip String.[] = ""
left_strip (String.◌∷◌ c s) = let rest = left_strip s in if is_space c then rest else String.◌∷◌ c s

right_strip : String → String
right_strip String.[] = ""
right_strip (String.◌∷◌ c s) =
    let rest = right_strip s in if str_eq rest "" && is_space c then "" else String.◌∷◌ c rest

unfoldable pub strip : String → String
unfolding is_space left_strip right_strip
strip s = right_strip (left_strip s)

-- one more character in front of the parts of the rest
abbrev push_char : Char → List String → List String
push_char c [] = []
push_char c (w ∷ ws) = if code c == b',' then "" ∷ w ∷ ws else String.◌∷◌ c w ∷ ws

unfoldable pub split_commas : String → List String
split_commas String.[] = "" ∷ []
split_commas (String.◌∷◌ c s) = push_char c (split_commas s)

-- `[r.strip() for r in required_approver_roles.split(",")]`
unfoldable pub required_roles : String → List String
unfolding strip split_commas
required_roles s = map strip (split_commas s)
