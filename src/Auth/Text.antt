-- ===== src/Auth/Text.antt =====
-- The functions of Go's package strings that internal/auth/rbac.go calls on scopes.
use Prim.Native.Char.{Char, code}
use cloudpam.Base.{
  ℕ, ◌≡◌, refl, String, Bool, ◌&&◌, ◌||◌, Option, some, none, leb, ◌==◌, str_eq, if◌then◌else◌,
}
use mathlib.Core.Option

-- unicode.IsSpace
unfoldable pub is_space : ℕ → Bool
is_space c =
    (leb 9 c && leb c 13)
    || (c == 32
        || (c == 0x85
            || (c == 0xa0
                || (c == 0x1680
                    || ((leb 0x2000 c && leb c 0x200a)
                        || (c == 0x2028
                            || (c == 0x2029 || (c == 0x202f || (c == 0x205f || c == 0x3000)))))))))

unfoldable pub trim_left : String → String
unfolding is_space
trim_left String.[] = String.[]
trim_left (String.◌∷◌ c s) =
    let rest = trim_left s in if is_space (code c) then rest else String.◌∷◌ c s

unfoldable pub trim_right : String → String
unfolding is_space
trim_right String.[] = String.[]
trim_right (String.◌∷◌ c s) =
    let rest = trim_right s in if is_space (code c) && str_eq rest "" then "" else String.◌∷◌ c rest

-- strings.TrimSpace
unfoldable pub trim_space : String → String
unfolding trim_left trim_right
trim_space s = trim_right (trim_left s)

abbrev cons_first : Char → String × String → String × String
cons_first c (a, b) = (String.◌∷◌ c a, b)

-- strings.SplitN(s, ":", 2), which has two parts exactly when there is a colon.
unfoldable pub split_colon : String → Option (String × String)
split_colon String.[] = none
split_colon (String.◌∷◌ c s) =
    let later = Option.map (cons_first c) (split_colon s) in
    if code c == b':' then some ("", s) else later

-- strings.HasSuffix(s, ":*") and strings.TrimSuffix(s, ":*")
unfoldable pub strip_wildcard : String → Option String
strip_wildcard String.[] = none
strip_wildcard (String.◌∷◌ c s) =
    let later = Option.map (String.◌∷◌ c) (strip_wildcard s) in
    if str_eq (String.◌∷◌ c s) ":*" then some "" else later

trim_run : trim_space "  pools:read " ≡ "pools:read"
unfolding trim_space
trim_run = refl

split_run : split_colon "pools:a:b" ≡ some ("pools", "a:b")
unfolding split_colon
split_run = refl

strip_run : strip_wildcard "pools:*" ≡ some "pools"
unfolding strip_wildcard
strip_run = refl
