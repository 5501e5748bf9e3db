-- ===== src/Helper/Name.antt =====
-- internal/helper/name.go: names of child objects. Names are ASCII, so that a byte is a character.
pub mod Texts
pub mod Laws
use Prim.Native.Char.{Char, code}
use Prim.Native.String
use Prim.Native.String.{count}
use supabase_kubernetes.Defaults.Assets.{Digest}
use supabase_kubernetes.Go.Strings.{trim_right}
use supabase_kubernetes.Prelude.{
  Bool, String, [], concat, false, if◌then◌else◌, leb, ltb, suc, zero, ℕ, ◌&&◌, ◌==◌, ◌=s◌, ◌∷◌,
}

abbrev pub dash : Char
dash = "-"

-- strings.ReplaceAll(s, ".", "-")
unfoldable pub replace_dots : String → String
replace_dots String.[] = String.[]
replace_dots (String.◌∷◌ c s) = String.◌∷◌ (if code c == b'.' then dash else c) (replace_dots s)

-- `s[0] >= '0' && s[0] <= '9'`; the text is not empty, since it holds a dash.
unfoldable pub starts_with_digit : String → Bool
starts_with_digit String.[] = false
starts_with_digit (String.◌∷◌ c s) = leb b'0' (code c) && leb (code c) b'9'

-- `s[:n]`
unfoldable pub take_text : ℕ → String → String
take_text zero s = String.[]
take_text (suc n) String.[] = String.[]
take_text (suc n) (String.◌∷◌ c s) = String.◌∷◌ c (take_text n s)

-- the prefix of a name that would start with a digit
unfoldable pub guard_digit : String → String
unfolding starts_with_digit
guard_digit s = if starts_with_digit s then String.◌++◌ "c-" s else s

unfoldable pub child_name : String → String → String
child_name name suffix = concat (name ∷ "-" ∷ suffix ∷ [])

unfoldable pub normalized : String → String
unfolding guard_digit replace_dots
normalized original = guard_digit (replace_dots original)

-- the first eight bytes of the digest, in hexadecimal
unfoldable pub short_digest : Digest → String → String
unfolding take_text
short_digest digest original = take_text 16 (digest original)

unfoldable pub hashed_name : Digest → String → String
unfolding trim_right
hashed_name digest original =
    let long = normalized original in
    let prefix = if ltb 46 (count long) then take_text 46 long else long in
    concat (trim_right b'-' prefix ∷ "-" ∷ short_digest digest original ∷ [])

-- whether a name serves as it is
unfoldable pub is_plain : String → Bool
is_plain original = leb (count (normalized original)) 63 && normalized original =s original

unfoldable pub resource_name : Digest → String → String → String
unfolding child_name is_plain normalized hashed_name short_digest
resource_name digest name suffix =
    let original = child_name name suffix in
    if is_plain original then normalized original else hashed_name digest original
